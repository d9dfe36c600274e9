-- ===== src/Packaging.antt =====
-- src/postgresbuild/postgresql/helpers/package-tests.py: PostgreSQL's tests, packaged to run without
-- the build tree. Here are `manifest_word` and the lines of the manifest.
pub mod Words
pub mod Quotes
pub mod Manifest
pub mod Options
pub mod Suites
pub mod Package
pub mod Portable
use postgresbuild.Prelude.{
  ℕ, ◌==◌, Bool, true, false, ◌||◌, ◌&&◌, any, all, leb, List, [], ◌∷◌, String, ◌++◌, if◌then◌else◌,
  not, Exn, ExnClass, value_error, guard, ◌>>◌, Result, ok, err, ◌>>=◌, traverse,
}
use postgresbuild.Prelude.Text.{Text, codes, is_empty, joined}

abbrev pub quote_mark : ℕ
quote_mark = b'\''

abbrev pub double_mark : ℕ
double_mark = b'"'

-- `[\w@%+=:,./-]` of ASCII, the characters that `shlex.quote` leaves.
unfoldable pub is_safe : ℕ → Bool
is_safe c =
    leb b'a' c && leb c b'z'
    || (leb b'A' c && leb c b'Z'
        || (leb b'+' c && leb c b':' || (c == b'_' || (c == b'@' || (c == b'%' || c == b'=')))))

-- `s.replace("…", t)` of one character.
unfoldable pub replace_char : ℕ → Text → Text → Text
replace_char c t [] = []
replace_char c t (d ∷ s) = let rest = replace_char c t s in if d == c then t ++ rest else d ∷ rest

-- `shlex.quote`
unfoldable pub shlex_quote : Text → Text
unfolding is_safe replace_char
shlex_quote s =
    if is_empty s
    then codes "''"
    else if all is_safe s
    then s
    else quote_mark ∷ replace_char quote_mark (codes "'\"'\"'") s ++ quote_mark ∷ []

-- A message, without the value that it quotes.
abbrev pub raise_value : String → Exn
raise_value s = record { class = value_error; message = codes s }

abbrev pub is_unsafe : ℕ → Bool
is_unsafe c = c == b'`' || (c == b'\\' || (c == 10 || c == 13))

abbrev pub is_dollar : ℕ → Bool
is_dollar c = c == b'$'

abbrev pub word_of : Text → Text
word_of value =
    if any is_dollar value
    then double_mark ∷ replace_char double_mark (codes "\\\"") value ++ double_mark ∷ []
    else shlex_quote value

-- `manifest_word`
unfoldable pub manifest_word : Text → Result Text
unfolding shlex_quote replace_char
manifest_word value = do
  guard (not (any is_unsafe value)) (raise_value "unsafe test manifest argument")
  ok (word_of value)

-- A line of the manifest: `"run … " + " ".join(map(manifest_word, arguments))`.
unfoldable pub run_line : Text → List Text → Result Text
unfolding manifest_word joined
run_line driver arguments = do
  words ← traverse manifest_word arguments
  ok (codes "run " ++ driver ++ codes " " ++ joined words)
