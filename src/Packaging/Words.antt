-- ===== src/Packaging/Words.antt =====
-- src/postgresbuild/postgresql/helpers/package-tests.py: the lines of the manifest, as the shell reads
-- them. The reader is that of POSIX for the characters outside quotes that `shlex.quote` leaves, for
-- both kinds of quotes and for blanks; it stops at any other character. A `$` in double quotes stays
-- in the word, as its expansion comes after; it stops at `$(` and `${`, which read on differently.
use postgresbuild.Prelude.{ℕ, ◌==◌, ◌||◌, Option, none, some, List, [], ◌∷◌, ◌++◌, if◌then◌else◌}
use postgresbuild.Prelude.Text.{Text}
use postgresbuild.Packaging.{quote_mark, double_mark, is_safe}

-- Between words, in a word, in the two kinds of quotes, after a `$` and after a backslash.
pub data Mode : Type 0 where
  gap bare single double dollar escape stuck : Mode

abbrev pub unquoted : ℕ → Mode
unquoted c =
    if c == quote_mark
    then single
    else if c == double_mark
    then double
    else if c == b' '
    then gap
    else if is_safe c
    then bare
    else stuck

abbrev pub quoted : ℕ → Mode
quoted c =
    if c == double_mark
    then bare
    else if c == b'\\'
    then escape
    else if c == b'`'
    then stuck
    else if c == b'$'
    then dollar
    else double

unfoldable pub next : Mode → ℕ → Mode
unfolding is_safe
next gap c = unquoted c
next bare c = unquoted c
next single c = if c == quote_mark then bare else single
next double c = quoted c
next dollar c = if c == b'(' || c == b'{' then stuck else quoted c
next escape c = double
next stuck c = stuck

-- What a character adds to its word.
unfoldable pub out : Mode → ℕ → Text
unfolding is_safe
out gap c = if is_safe c then c ∷ [] else []
out bare c = if is_safe c then c ∷ [] else []
out single c = if c == quote_mark then [] else c ∷ []
out double c = if c == double_mark || c == b'\\' then [] else c ∷ []
out dollar c = if c == double_mark || c == b'\\' then [] else c ∷ []
out escape c =
    if c == b'$' || (c == b'`' || (c == double_mark || c == b'\\'))
    then c ∷ []
    else if c == 10
    then []
    else b'\\' ∷ c ∷ []
out stuck c = []

abbrev pub Read : Type 0
Read = Option (Text × List Text)

-- Text before the rest of the present word.
abbrev pub prepend : Text → Read → Read
prepend t none = none
prepend t (some (word, words)) = some (t ++ word, words)

-- The present word as the first of the words that follow.
abbrev pub begin : Read → Read
begin none = none
begin (some (word, words)) = some ([], word ∷ words)

abbrev pub emit : Mode → ℕ → Read → Read
emit gap c r = if c == b' ' then r else begin (prepend (out gap c) r)
emit m c r = prepend (out m c) r

abbrev pub at_end : Mode → Read
at_end gap = some ([], [])
at_end bare = some ([], [])
at_end _ = none

-- The rest of the present word, and the words after it.
unfoldable pub read : Mode → Text → Read
unfolding next out
read stuck s = none
read m [] = at_end m
read m (c ∷ s) = emit m c (read (next m c) s)

-- `sh`'s words of a line.
abbrev pub words_of : Text → Option (List Text)
words_of s = elim (read gap s) [ none ↦ none | some (word, words) ↦ some words ]
