-- ===== src/Tests/Packages.antt =====
-- Manifest lines and options of a small suite.
use postgresbuild.Prelude.{
  ◌≡◌, refl, true, false, all, none, some, List, [], ◌∷◌, ok, guard, expect, traverse, ◌>>=◌, ◌>>◌,
}
use postgresbuild.Prelude.Text.{
  Text, codes, is, text_eq, texts_eq, text_in, contains_text, after_prefix, joined,
}
use postgresbuild.Publication.Policy.{split_slash}
use postgresbuild.Paths.{PurePath, path, as_posix, last_part, after_parts, relative_to, ends_in}
use postgresbuild.Packaging.{is_safe, replace_char, shlex_quote, manifest_word, run_line}
use postgresbuild.Packaging.Words.{words_of}
use postgresbuild.Packaging.Quotes.{is_plain}
use postgresbuild.Packaging.Manifest.{run_line-words}
use postgresbuild.Packaging.Options.{
  World, file, partition_equals, awaits, is_regress_library, option_word, option_words,
  suite_options,
}
use postgresbuild.Packaging.Portable.{ArePortable, suite_options-ArePortable}

abbrev arguments : List Text
arguments = codes "--inputdir=$test_root/a \"b\"" ∷ codes "it's" ∷ codes "plain" ∷ []

abbrev line : Text
line = codes "run pg_regress \"--inputdir=$test_root/a \\\"b\\\"\" 'it'\"'\"'s' plain"

written : run_line (codes "pg_regress") arguments ≡ ok line
unfolding run_line manifest_word shlex_quote is_safe replace_char joined traverse guard ◌>>=◌ ◌>>◌
written = refl

driver-Safe : all is_safe (codes "pg_regress") ≡ true
unfolding is_safe
driver-Safe = refl

arguments-Plain : all (is_plain false) arguments ≡ true
unfolding is_plain
arguments-Plain = refl

run_line-words_example : words_of line ≡ some (codes "run" ∷ codes "pg_regress" ∷ arguments)
run_line-words_example =
    run_line-words (codes "pg_regress") arguments refl driver-Safe arguments-Plain written

abbrev world : World
world = record {
  make_value = λ directory variable. ok [];
  split = λ s. ok (codes "--temp-config" ∷ s ∷ codes "--dlpath=x" ∷ codes "--user=u" ∷ []);
  int = λ s. none;
  resolve = λ p. p;
  is_file = λ p. true;
  is_dir = λ p. true;
  glob = λ p s. [];
  read_text = λ p. ok [];
  lines = λ s. s ∷ [];
  words = λ s. s ∷ [];
}

abbrev at : Text → PurePath
at name = record { absolute = true; parts = name ∷ [] }

abbrev suite : PurePath
suite = record { absolute = true; parts = codes "out" ∷ codes "s" ∷ [] }

abbrev config : PurePath
config = record { absolute = true; parts = codes "build" ∷ codes "a.conf" ∷ [] }

abbrev copied : PurePath
copied = record { absolute = true; parts = codes "out" ∷ codes "s" ∷ codes "a.conf" ∷ [] }

abbrev options : List Text
options =
    codes "--temp-config=$test_root/s/a.conf"
    ∷ codes "--dlpath=$pgroot/lib/postgresql"
    ∷ codes "--user=u"
    ∷ []

given :
    suite_options world suite
      (at (codes "out"))
      (at (codes "src"))
      (at (codes "build"))
      (codes "a.conf")
    ≡ ok (file config copied ∷ [], options)
unfolding suite_options option_words option_word awaits partition_equals is_regress_library ends_in
    texts_eq text_eq is text_in path split_slash relative_to after_parts as_posix last_part
    contains_text after_prefix guard expect ◌>>=◌ ◌>>◌
given = refl

suite_options-ArePortable_example :
    ArePortable world suite
      (at (codes "out"))
      (at (codes "src"))
      (at (codes "build"))
      (file config copied ∷ [])
      options
suite_options-ArePortable_example =
    suite_options-ArePortable world suite (at (codes "out")) (at (codes "src")) (at (codes "build"))
      (codes "a.conf") given
