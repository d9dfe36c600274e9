-- ===== src/Packaging/Options.antt =====
-- src/postgresbuild/postgresql/helpers/package-tests.py: `suite_path` and `suite_options`. `make`,
-- `shlex.split`, `int` and the file system are parameters; what is copied is listed.
use postgresbuild.Prelude.{
  is_nil, ◌==◌, Bool, false, not, ◌||◌, any, Option, none, some, List, [], ◌∷◌, ◌++◌, if◌then◌else◌,
  Result, ok, err, guard, expect, ◌>>=◌, ◌>>◌,
}
use postgresbuild.Prelude.Text.{Text, codes, is, text_in, texts_eq, contains_text}
use postgresbuild.Prelude.Int.{ℤ}
use postgresbuild.Paths.{
  PurePath, path, join, as_posix, last_part, relative_to, is_relative_to, path_eq, ends_in,
}
use postgresbuild.Packaging.{raise_value}

pub record World : Type 0 where
  -- `make_value`, with the build tree it reads.
  pub make_value : Text → Text → Result Text
  pub split : Text → Result (List Text)
  pub int : Text → Option ℤ
  pub resolve : PurePath → PurePath
  pub is_file : PurePath → Bool
  pub is_dir : PurePath → Bool
  pub glob : PurePath → Text → List PurePath
  pub read_text : PurePath → Result Text
  pub lines : Text → List Text
  pub words : Text → List Text

-- `copy_file` and `copy_tree`; a generated program has its line directives normalised once copied.
pub data Copy : Type 0 where
  file : PurePath → PurePath → Copy
  tree : PurePath → PurePath → Copy
  generated : PurePath → PurePath → Copy

abbrev pub parts_path : List Text → PurePath
parts_path ps = record { absolute = false; parts = ps }

-- `suite_path`
unfoldable pub suite_path : Text → Result PurePath
unfolding path text_in
suite_path directory = do
  let p = path directory
  guard (not (p.absolute || (is_nil p.parts || text_in (codes "..") p.parts)))
      (raise_value "unsafe PostgreSQL test suite path")
  ok p

-- `option.partition("=")`: the name, and the operand where there is the sign.
unfoldable pub partition_equals : Text → Text × Option Text
partition_equals [] = ([], none)
partition_equals (c ∷ s) =
    let rest = partition_equals s in if c == b'=' then ([], some s) else (c ∷ rest.0, rest.1)

abbrev pub with_operand : List Text
with_operand = codes "--dlpath" ∷ codes "--temp-config" ∷ codes "--expecteddir" ∷ []

abbrev pub or_empty : Option Text → Text
or_empty none = []
or_empty (some s) = s

-- The name of an option whose operand is the next word.
unfoldable pub awaits : Text → Option Text
unfolding partition_equals text_in
awaits option =
    let (name, operand) = partition_equals option in
    elim operand [ none ↦ if text_in name with_operand then some name else none | some s ↦ none ]

abbrev pub regress : List Text
regress = codes "src" ∷ codes "test" ∷ codes "regress" ∷ []

module _ (world : World) (suite_root destination source build : PurePath) where
  -- A path that is taken from the build directory where it is relative.
  abbrev pub resolved : Text → PurePath
  resolved operand = world.resolve (join build (path operand))

  unfoldable pub is_regress_library : Text → Bool
  unfolding path ends_in texts_eq
  is_regress_library operand =
      ends_in regress (path operand).parts
      || any (λ root. path_eq (resolved operand) (world.resolve (join root (parts_path regress))))
          (source ∷ build ∷ [])

  abbrev pub is_inside : PurePath → Bool
  is_inside p = any (λ root. is_relative_to p (world.resolve root)) (source ∷ build ∷ [])

  -- `target.relative_to(destination).as_posix()`
  abbrev pub below : PurePath → Result Text
  below target = do
    ps ← expect (relative_to target destination) (raise_value "is not in the subpath of")
    ok (as_posix (parts_path ps))

  -- An option, with what is copied for it.
  unfoldable pub option_word : Text → Text → Text → Result (List Copy × Text)
  unfolding is is_regress_library path relative_to as_posix last_part contains_text
  option_word name operand option =
      if is name "--dlpath"
      then ok (
        [],
        if is_regress_library operand
            then codes "--dlpath=$test_root/lib"
            else codes "--dlpath=$pgroot/lib/postgresql",
      )
      else if is name "--temp-config"
      then (do
        let config = resolved operand
        guard (is_inside config) (raise_value "test configuration escapes PostgreSQL source/build")
        let target = join suite_root (parts_path (last_part config.parts ∷ []))
        relative ← below target
        ok (file config target ∷ [], codes "--temp-config=$test_root/" ++ relative))
      else if is name "--expecteddir"
      then (do relative ← below suite_root; ok ([], codes "--expecteddir=$test_root/" ++ relative))
      else (do
        guard
            (not (
              contains_text (as_posix (world.resolve source)) option
              || contains_text (as_posix (world.resolve build)) option))
            (raise_value "test option contains build-machine path")
        ok ([], option))

  -- The loop over the words; the first argument is an option that waits for its operand.
  unfoldable pub option_words : Option Text → List Text → Result (List Copy × List Text)
  unfolding awaits option_word partition_equals
  option_words none [] = ok ([], [])
  option_words (some name) [] = err (raise_value "missing operand for test option")
  option_words (some name) (operand ∷ words) = do
    first ← option_word name operand name
    rest ← option_words none words
    ok (first.0 ++ rest.0, first.1 ∷ rest.1)
  option_words none (option ∷ words) = elim (awaits option) [
    | some name ↦ option_words (some name) words
    | none ↦ do
      first ← option_word (partition_equals option).0 (or_empty (partition_equals option).1) option
      rest ← option_words none words
      ok (first.0 ++ rest.0, first.1 ∷ rest.1)
  ]

  -- `suite_options`
  unfoldable pub suite_options : Text → Result (List Copy × List Text)
  unfolding option_words
  suite_options raw = do words ← world.split raw; option_words none words
