-- ===== src/Packaging/Suites.antt =====
-- src/postgresbuild/postgresql/helpers/package-tests.py: `install_suite`, `suite_directories` and the
-- lines that `package` collects from them.
use postgresbuild.Prelude.{
  ℕ, zero, suc, ltb, Bool, true, false, not, ◌||◌, List, [], ◌∷◌, ◌++◌, if◌then◌else◌, Result, ok,
  err, guard, expect, ◌>>=◌, ◌>>◌, Exn, ExnClass,
}
use postgresbuild.Prelude.Text.{Text, codes, is, is_empty}
use postgresbuild.Prelude.Int.{ℤ, pos, negsuc}
use postgresbuild.Paths.{PurePath, path, join, as_posix, last_part, relative_to, is_relative_to}
use postgresbuild.Packaging.{raise_value, run_line}
use postgresbuild.Packaging.Options.{World, Copy, file, tree, parts_path, suite_path, suite_options}

-- Copies that are made and lines that are written.
abbrev pub Output : Type 0
Output = List Copy × List Text

abbrev pub less : ℤ → ℕ → Bool
less (pos n) k = ltb n k
less (negsuc n) k = true

abbrev pub concat_map {ℓ κ} : {A : Type ℓ} {B : Type κ} → (A → List B) → List A → List B
concat_map f [] = []
concat_map f (x ∷ xs) = f x ++ concat_map f xs

module _ (world : World) where
  -- `postgresql_major`
  unfoldable pub postgresql_major : Text → Result ℤ
  postgresql_major directory = do
    value ← world.make_value directory (codes "MAJORVERSION")
    expect (world.int value) (raise_value "invalid PostgreSQL major version")

  -- `configured_subdirectories`
  unfoldable pub configured_subdirectories : Text → Result (List Text)
  configured_subdirectories directory = do
    value ← world.make_value directory (codes "SUBDIRS")
    world.split value

  module _ (source build : PurePath) where
    -- `source_dir`
    unfoldable pub source_dir : Text → Result PurePath
    unfolding path relative_to
    source_dir directory = do
      configured ← world.make_value directory (codes "srcdir")
      let p = world.resolve (join (join build (path directory)) (path configured))
      guard (is_relative_to p (world.resolve source))
          (raise_value "suite source escapes PostgreSQL source")
      ok p

    abbrev pub out_of_fuel : Exn
    out_of_fuel = record { class = ExnClass.other; message = [] }

    abbrev pub child_of : Text → Text → Text
    child_of directory name = directory ++ codes "/" ++ name

    -- The loop of `add_configured`, with the function that it calls.
    unfoldable pub add_children :
        (Text → Result (List Text)) → Text → List Text → Result (List Text)
    unfolding path
    add_children add directory [] = ok []
    add_children add directory (name ∷ names) = do
      below ←
          elim (world.is_file
            (join (join build (path (child_of directory name))) (path (codes "Makefile")))) [
              | true ↦ add (child_of directory name)
              | false ↦ ok []
            ]
      rest ← add_children add directory names
      ok (child_of directory name ∷ below ++ rest)

    -- `add_configured`, to a depth of the fuel.
    unfoldable pub add_configured : ℕ → Text → Result (List Text)
    unfolding configured_subdirectories add_children
    add_configured zero directory = err out_of_fuel
    add_configured (suc fuel) directory = do
      names ← configured_subdirectories directory
      add_children (add_configured fuel) directory names

    -- `suite_directories`
    unfoldable pub suite_directories : ℕ → Result (List Text)
    unfolding add_configured
    suite_directories fuel = do
      languages ← add_configured fuel (codes "src/pl")
      extensions ← add_configured fuel (codes "contrib")
      ok (codes "src/test/regress" ∷ codes "src/test/isolation" ∷ (languages ++ extensions))

    module _ (destination : PurePath) (directory : Text) where
      -- The trees and files that a suite needs beside its programs.
      abbrev pub suite_data : List Text
      suite_data =
          codes "sql"
          ∷ codes "expected"
          ∷ codes "data"
          ∷ codes "specs"
          ∷ codes "input"
          ∷ codes "output"
          ∷ []

      abbrev pub suite_patterns : List Text
      suite_patterns = codes "*.conf" ∷ codes "*_schedule" ∷ codes "resultmap" ∷ []

      abbrev pub copy_tree : PurePath → PurePath → List Copy
      copy_tree p q = if world.is_dir p then tree p q ∷ [] else []

      abbrev pub copy_file : PurePath → PurePath → List Copy
      copy_file suite_root p =
          if world.is_file p
          then file p (join suite_root (parts_path (last_part p.parts ∷ []))) ∷ []
          else []

      unfoldable pub suite_copies : PurePath → PurePath → List Copy
      unfolding path last_part
      suite_copies suite_source suite_root =
          concat_map
            (λ name.
              copy_tree (join suite_source (path name)) (join suite_root (path name))
              ++ copy_tree (join (join build (path directory)) (path name))
                  (join suite_root (path name)))
            suite_data
          ++ concat_map
              (λ pattern.
                concat_map (λ root. concat_map (copy_file suite_root) (world.glob root pattern))
                  (suite_source ∷ join build (path directory) ∷ []))
              suite_patterns

      abbrev pub input_dir : Text → Text
      input_dir suite = codes "--inputdir=$test_root/suites/" ++ suite

      abbrev pub work_dir : Text → Text
      work_dir suite = codes "--outputdir=$work/" ++ suite

      abbrev pub own_dir : Text → Text
      own_dir suite = codes "--outputdir=$test_root/suites/" ++ suite

      abbrev pub bin_dir : Text
      bin_dir = codes "--bindir=$pgroot/bin"

      abbrev pub common : Text → List Text
      common suite = input_dir suite ∷ work_dir suite ∷ bin_dir ∷ []

      -- The arguments of the core suite; before PostgreSQL 15 it writes beside its input.
      abbrev pub regress_arguments : Text → ℤ → List Text
      regress_arguments suite major =
          input_dir suite
          ∷ (if less major 15 then own_dir suite else work_dir suite)
          ∷ bin_dir
          ∷ codes "--dlpath=$test_root/lib"
          ∷ codes "--max-concurrent-tests=20"
          ∷ (codes "--schedule=$test_root/suites/" ++ suite ++ codes "/parallel_schedule")
          ∷ (if less major 15 then codes "--make-testtablespace-dir" ∷ [] else [])

      abbrev pub isolation_arguments : Text → List Text
      isolation_arguments suite =
          common suite
          ++ (codes "--schedule=$test_root/suites/" ++ suite ++ codes "/isolation_schedule") ∷ []

      -- One turn of the loop over the drivers of an extension's suite.
      unfoldable pub driver_line : PurePath → Text → Text → Text → Text → Result Output
      unfolding suite_options run_line
      driver_line suite_root suite driver tests variable = elim (is_empty tests) [
        | true ↦ ok ([], [])
        | false ↦ do
          raw ← world.make_value directory variable
          (copies, options) ← suite_options world suite_root destination source build raw
          names ← world.split tests
          line ← run_line driver (common suite ++ options ++ names)
          ok (copies, line ∷ [])
      ]

      -- The lines of a suite, with what their options copy.
      unfoldable pub suite_lines : PurePath → Text → Text → Text → Result Output
      unfolding is postgresql_major run_line driver_line
      suite_lines suite_root suite regress isolation =
          if is directory "src/test/regress"
          then (do
            major ← postgresql_major directory
            line ← run_line (codes "pg_regress") (regress_arguments suite major)
            ok ([], line ∷ []))
          else if is directory "src/test/isolation"
          then (do
            line ← run_line (codes "pg_isolation_regress") (isolation_arguments suite)
            ok ([], line ∷ []))
          else (do
            first ← driver_line suite_root suite (codes "pg_regress") regress (codes "REGRESS_OPTS")
            second ←
                driver_line suite_root suite (codes "pg_isolation_regress") isolation
                  (codes "ISOLATION_OPTS")
            ok (first.0 ++ second.0, first.1 ++ second.1))

      abbrev pub is_suite : Text → Text → Bool
      is_suite regress isolation =
          not (is_empty regress)
          || (not (is_empty isolation)
              || (is directory "src/test/regress" || is directory "src/test/isolation"))

      -- `install_suite` where the suite may be run.
      unfoldable pub install_tests : Text → Text → Result Output
      unfolding source_dir suite_path as_posix suite_copies suite_lines
      install_tests regress isolation = do
        suite_source ← source_dir directory
        relative ← suite_path directory
        let suite_root = join (join destination (path (codes "suites"))) relative
        (copies, lines) ← suite_lines suite_root (as_posix relative) regress isolation
        ok (suite_copies suite_source suite_root ++ copies, lines)

      -- `install_suite`
      unfoldable pub install_suite : Result Output
      unfolding install_tests is
      install_suite = do
        skipped ← world.make_value directory (codes "NO_INSTALLCHECK")
        elim (is_empty skipped) [
          | false ↦ ok ([], [])
          | true ↦ do
            regress ← world.make_value directory (codes "REGRESS")
            isolation ← world.make_value directory (codes "ISOLATION")
            if is_suite regress isolation then install_tests regress isolation else ok ([], [])
        ]

    -- The loop of `package` over the suites.
    unfoldable pub install_suites : PurePath → List Text → Result Output
    unfolding install_suite
    install_suites destination [] = ok ([], [])
    install_suites destination (directory ∷ directories) = do
      first ← install_suite destination directory
      rest ← install_suites destination directories
      ok (first.0 ++ rest.0, first.1 ++ rest.1)
