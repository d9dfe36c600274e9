-- ===== src/Packaging/Package.antt =====
-- src/postgresbuild/postgresql/helpers/package-tests.py: `install_ecpg`, the manifest that
-- `write_runner` writes, and `package`. Whether the files that were copied name the build machine is
-- a parameter, as are the libraries and catalogs.
use postgresbuild.Prelude.{
  ℕ, Bool, not, is_nil, none, some, List, [], ◌∷◌, ◌++◌, if◌then◌else◌, Result, ok, guard, ◌>>=◌,
  ◌>>◌, Exn, runtime_error,
}
use postgresbuild.Prelude.Text.{Text, codes, after_prefix, contains_text}
use postgresbuild.Paths.{PurePath, path, join, as_posix}
use postgresbuild.Packaging.{raise_value, run_line}
use postgresbuild.Packaging.Options.{World, Copy, file, tree, generated, suite_path, suite_options}
use postgresbuild.Packaging.Suites.{
  Output, less, concat_map, postgresql_major, source_dir, suite_directories, install_suites,
}

-- `"\n".join(lines) + "\n"`
unfoldable pub manifest : List Text → Text
manifest [] = codes "\n"
manifest (l ∷ []) = l ++ codes "\n"
manifest (l ∷ m ∷ ls) = l ++ codes "\n" ++ manifest (m ∷ ls)

abbrev no_suites : Exn
no_suites = record {
  class = runtime_error;
  message = codes "no PostgreSQL test suites were packaged";
}

module _ (world : World) (source build destination : PurePath) where
  abbrev pub ecpg : Text
  ecpg = codes "src/interfaces/ecpg/test"

  -- The tests that a line of the schedule names.
  abbrev pub tests_of : Text → List Text
  tests_of line = elim (after_prefix (codes "test:") line) [
    | none ↦ []
    | some rest ↦ world.words rest
  ]

  abbrev pub test_copies : PurePath → PurePath → Text → List Copy
  test_copies suite_build suite_root test =
      file (join suite_build (path test)) (join suite_root (path test))
      ∷ generated (join suite_build (path (test ++ codes ".c")))
          (join suite_root (path (test ++ codes ".c")))
      ∷ []

  -- From PostgreSQL 16 on the suite writes into the work directory.
  abbrev pub ecpg_arguments : Text → Bool → List Text → List Text
  ecpg_arguments suite early options =
      (codes "--inputdir=$test_root/suites/" ++ suite)
      ∷ ((if early
            then (codes "--outputdir=$test_root/suites/" ++ suite) ∷ []
            else (codes "--expecteddir=$test_root/suites/" ++ suite)
              ∷ (codes "--outputdir=$work/" ++ suite)
              ∷ [])
          ++ codes "--bindir=$pgroot/bin"
            ∷ (options
                ++ (codes "--schedule=$test_root/suites/" ++ suite ++ codes "/ecpg_schedule") ∷ []))

  -- `install_ecpg`
  unfoldable pub install_ecpg : Result Output
  unfolding source_dir suite_path path as_posix after_prefix suite_options postgresql_major run_line
  install_ecpg = do
    suite_source ← source_dir world source build ecpg
    let suite_build = join build (path ecpg)
    relative ← suite_path ecpg
    let suite_root = join (join destination (path (codes "suites"))) relative
    schedule ← world.read_text (join suite_source (path (codes "ecpg_schedule")))
    let tests = concat_map tests_of (world.lines schedule)
    raw ← world.make_value ecpg (codes "REGRESS_OPTS")
    (copies, options) ← suite_options world suite_root destination source build raw
    major ← postgresql_major world ecpg
    line ←
        run_line (codes "pg_regress_ecpg")
          (ecpg_arguments (as_posix relative) (less major 16) options)
    let expected = path (codes "expected")
    let schedule_path = path (codes "ecpg_schedule")
    ok (
      (if world.is_dir (join suite_source expected)
            then tree (join suite_source expected) (join suite_root expected) ∷ []
            else [])
          ++ (file (join suite_source schedule_path) (join suite_root schedule_path)
              ∷ (concat_map (test_copies suite_build suite_root) tests ++ copies)),
      line ∷ [],
    )

  abbrev pub names_root : List Text → PurePath → Bool
  names_root lines root = contains_text (as_posix (world.resolve root)) (manifest lines)

  -- `package` from its lines on: `write_runner` and the checks of what was written.
  unfoldable pub finish : (List Copy → Result (Unit {0})) → Output → Result Output
  unfolding contains_text manifest as_posix
  finish validate_payload_paths (copies, lines) = do
    guard (not (is_nil lines)) no_suites
    guard (not (names_root lines source)) (raise_value "test manifest contains build-machine path")
    guard (not (names_root lines build)) (raise_value "test manifest contains build-machine path")
    validate_payload_paths copies
    ok (copies, lines)

  -- `package`, after the programs and libraries are copied.
  unfoldable pub package_tests : ℕ → (List Copy → Result (Unit {0})) → Result Output
  unfolding suite_directories install_suites install_ecpg finish
  package_tests fuel validate_payload_paths = do
    directories ← suite_directories world source build fuel
    suites ← install_suites world source build destination directories
    last ← install_ecpg
    finish validate_payload_paths (suites.0 ++ last.0, suites.1 ++ last.1)
