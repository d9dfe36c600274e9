-- ===== src/Packaging/Portable.antt =====
-- src/postgresbuild/postgresql/helpers/package-tests.py: the options of a suite hold nothing of the
-- build machine.
use postgresbuild.Prelude.{
  ◌≡◌, sym, subst, Bool, true, false, if_elim, Option, none, some, List, [], ◌∷◌, ◌++◌,
  if◌then◌else◌, Result, ok, ◌>>=◌, ok-eq, in-result, in-check, in-value, arith,
}
use postgresbuild.Prelude.Text.{Text, codes, is, contains_text}
use postgresbuild.Paths.{PurePath, join, as_posix, last_part, relative_to}
use postgresbuild.Packaging.Options.{
  World, Copy, file, parts_path, partition_equals, awaits, or_empty, is_inside, below, option_word,
  option_words, suite_options,
}

module _ (world : World) (suite_root destination source build : PurePath) where
  abbrev pub target_of : PurePath → PurePath
  target_of config = join suite_root (parts_path (last_part config.parts ∷ []))

  -- What may stand among the options, with what is copied for it.
  pub data IsPortable : List Copy → Text → Type 0 where
    own_library : IsPortable [] (codes "--dlpath=$test_root/lib")
    installed_library : IsPortable [] (codes "--dlpath=$pgroot/lib/postgresql")
    configuration :
        {config : PurePath} {ps : List Text}
        → is_inside world suite_root destination source build config ≡ true
        → relative_to (target_of config) destination ≡ some ps
        → IsPortable
            (file config (target_of config) ∷ [])
            (codes "--temp-config=$test_root/" ++ as_posix (parts_path ps))
    expected :
        {ps : List Text}
        → relative_to suite_root destination ≡ some ps
        → IsPortable [] (codes "--expecteddir=$test_root/" ++ as_posix (parts_path ps))
    other :
        {option : Text}
        → contains_text (as_posix (world.resolve source)) option ≡ false
        → contains_text (as_posix (world.resolve build)) option ≡ false
        → IsPortable [] option

  pub data ArePortable : List Copy → List Text → Type 0 where
    none_left : ArePortable [] []
    and_option :
        {copies more : List Copy} {o : Text} {os : List Text}
        → IsPortable copies o
        → ArePortable more os
        → ArePortable (copies ++ more) (o ∷ os)

  abbrev Portable : List Copy × Text → Type 0
  Portable out = IsPortable out.0 out.1

  library :
      (b : Bool)
      → IsPortable []
          (if b then codes "--dlpath=$test_root/lib" else codes "--dlpath=$pgroot/lib/postgresql")
  library true = own_library
  library false = installed_library

  below-eq :
      (target : PurePath) {relative : Text}
      → below world suite_root destination source build target ≡ ok relative
      → (ps : List Text) × (relative_to target destination ≡ some ps)
        × (relative ≡ as_posix (parts_path ps))
  below-eq target h = in-value _ _ _ h (λ ps a h. (ps, a, sym (ok-eq h)))

  configuration-Portable :
      (config : PurePath) {relative : Text} {out : List Copy × Text}
      → is_inside world suite_root destination source build config ≡ true
      → below world suite_root destination source build (target_of config) ≡ ok relative
      → (file config (target_of config) ∷ [], codes "--temp-config=$test_root/" ++ relative) ≡ out
      → Portable out
  configuration-Portable config c e h =
      let (ps, a, q) = below-eq (target_of config) e in
      subst Portable h (
        subst
          (λ r.
            Portable (file config (target_of config) ∷ [], codes "--temp-config=$test_root/" ++ r))
          (sym q) (configuration c a))

  expected-Portable :
      {relative : Text} {out : List Copy × Text}
      → below world suite_root destination source build suite_root ≡ ok relative
      → ([], codes "--expecteddir=$test_root/" ++ relative) ≡ out
      → Portable out
  expected-Portable e h =
      let (ps, a, q) = below-eq suite_root e in
      subst Portable h
        (subst (λ r. Portable ([], codes "--expecteddir=$test_root/" ++ r)) (sym q) (expected a))

  option_word-Portable :
      (name operand o : Text) {out : List Copy × Text}
      → option_word world suite_root destination source build name operand o ≡ ok out
      → Portable out
  unfolding option_word
  option_word-Portable name operand o {out} h =
      if_elim (λ m. m ≡ ok out → Portable out) (is name "--dlpath")
        (λ _ h. subst Portable (ok-eq h) (library _))
        (λ _.
          if_elim (λ m. m ≡ ok out → Portable out) (is name "--temp-config")
            (λ _ h.
              in-check _ _ _ h
                (λ c h. in-result _ _ h (λ r e h. configuration-Portable _ c e (ok-eq h))))
            (λ _.
              if_elim (λ m. m ≡ ok out → Portable out) (is name "--expecteddir")
                (λ _ h. in-result _ _ h (λ r e h. expected-Portable e (ok-eq h)))
                (λ _ h.
                  in-check _ _ _ h
                    (λ c h. subst Portable (ok-eq h) (other (ground arith) (ground arith))))))
        h

  abbrev AllPortable : List Copy × List Text → Type 0
  AllPortable out = ArePortable out.0 out.1

  -- An option and those after it.
  before-rest :
      (first : Result (List Copy × Text)) (rest : Result (List Copy × List Text))
      {out : List Copy × List Text}
      → ((one : List Copy × Text) → first ≡ ok one → Portable one)
      → ((more : List Copy × List Text) → rest ≡ ok more → AllPortable more)
      → (do f ← first; r ← rest; ok (f.0 ++ r.0, f.1 ∷ r.1)) ≡ ok out
      → AllPortable out
  before-rest first rest p q h =
      in-result _ _ h (λ f e h.
        in-result _ _ h (λ r d h. subst AllPortable (ok-eq h) (and_option (p f e) (q r d))))

  -- An option that may wait for its operand.
  after_awaits :
      (o : Text) (words : List Text) {out : List Copy × List Text} (pending : Option Text)
      → ((name : Text)
          → option_words world suite_root destination source build (some name) words ≡ ok out
          → AllPortable out)
      → ((more : List Copy × List Text)
          → option_words world suite_root destination source build none words ≡ ok more
          → AllPortable more)
      → elim pending [
        | some name ↦ option_words world suite_root destination source build (some name) words
        | none ↦ do
          first ←
              option_word world suite_root destination source build
                (partition_equals o).0
                (or_empty (partition_equals o).1)
                o
          rest ← option_words world suite_root destination source build none words
          ok (first.0 ++ rest.0, first.1 ∷ rest.1)
      ]
        ≡ ok out
      → AllPortable out
  after_awaits o words (some name) p q h = p name h
  after_awaits o words none p q h = before-rest _ _ (λ one e. option_word-Portable _ _ o e) q h

  option_words-Portable :
      (pending : Option Text) (words : List Text) {out : List Copy × List Text}
      → option_words world suite_root destination source build pending words ≡ ok out
      → AllPortable out
  unfolding option_words
  option_words-Portable none [] h = subst AllPortable (ok-eq h) none_left
  option_words-Portable (some name) [] h = cc
  option_words-Portable (some name) (operand ∷ words) h =
      before-rest _ _ (λ one e. option_word-Portable name operand name e)
        (λ more d. option_words-Portable none words d) h
  option_words-Portable none (o ∷ words) h =
      after_awaits o words (awaits o) (λ name d. option_words-Portable (some name) words d)
        (λ more d. option_words-Portable none words d) h

  -- The options that `suite_options` returns hold nothing of the build machine. Each is a library
  -- directory of the test tree or of the installation, a configuration that is copied from inside
  -- the source or the build tree to the suite and is named by its place in the test tree, the
  -- suite's own directory, or an option that contains neither the source's nor the build's path;
  -- only the configurations are copied.
  pub suite_options-ArePortable :
      (raw : Text) {copies : List Copy} {options : List Text}
      → suite_options world suite_root destination source build raw ≡ ok (copies, options)
      → ArePortable copies options
  unfolding suite_options
  suite_options-ArePortable raw h =
      in-result _ _ h (λ words e h. option_words-Portable none words h)
