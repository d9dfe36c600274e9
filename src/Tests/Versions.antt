-- ===== src/Tests/Versions.antt =====
-- Release numbers.
use postgresbuild.Prelude.{◌≡◌, refl, some, none, ok, ◌>>=◌}
use postgresbuild.Prelude.Text.{codes}
use postgresbuild.Version.{version_key, postgres_semver}
use postgresbuild.Version.Grammar.{
  Release, minor, whole, beta, rc, spell, key_of, version_key-spell, version_key-eq-ok,
}
use postgresbuild.Version.Precedence.{
  key_le, precedence_le, semver_of, key_le-eq-precedence_le, semver_text_inj,
}

abbrev stable : Release
stable = record { major = 18; minors = minor 4; pre = none }

abbrev candidate : Release
candidate = record { major = 19; minors = whole; pre = some (rc, 1) }

abbrev early : Release
early = record { major = 19; minors = whole; pre = some (beta, 2) }

semver-stable : postgres_semver (codes "18.4") ≡ ok (codes "18.4.0")
unfolding postgres_semver ◌>>=◌
semver-stable = refl

semver-candidate : postgres_semver (codes "19rc1") ≡ ok (codes "19.0.0-rc.1")
unfolding postgres_semver ◌>>=◌
semver-candidate = refl

version_key-spell_example : version_key (spell candidate) ≡ ok (key_of candidate)
version_key-spell_example = version_key-spell candidate

version_key-eq-ok_example :
    (v : Release) × (codes "19rc1" ≡ spell v) × (key_of v ≡ key_of candidate)
version_key-eq-ok_example =
    version_key-eq-ok (codes "19rc1") (key_of candidate) (unfold version_key in refl)

candidate-read : version_key (codes "19rc1") ≡ ok (key_of candidate)
unfolding version_key
candidate-read = refl

early-read : version_key (codes "19beta2") ≡ ok (key_of early)
unfolding version_key
early-read = refl

key_le-eq-precedence_le_example :
    (v w : Release) × (codes "19rc1" ≡ spell v)
    × (codes "19beta2" ≡ spell w)
    × (key_le (key_of candidate) (key_of early) ≡ precedence_le (semver_of v) (semver_of w))
key_le-eq-precedence_le_example =
    key_le-eq-precedence_le (codes "19rc1") (codes "19beta2") (key_of candidate) (key_of early)
      candidate-read early-read

semver_text_inj_example : key_of candidate ≡ key_of candidate
semver_text_inj_example = semver_text_inj candidate candidate refl
