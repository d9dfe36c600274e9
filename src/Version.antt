-- ===== src/Version.antt =====
-- src/postgresbuild/publication.py: `_postgres_version_key` and `_postgres_semver`, the reading of a
-- PostgreSQL release number and its public SemVer form.
pub mod Grammar
pub mod Precedence
use postgresbuild.Prelude.{
  ℕ, zero, suc, ◌≡◌, refl, Bool, true, false, Option, none, some, List, [], ◌∷◌, ◌++◌, ◌==◌, ltb,
  if◌then◌else◌, Result, ok, err, ◌>>=◌, Exn, ExnClass, value_error, map, Option-cases, inl, inr,
}
use postgresbuild.Prelude.Text.{Text, codes, after_prefix}
use postgresbuild.Prelude.Decimal.{number, show}

-- `((major, minor, patch), phase_order, phase_number)`
pub record VersionKey : Type 0 where
  pub major : ℕ
  pub minor : ℕ
  pub patch : ℕ
  pub phase_order : ℕ
  pub phase_number : ℕ

abbrev bad_version : Exn
bad_version = record {
  class = value_error;
  message = codes "index contains an invalid PostgreSQL version";
}

-- `(?:\.{number}){0,n}`, the longest match. Where a dot is followed by no number, the dot stays, and
-- nothing that may follow matches it.
unfoldable pub dotted : ℕ → Text → List ℕ × Text
unfolding number
dotted zero s = ([], s)
dotted (suc n) [] = ([], [])
dotted (suc n) (c ∷ s) =
    let given : List ℕ × Text = elim (number s) [
      | none ↦ ([], c ∷ s)
      | some (a, r) ↦ let (rest, r') = dotted n r in (a ∷ rest, r')
    ] in
    if c == b'.' then given else ([], c ∷ s)

-- `(?:(alpha|beta|rc)({number}))?` up to the end of the text: the order and number of the phase.
phase_of : ℕ → Text → Option (ℕ × ℕ)
unfolding number
phase_of order s = elim (number s) [ some (n, []) ↦ some (order, n) | _ ↦ none ]

abbrev first_of_two {ℓ} : {A : Type ℓ} → Option A → Option A → Option A
first_of_two none b = b
first_of_two (some a) b = some a

-- `phase_order` is 3 for a stable release, which has no phase.
unfoldable pub phase : Text → Option (ℕ × ℕ)
unfolding after_prefix phase_of
phase [] = some (3, 0)
phase (c ∷ s) =
    let t = c ∷ s in
    elim (after_prefix (codes "alpha") t) [
      | some r ↦ phase_of 0 r
      | none ↦ elim (after_prefix (codes "beta") t) [
        | some r ↦ phase_of 1 r
        | none ↦ elim (after_prefix (codes "rc") t) [ some r ↦ phase_of 2 r | none ↦ none ]
      ]
    ]

-- `components.extend([0] * (3 - len(components)))`
abbrev key_with : ℕ → List ℕ → ℕ × ℕ → VersionKey
key_with a [] p = record { major = a; minor = 0; patch = 0; phase_order = p.0; phase_number = p.1 }
key_with a (b ∷ []) p = record {
  major = a;
  minor = b;
  patch = 0;
  phase_order = p.0;
  phase_number = p.1;
}
key_with a (b ∷ c ∷ l) p = record {
  major = a;
  minor = b;
  patch = c;
  phase_order = p.0;
  phase_number = p.1;
}

abbrev finish_key : ℕ → List ℕ → Option (ℕ × ℕ) → Result VersionKey
finish_key a l none = err bad_version
finish_key a l (some p) = ok (key_with a l p)

-- `_postgres_version_key`
unfoldable pub version_key : Text → Result VersionKey
unfolding number dotted phase
version_key s = elim (number s) [
  | none ↦ err bad_version
  | some (a, r) ↦ let (l, r') = dotted 2 r in finish_key a l (phase r')
]

-- `("alpha", "beta", "rc")[phase_order]`
abbrev pub phase_name : ℕ → Text
phase_name zero = codes "alpha"
phase_name (suc zero) = codes "beta"
phase_name _ = codes "rc"

abbrev pub semver_text : VersionKey → Text
semver_text k =
    let core = show k.major ++ codes "." ++ show k.minor ++ codes "." ++ show k.patch in
    if ltb k.phase_order 3
    then core ++ codes "-" ++ phase_name k.phase_order ++ codes "." ++ show k.phase_number
    else core

-- `_postgres_semver`
unfoldable pub postgres_semver : Text → Result Text
unfolding version_key show
postgres_semver s = do k ← version_key s; ok (semver_text k)
