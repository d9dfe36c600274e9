-- ===== src/Version/Grammar.antt =====
-- The release numbers that `_postgres_version_key` accepts, and the key of each. The parser is the
-- child's subject; the grammar is written down on its own, as data with a spelling.
use mathlib.Core.Path.{ap₂}
use mathlib.Core.List.{append_assoc, append-nil}
use postgresbuild.Prelude.{
  ℕ, zero, suc, ◌≡◌, refl, sym, ap, ◌∙◌, Option, none, some, List, [], ◌∷◌, ◌++◌, ◌==◌, ok, arith,
  ◌⊎◌, inl, inr, Bool-cases, Option-cases,
}
use postgresbuild.Prelude.Text.{Text, codes, after_prefix, after_prefix-eq}
use postgresbuild.Prelude.Decimal.{number, show, NoDigit, number-show, number-show_end, number-eq}
use postgresbuild.Version.{VersionKey, dotted, phase, phase_of, key_with, version_key}

pub data Phase : Type 0 where
  alpha beta rc : Phase

-- `18`, `18.4` and `9.6.24`; a phase with its number follows in a prerelease.
pub data Minors : Type 0 where
  whole : Minors
  minor : ℕ → Minors
  patched : ℕ → ℕ → Minors

pub record Release : Type 0 where
  pub major : ℕ
  pub minors : Minors
  pub pre : Option (Phase × ℕ)

abbrev pub phase_word : Phase → Text
phase_word alpha = codes "alpha"
phase_word beta = codes "beta"
phase_word rc = codes "rc"

abbrev pub phase_rank : Phase → ℕ
phase_rank alpha = 0
phase_rank beta = 1
phase_rank rc = 2

abbrev pub spell_pre : Option (Phase × ℕ) → Text
spell_pre none = []
spell_pre (some (p, n)) = phase_word p ++ show n

abbrev pub spell_minors : Minors → Text
spell_minors whole = []
spell_minors (minor b) = b'.' ∷ show b
spell_minors (patched b c) = b'.' ∷ show b ++ b'.' ∷ show c

abbrev pub spell : Release → Text
spell v = show v.major ++ (spell_minors v.minors ++ spell_pre v.pre)

abbrev pub minor_list : Minors → List ℕ
minor_list whole = []
minor_list (minor b) = b ∷ []
minor_list (patched b c) = b ∷ c ∷ []

abbrev pub pre_key : Option (Phase × ℕ) → ℕ × ℕ
pre_key none = (3, 0)
pre_key (some (p, n)) = (phase_rank p, n)

abbrev pub key_of : Release → VersionKey
key_of v = key_with v.major (minor_list v.minors) (pre_key v.pre)

NoDigit-pre : (p : Option (Phase × ℕ)) → NoDigit (spell_pre p)
NoDigit-pre none = tt
NoDigit-pre (some (alpha, n)) = refl
NoDigit-pre (some (beta, n)) = refl
NoDigit-pre (some (rc, n)) = refl

phase_of-show : (k n : ℕ) → phase_of k (show n) ≡ some (k, n)
unfolding phase_of
phase_of-show k n = rw (number-show_end n, phase_of)

phase-spell_pre : (p : Option (Phase × ℕ)) → phase (spell_pre p) ≡ some (pre_key p)
unfolding phase
phase-spell_pre none = refl
phase-spell_pre (some (alpha, n)) = phase_of-show 0 n
phase-spell_pre (some (beta, n)) = phase_of-show 1 n
phase-spell_pre (some (rc, n)) = phase_of-show 2 n

dotted-dot :
    (k b : ℕ) (s : Text)
    → NoDigit s
    → dotted (suc k) (b'.' ∷ show b ++ s) ≡ (b ∷ (dotted k s).0, (dotted k s).1)
unfolding dotted
dotted-dot k b s h = rw (number-show b s h)

dotted-pre : (k : ℕ) (p : Option (Phase × ℕ)) → dotted k (spell_pre p) ≡ ([], spell_pre p)
unfolding dotted
dotted-pre zero p = refl
dotted-pre (suc k) none = refl
dotted-pre (suc k) (some (alpha, n)) = refl
dotted-pre (suc k) (some (beta, n)) = refl
dotted-pre (suc k) (some (rc, n)) = refl

dotted-spell :
    (m : Minors) (p : Option (Phase × ℕ))
    → dotted 2 (spell_minors m ++ spell_pre p) ≡ (minor_list m, spell_pre p)
dotted-spell whole p = dotted-pre 2 p
dotted-spell (minor b) p = rw (dotted-dot 1 b (spell_pre p) (NoDigit-pre p), dotted-pre 1 p)
dotted-spell (patched b c) p = rw (
  append_assoc (show b) (b'.' ∷ show c) (spell_pre p),
  dotted-dot 1 b (b'.' ∷ show c ++ spell_pre p) refl,
  dotted-dot 0 c (spell_pre p) (NoDigit-pre p),
  dotted-pre 0 p,
)

NoDigit-rest : (m : Minors) (p : Option (Phase × ℕ)) → NoDigit (spell_minors m ++ spell_pre p)
NoDigit-rest whole p = NoDigit-pre p
NoDigit-rest (minor b) p = refl
NoDigit-rest (patched b c) p = refl

-- Every release number of the grammar is accepted, with its key.
pub version_key-spell : (v : Release) → version_key (spell v) ≡ ok (key_of v)
unfolding version_key
version_key-spell v = rw (
  version_key,
  number-show v.major (spell_minors v.minors ++ spell_pre v.pre) (NoDigit-rest v.minors v.pre),
  dotted-spell v.minors v.pre,
  phase-spell_pre v.pre,
)

phase_of-eq : (k : ℕ) (s : Text) {o : ℕ × ℕ} → phase_of k s ≡ some o → (s ≡ show o.1) × (o.0 ≡ k)
unfolding phase_of
phase_of-eq k s {o} h = elim (Option-cases (number s)) [
  | inl e ↦ absurd (ground arith)
  | inr ((n, []), e) ↦ (number-eq s e ∙ append-nil (show n) ∙ ap show (ground arith), ground arith)
  | inr ((n, c ∷ r), e) ↦ absurd (ground arith)
]

abbrev IsPhase : Text → ℕ × ℕ → Type 0
IsPhase s o = (p : Option (Phase × ℕ)) × (s ≡ spell_pre p) × (pre_key p ≡ o)

word-IsPhase :
    (q : Phase) (s r : Text) (o : ℕ × ℕ)
    → after_prefix (phase_word q) s ≡ some r
    → phase_of (phase_rank q) r ≡ some o
    → IsPhase s o
word-IsPhase q s r o e h =
    let (t, k) = phase_of-eq (phase_rank q) r h in
    (
      some (q, o.1),
      after_prefix-eq (phase_word q) s e ∙ ap (λ u. phase_word q ++ u) t,
      λ i. (sym k i, o.1),
    )

phase-IsPhase : (s : Text) (o : ℕ × ℕ) → phase s ≡ some o → IsPhase s o
unfolding phase
phase-IsPhase [] o h = (none, refl, cc)
phase-IsPhase (c ∷ s) o h = elim (Option-cases (after_prefix (codes "alpha") (c ∷ s))) [
  | inr (r, e) ↦ word-IsPhase alpha (c ∷ s) r o e (ground arith)
  | inl na ↦ elim (Option-cases (after_prefix (codes "beta") (c ∷ s))) [
    | inr (r, e) ↦ word-IsPhase beta (c ∷ s) r o e (ground arith)
    | inl nb ↦ elim (Option-cases (after_prefix (codes "rc") (c ∷ s))) [
      | inr (r, e) ↦ word-IsPhase rc (c ∷ s) r o e (ground arith)
      | inl nc ↦ absurd (ground arith)
    ]
  ]
]

abbrev IsDotted : Text → List ℕ → Text → Type 0
IsDotted s l r = (m : Minors) × (minor_list m ≡ l) × (s ≡ spell_minors m ++ r)

dotted-one :
    (k : ℕ) (s : Text)
    → (dotted (suc k) s ≡ ([], s))
      ⊎ ((b : ℕ) × (t : Text) × (s ≡ b'.' ∷ show b ++ t)
          × (dotted (suc k) s ≡ (b ∷ (dotted k t).0, (dotted k t).1)))
unfolding dotted
dotted-one k [] = inl refl
dotted-one k (c ∷ s) = elim (Bool-cases (c == b'.')) [
  | inr e ↦ inl (rw e)
  | inl e ↦ elim (Option-cases (number s)) [
    | inl n ↦ inl (rw (e, n))
    | inr ((b, t), n) ↦
        let dot : c ≡ b'.' = ground arith in inr (b, t, rw (dot, number-eq s n), rw (e, n))
  ]
]

dotted-IsDotted : (s : Text) → IsDotted s (dotted 2 s).0 (dotted 2 s).1
dotted-IsDotted s = elim (dotted-one 1 s) [
  | inl e ↦ (whole, rw e, rw e)
  | inr (b, t, es, e) ↦ elim (dotted-one 0 t) [
    | inl f ↦ (minor b, rw (e, f), rw (e, f, es))
    | inr (c, u, et, f) ↦ (
      patched b c,
      rw (e, f, last u),
      rw (e, f, last u, es, et) (ap (◌∷◌ b'.') (sym (append_assoc (show b) (b'.' ∷ show c) u))),
    )
  ]
]
  where
    last : (u : Text) → dotted 0 u ≡ ([], u)
    last u = unfold dotted in refl

-- What is accepted is a release number of the grammar, and the key is the one that belongs to it.
pub version_key-eq-ok :
    (s : Text) (k : VersionKey)
    → version_key s ≡ ok k
    → (v : Release) × (s ≡ spell v) × (key_of v ≡ k)
unfolding version_key
version_key-eq-ok s k h = elim (Option-cases (number s)) [
  | inl e ↦ absurd (ground arith)
  | inr ((a, r), e) ↦
      let (m, em, er) = dotted-IsDotted r in
      elim (Option-cases (phase (dotted 2 r).1)) [
        | inl f ↦ absurd (ground arith)
        | inr (o, f) ↦
            let (p, ep, eo) = phase-IsPhase (dotted 2 r).1 o f in
            (
              record { major = a; minors = m; pre = p },
              number-eq s e ∙ ap (λ u. show a ++ u) (er ∙ ap (λ u. spell_minors m ++ u) ep),
              ap₂ (key_with a) em eo ∙ ground arith,
            )
      ]
]
