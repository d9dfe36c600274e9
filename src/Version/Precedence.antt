-- ===== src/Version/Precedence.antt =====
-- `_postgres_version_key` orders releases by SemVer precedence, and `_postgres_semver` prints
-- different keys differently. Precedence is stated on its own, from the rules of SemVer.
use mathlib.Core.List.{append_assoc, append-nil, tail-eq_of_cons-eq}
use postgresbuild.Prelude.{
  ℕ, ◌≡◌, refl, sym, ap, ◌∙◌, Bool, true, false, ◌&&◌, ◌||◌, Option, none, some, [], ◌∷◌, ◌++◌,
  ◌==◌, leb, ltb, if◌then◌else◌, arith, drop, ok,
}
use postgresbuild.Prelude.Order.{nat_order, lex}
use postgresbuild.Prelude.Text.{Text, text_order}
use postgresbuild.Prelude.Decimal.{show, show_inj, NoDigit, show_cancel}
use postgresbuild.Version.{VersionKey, version_key, semver_text}
use postgresbuild.Version.Grammar.{
  Phase, alpha, beta, rc, Minors, whole, minor, patched, Release, key_of, pre_key, phase_word,
  spell, version_key-eq-ok,
}

-- Python's order of the key tuples.
unfoldable pub key_le : VersionKey → VersionKey → Bool
unfolding lex
key_le k l =
    lex nat_order (k.major ∷ k.minor ∷ k.patch ∷ k.phase_order ∷ k.phase_number ∷ [])
      (l.major ∷ l.minor ∷ l.patch ∷ l.phase_order ∷ l.phase_number ∷ [])

-- `MAJOR.MINOR.PATCH` and the two identifiers of a prerelease.
pub record Semver : Type 0 where
  pub major : ℕ
  pub minor : ℕ
  pub patch : ℕ
  pub pre : Option (Text × ℕ)

abbrev minors_of : Minors → ℕ × ℕ
minors_of whole = (0, 0)
minors_of (minor b) = (b, 0)
minors_of (patched b c) = (b, c)

abbrev named : Option (Phase × ℕ) → Option (Text × ℕ)
named none = none
named (some (p, n)) = some (phase_word p, n)

abbrev pub semver_of : Release → Semver
semver_of v = record {
  major = v.major;
  minor = (minors_of v.minors).0;
  patch = (minors_of v.minors).1;
  pre = named v.pre;
}

-- Rule 11 of SemVer: a prerelease comes before its release; identifiers with letters are compared
-- by their characters, identifiers of digits as numbers.
unfoldable pub pre_le : Option (Text × ℕ) → Option (Text × ℕ) → Bool
unfolding text_order lex
pre_le none none = true
pre_le none (some q) = false
pre_le (some p) none = true
pre_le (some (s, m)) (some (t, n)) =
    if text_order.le s t then (if text_order.le t s then leb m n else true) else false

unfoldable pub precedence_le : Semver → Semver → Bool
unfolding pre_le
precedence_le a b =
    ltb a.major b.major
    || (a.major == b.major
        && (ltb a.minor b.minor
            || (a.minor == b.minor
                && (ltb a.patch b.patch || (a.patch == b.patch && pre_le a.pre b.pre)))))

abbrev tail_le : ℕ × ℕ → ℕ × ℕ → Bool
tail_le p q =
    if leb p.0 q.0
    then (if leb q.0 p.0
        then (if leb p.1 q.1 then (if leb q.1 p.1 then true else true) else false)
        else true)
    else false

pre_le-eq :
    (p q : Option (Phase × ℕ)) → tail_le (pre_key p) (pre_key q) ≡ pre_le (named p) (named q)
unfolding pre_le
pre_le-eq none none = refl
pre_le-eq none (some (alpha, n)) = refl
pre_le-eq none (some (beta, n)) = refl
pre_le-eq none (some (rc, n)) = refl
pre_le-eq (some (alpha, n)) none = refl
pre_le-eq (some (beta, n)) none = refl
pre_le-eq (some (rc, n)) none = refl
pre_le-eq (some (alpha, m)) (some (alpha, n)) = ground arith
pre_le-eq (some (alpha, m)) (some (beta, n)) = ground arith
pre_le-eq (some (alpha, m)) (some (rc, n)) = ground arith
pre_le-eq (some (beta, m)) (some (alpha, n)) = ground arith
pre_le-eq (some (beta, m)) (some (beta, n)) = ground arith
pre_le-eq (some (beta, m)) (some (rc, n)) = ground arith
pre_le-eq (some (rc, m)) (some (alpha, n)) = ground arith
pre_le-eq (some (rc, m)) (some (beta, n)) = ground arith
pre_le-eq (some (rc, m)) (some (rc, n)) = ground arith

key_parts :
    (v : Release)
    → key_of v ≡ record {
      major = v.major;
      minor = (minors_of v.minors).0;
      patch = (minors_of v.minors).1;
      phase_order = (pre_key v.pre).0;
      phase_number = (pre_key v.pre).1;
    }
key_parts v = go v.minors
  where
    go :
        (m : Minors)
        → key_of (record v { minors = m }) ≡ record {
          major = v.major;
          minor = (minors_of m).0;
          patch = (minors_of m).1;
          phase_order = (pre_key v.pre).0;
          phase_number = (pre_key v.pre).1;
        }
    go whole = refl
    go (minor b) = refl
    go (patched b c) = refl

three_levels :
    (a a' b b' c c' : ℕ) (t : Bool)
    → (if leb a a'
        then (if leb a' a
            then (if leb b b'
                then (if leb b' b
                    then (if leb c c' then (if leb c' c then t else true) else false)
                    else true)
                else false)
            else true)
        else false)
      ≡ (ltb a a' || (a == a' && (ltb b b' || (b == b' && (ltb c c' || (c == c' && t))))))
three_levels a a' b b' c c' t = ground arith

key_of-precedence :
    (v w : Release) → key_le (key_of v) (key_of w) ≡ precedence_le (semver_of v) (semver_of w)
unfolding key_le precedence_le
key_of-precedence v w =
    rw (key_parts v, key_parts w, ← pre_le-eq v.pre w.pre)
      (three_levels v.major w.major (minors_of v.minors).0 (minors_of w.minors).0
        (minors_of v.minors).1 (minors_of w.minors).1 (tail_le (pre_key v.pre) (pre_key w.pre)))

-- Two texts that `_postgres_version_key` accepts are release numbers, and the order of the keys that
-- it returns for them is the SemVer precedence of the two releases.
pub key_le-eq-precedence_le :
    (s t : Text) (k l : VersionKey)
    → version_key s ≡ ok k
    → version_key t ≡ ok l
    → (v w : Release) × (s ≡ spell v)
      × (t ≡ spell w)
      × (key_le k l ≡ precedence_le (semver_of v) (semver_of w))
key_le-eq-precedence_le s t k l h g =
    let (v, es, ek) = version_key-eq-ok s k h in
    let (w, et, el) = version_key-eq-ok t l g in
    (v, w, es, et, rw (← ek, ← el) (key_of-precedence v w))

pre_text : Option (Phase × ℕ) → Text
pre_text none = []
pre_text (some (p, n)) = b'-' ∷ phase_word p ++ b'.' ∷ show n

core_text : ℕ → ℕ → ℕ → Text → Text
core_text a b c s = show a ++ b'.' ∷ (show b ++ b'.' ∷ (show c ++ s))

printed :
    (a b c : ℕ) (p : Option (Phase × ℕ))
    → semver_text (record {
      major = a;
      minor = b;
      patch = c;
      phase_order = (pre_key p).0;
      phase_number = (pre_key p).1;
    })
      ≡ core_text a b c (pre_text p)
unfolding core_text pre_text
printed a b c none = simp (append_assoc, append-nil)
printed a b c (some (alpha, n)) = simp append_assoc
printed a b c (some (beta, n)) = simp append_assoc
printed a b c (some (rc, n)) = simp append_assoc

NoDigit-pre_text : (p : Option (Phase × ℕ)) → NoDigit (pre_text p)
unfolding pre_text
NoDigit-pre_text none = tt
NoDigit-pre_text (some (p, n)) = refl

second : Text → ℕ
second (c ∷ d ∷ s) = d
second _ = 0

pre_text_inj : (p q : Option (Phase × ℕ)) → pre_text p ≡ pre_text q → p ≡ q
unfolding pre_text second
pre_text_inj none none e = refl
pre_text_inj none (some q) e = cc
pre_text_inj (some p) none e = cc
pre_text_inj (some (alpha, m)) (some (alpha, n)) e =
    ap (λ k. some (alpha, k)) (show_inj m n (ap (drop 7) e))
pre_text_inj (some (alpha, m)) (some (beta, n)) e = absurd (omega (arith, ap second e))
pre_text_inj (some (alpha, m)) (some (rc, n)) e = absurd (omega (arith, ap second e))
pre_text_inj (some (beta, m)) (some (alpha, n)) e = absurd (omega (arith, ap second e))
pre_text_inj (some (beta, m)) (some (beta, n)) e =
    ap (λ k. some (beta, k)) (show_inj m n (ap (drop 6) e))
pre_text_inj (some (beta, m)) (some (rc, n)) e = absurd (omega (arith, ap second e))
pre_text_inj (some (rc, m)) (some (alpha, n)) e = absurd (omega (arith, ap second e))
pre_text_inj (some (rc, m)) (some (beta, n)) e = absurd (omega (arith, ap second e))
pre_text_inj (some (rc, m)) (some (rc, n)) e = ap (λ k. some (rc, k)) (show_inj m n (ap (drop 4) e))

core_text_inj :
    (a a' b b' c c' : ℕ) (p q : Option (Phase × ℕ))
    → core_text a b c (pre_text p) ≡ core_text a' b' c' (pre_text q)
    → (a ≡ a') × (b ≡ b') × (c ≡ c') × (p ≡ q)
unfolding core_text
core_text_inj a a' b b' c c' p q e =
    let (ea, e1) = show_cancel a a' _ _ refl refl e in
    let (eb, e2) = show_cancel b b' _ _ refl refl (tail-eq_of_cons-eq e1) in
    let (ec, e3) =
      show_cancel c c' (pre_text p) (pre_text q) (NoDigit-pre_text p) (NoDigit-pre_text q)
        (tail-eq_of_cons-eq e2) in
    (ea, eb, ec, pre_text_inj p q e3)

-- Two releases with the same SemVer text have the same key.
pub semver_text_inj :
    (v w : Release) → semver_text (key_of v) ≡ semver_text (key_of w) → key_of v ≡ key_of w
semver_text_inj v w e =
    let (ea, eb, ec, ep) = core_text_inj _ _ _ _ _ _ v.pre w.pre (
      sym (printed v.major (minors_of v.minors).0 (minors_of v.minors).1 v.pre)
      ∙ ap semver_text (sym (key_parts v))
      ∙ e
      ∙ ap semver_text (key_parts w)
      ∙ printed w.major (minors_of w.minors).0 (minors_of w.minors).1 w.pre) in
    key_parts v
    ∙ (λ i. record {
      major = ea i;
      minor = eb i;
      patch = ec i;
      phase_order = (pre_key (ep i)).0;
      phase_number = (pre_key (ep i)).1;
    })
    ∙ sym (key_parts w)
