-- ===== src/Maintenance/Compatible.antt =====
-- src/postgresbuild/maintenance.py, `compatibility`: what it says of releases that may be applied.
use postgresbuild.Prelude.{
  is_nil, ◌≡◌, refl, ap, ◌∙◌, true, Bool-cases, inl, inr, none, some, List, [], ◌∷◌, keep-In, ◌==◌,
  In, here, there, Result, ok, err, ok-eq, in-result, traverse, traverse-In, arith,
}
use postgresbuild.Prelude.Text.{Text}
use postgresbuild.Github.{Versions}
use postgresbuild.Maintenance.{Requirements, listed, bounded, Recipe, Upstream}
use postgresbuild.Maintenance.Compatibility.{
  Reason, or_else, first_reason, flat, outside_consumer, least, against_bases, downgrade,
  compatibility,
}

some-neq : {P : Type 0} {s : Text} → ok (some s) ≡ ok none → P
some-neq h = cc

reason-neq : {P : Type 0} {s : Text} → some s ≡ none → P
reason-neq h = cc

or_else-eq-none :
    (r later : Result Reason) → or_else r later ≡ ok none → (r ≡ ok none) × (later ≡ ok none)
or_else-eq-none (err e) later h = cc
or_else-eq-none (ok (some s)) later h = cc
or_else-eq-none (ok none) later h = (refl, h)

first_reason-eq-none :
    {A : Type 0} (f : A → Result Reason) (xs : List A) {x : A}
    → first_reason f xs ≡ ok none
    → In x xs
    → f x ≡ ok none
unfolding first_reason
first_reason-eq-none f [] h m = elim m [ ]
first_reason-eq-none f (x ∷ xs) h m =
    let (a, b) = or_else-eq-none (f x) _ h in
    elim m [ here e ↦ ap f e ∙ a | there n ↦ first_reason-eq-none f xs b n ]

-- The requirements that a consumer states in one of its attributes.
unfoldable pub requirements_of : Requirements → List Text
requirements_of (listed requirements) = requirements
requirements_of (bounded groups) = flat groups

module _ (upstream : Upstream) where
  module _ (versions : Versions) where
    open versions use {Version, parse, le, major}

    least-In : (v : Version) (ws : List Version) → In (least upstream versions v ws) (v ∷ ws)
    unfolding least
    least-In v [] = here refl
    least-In v (w ∷ ws) = elim (Bool-cases (le v w)) [
      | inl e ↦ rw e (elim (least-In v ws) [ here p ↦ here p | there n ↦ there (there n) ])
      | inr e ↦ rw e (there (least-In w ws))
    ]

    against_bases-eq-none :
        (v : Version) (bs : List Version)
        → against_bases upstream versions v bs ≡ none
        → (b : Version) × In b bs × (le b v ≡ true)
    against_bases-eq-none v [] h = cc
    against_bases-eq-none v (b ∷ bs) h = elim (Bool-cases (le (least upstream versions b bs) v)) [
      | inl e ↦ (least upstream versions b bs, least-In b bs, e)
      | inr e ↦ reason-neq (rw e at h)
    ]

    -- A registered version of the same major that is not above.
    pub record IsBased (r : Recipe) (version : Text) : Type 0 where
      pub parsed : Version
      pub parse_of : parse version ≡ ok parsed
      pub base : Text
      pub registered : In base r.source_versions
      pub parsed_base : Version
      pub parse_of_base : parse base ≡ ok parsed_base
      pub same_major : major parsed_base ≡ major parsed
      pub no_downgrade : le parsed_base parsed ≡ true

    downgrade-eq-none :
        (r : Recipe) (old : List Version) (version : Text)
        → traverse parse r.source_versions ≡ ok old
        → downgrade upstream versions old version ≡ ok none
        → IsBased r version
    unfolding downgrade
    downgrade-eq-none r old version t h = in-result _ _ h (λ v p h.
        let (b, m, l) = against_bases-eq-none v _ (ok-eq h) in
        let (i, same) = keep-In (λ (x : Version). major x == major v) old m in
        let (base, j, q) = traverse-In parse r.source_versions t i in
        record {
          parsed = v;
          parse_of = p;
          base = base;
          registered = j;
          parsed_base = b;
          parse_of_base = q;
          same_major = ground arith;
          no_downgrade = l;
        })

    compatibility-checks :
        (r : Recipe) (desired : List Text) (grouped : List Recipe)
        → compatibility upstream versions r desired grouped ≡ ok none
        → (old : List Version) × (traverse parse r.source_versions ≡ ok old)
          × (first_reason (downgrade upstream versions old) desired ≡ ok none)
          × (first_reason (outside_consumer upstream r desired) grouped ≡ ok none)
    unfolding compatibility
    compatibility-checks r desired grouped h = in-result _ _ h (λ old t h.
        elim (Bool-cases (is_nil desired)) [
          | inl e ↦ some-neq (rw e at h)
          | inr e ↦ let (a, b) = or_else-eq-none _ _ (rw e at h) in (old, t, a, b)
        ])

    -- Where `compatibility` has no reason against the desired releases, each of them has a
    -- registered version of the same major that is not above it.
    pub compatibility-IsBased :
        (r : Recipe) (desired : List Text) (grouped : List Recipe) {version : Text}
        → compatibility upstream versions r desired grouped ≡ ok none
        → In version desired
        → IsBased r version
    compatibility-IsBased r desired grouped h m =
        let (old, t, a, b) = compatibility-checks r desired grouped h in
        downgrade-eq-none r old _ t (first_reason-eq-none _ desired a m)
