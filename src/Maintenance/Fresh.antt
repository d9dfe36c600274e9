-- ===== src/Maintenance/Fresh.antt =====
-- src/postgresbuild/maintenance.py: what `discover` reports, and that it may be applied at once.
use mathlib.Core.List.Permᴰ
use postgresbuild.Prelude.{
  is_nil, ◌≡◌, refl, sym, ap, subst, ◌∙◌, Bool, true, false, ◌&&◌, not, Bool-cases, ◌⊎◌, inl, inr,
  none, some, List, [], ◌∷◌, map, find, In, here, there, In-append_cases, In-map, Exn, Result, ok,
  err, ok-eq, guard, >>=-ok, >>-ok, expect-ok, then-ok, in-result, arith,
}
use postgresbuild.Prelude.Text.{
  Text, text_eq, text_eq-eq, text_eq_refl, text_in, In-text_in, texts_eq, texts_eq_refl, distinct,
  is_empty,
}
use postgresbuild.Prelude.Sort.{In-perm, sort-perm}
use postgresbuild.Github.{Versions}
use postgresbuild.Maintenance.{
  Recipe, Upstream, Candidate, sort_versions, digest, desired_releases, raise_value,
}
use postgresbuild.Maintenance.Compatibility.{Reason, compatibility}
use postgresbuild.Maintenance.Discover.{
  Finding, unchanged, suppressed, blocked, candidate, Report, is_caught, empty_report, add_finding,
  ident_le, found, changed, examine, add_result, examine_all, discover, check_candidate,
  check_candidates, packages_of, revalidate,
}

suppressed-neq : {P : Type 0} {t : Text} {c : Candidate} → Finding.suppressed t ≡ candidate c → P
suppressed-neq h = cc

unchanged-neq : {P : Type 0} {c : Candidate} → ok unchanged ≡ ok (candidate c) → P
unchanged-neq h = cc

blocked-neq : {P : Type 0} {b c : Candidate} → Finding.blocked b ≡ candidate c → P
blocked-neq h = cc

candidate-eq : {b c : Candidate} → candidate b ≡ candidate c → b ≡ c
candidate-eq h = cc

reason-cases :
    (reason : Reason) (c : Candidate) {d : Candidate}
    → elim reason [ none ↦ candidate c | some s ↦ Finding.blocked (record c { blocked = s }) ]
      ≡ candidate d
    → (reason ≡ none) × (c ≡ d)
reason-cases none c h = (refl, candidate-eq h)
reason-cases (some s) c h = blocked-neq h

err-neq : {A P : Type 0} {e : Exn} {a : A} → err e ≡ ok a → P
err-neq h = cc

not-clash : {P : Type 0} (a b : Bool) → (not a && b) ≡ true → a ≡ true → P
not-clash true b h k = cc
not-clash false b h k = cc

guard_of_empty : (s : Text) → s ≡ [] → guard (is_empty s) (raise_value s) ≡ ok tt
unfolding guard
guard_of_empty s h = rw h refl

-- A name that no other recipe has finds its recipe.
find_of_distinct :
    (rs : List Recipe) {r : Recipe}
    → In r rs
    → distinct (map (λ (s : Recipe). s.ident) rs) ≡ true
    → find (λ (s : Recipe). text_eq s.ident r.ident) rs ≡ some r
find_of_distinct [] i d = elim i [ ]
find_of_distinct (s ∷ rs) {r} (here e) d =
    subst (λ (x : Recipe). find (λ (t : Recipe). text_eq t.ident x.ident) (s ∷ rs) ≡ some x) (sym e)
      (rw (text_eq_refl s.ident) refl)
find_of_distinct (s ∷ rs) {r} (there m) d = elim (Bool-cases (text_eq s.ident r.ident)) [
  | inl e ↦ not-clash _ _ d (
      In-text_in (
        subst (λ t. In t (map (λ (x : Recipe). x.ident) rs)) (sym (text_eq-eq _ _ e))
          (In-map (λ (x : Recipe). x.ident) m)))
  | inr e ↦ rw e (find_of_distinct rs m (ground arith))
]

module _ (upstream : Upstream) (versions : Versions) (grouped : List Recipe) where
  -- The candidate is what the recipe's registered and desired releases say, and these differ and
  -- are compatible.
  pub record IsFound (covered : List Text) (r : Recipe) (c : Candidate) : Type 0 where
    pub name : c.package_name ≡ r.ident
    pub previous : sort_versions versions r.source_versions ≡ ok c.previous
    pub current : desired_releases upstream versions r ≡ ok c.current
    pub different : texts_eq c.previous c.current ≡ false
    pub compatible : compatibility upstream versions r c.current grouped ≡ ok none
    pub unblocked : c.blocked ≡ []
    pub uncovered : text_in (digest upstream c) covered ≡ false

  found-candidate :
      (covered : List Text) (reason : Reason) (c : Candidate) {d : Candidate}
      → found upstream versions covered reason c ≡ candidate d
      → (reason ≡ none) × (c ≡ d) × (text_in (digest upstream c) covered ≡ false)
  found-candidate covered reason c h = elim (Bool-cases (text_in (digest upstream c) covered)) [
    | inl e ↦ suppressed-neq (rw e at h)
    | inr e ↦ let (q, p) = reason-cases reason c (rw e at h) in (q, p, e)
  ]

  examine-IsFound :
      (covered : List Text) (r : Recipe) {c : Candidate}
      → examine upstream versions grouped covered r ≡ ok (candidate c)
      → IsFound covered r c
  unfolding examine changed
  examine-IsFound covered r {c} h = in-result _ _ h (λ previous p h. in-result _ _ h (λ desired d h.
      elim (Bool-cases (texts_eq previous desired)) [
        | inl e ↦ unchanged-neq (rw e at h)
        | inr e ↦ in-result _ _ (rw e at h) (λ reason k h. in-result _ _ h (λ evidence _ h.
            let (n, q, u) = found-candidate covered reason _ (ok-eq h) in
            subst (IsFound covered r) q (record {
              name = refl;
              previous = p;
              current = d;
              different = e;
              compatible = k ∙ ap ok n;
              unblocked = refl;
              uncovered = u;
            })))
      ]))

  add_finding-In :
      (p : Report) (f : Finding) {c : Candidate}
      → In c (add_finding p f).candidates
      → In c p.candidates ⊎ (f ≡ candidate c)
  unfolding add_finding
  add_finding-In p unchanged m = inl m
  add_finding-In p (suppressed d) m = inl m
  add_finding-In p (blocked d) m = inl m
  add_finding-In p (candidate d) m = elim (In-append_cases p.candidates m) [
    | inl i ↦ inl i
    | inr (here e) ↦ inr (ap candidate (sym e))
    | inr (there n) ↦ elim n [ ]
  ]

  add_result-In :
      (p : Report) (ident : Text) (r : Result Finding) {q : Report} {c : Candidate}
      → add_result upstream versions p ident r ≡ ok q
      → In c q.candidates
      → In c p.candidates ⊎ (r ≡ ok (candidate c))
  add_result-In p ident (ok f) {c = c} h m =
      elim (add_finding-In p f (subst (λ (x : Report). In c x.candidates) (sym (ok-eq h)) m)) [
        | inl i ↦ inl i
        | inr e ↦ inr (ap ok e)
      ]
  add_result-In p ident (err e) {c = c} h m = elim (Bool-cases (is_caught e.class)) [
    | inl b ↦ inl (subst (λ (x : Report). In c x.candidates) (sym (ok-eq (rw b at h))) m)
    | inr b ↦ err-neq (rw b at h)
  ]

  examine_all-In :
      (covered : List Text) (rs : List Recipe) (p : Report) {q : Report} {c : Candidate}
      → examine_all upstream versions grouped covered rs p ≡ ok q
      → In c q.candidates
      → In c p.candidates ⊎ ((r : Recipe) × In r rs × IsFound covered r c)
  unfolding examine_all
  examine_all-In covered [] p {c = c} h m =
      inl (subst (λ (x : Report). In c x.candidates) (sym (ok-eq h)) m)
  examine_all-In covered (r ∷ rs) p h m = in-result _ _ h (λ p₁ a h.
      elim (examine_all-In covered rs p₁ h m) [
        | inl i ↦ elim (add_result-In p r.ident _ a i) [
          | inl j ↦ inl j
          | inr e ↦ inr (r, here refl, examine-IsFound covered r e)
        ]
        | inr (s, i, f) ↦ inr (s, there i, f)
      ])

  -- Every candidate of a report is that of a recipe: its versions are the registered and the
  -- desired ones of the recipe, which differ, no reason is against them, and its digest is not
  -- one of those that are covered.
  pub candidates-IsFound :
      (covered : List Text) {p : Report} {c : Candidate}
      → discover upstream versions grouped covered ≡ ok p
      → In c p.candidates
      → (r : Recipe) × In r grouped × IsFound covered r c
  unfolding discover
  candidates-IsFound covered h m = elim (examine_all-In covered _ empty_report h m) [
    | inl i ↦ elim i [ ]
    | inr (r, i, f) ↦ (r, In-perm (Permᴰ.symm (sort-perm ident_le grouped)) i, f)
  ]

  check_candidate_of_found :
      (covered : List Text) {r : Recipe} {c : Candidate}
      → find (λ (s : Recipe). text_eq s.ident c.package_name) grouped ≡ some r
      → IsFound covered r c
      → check_candidate upstream versions grouped c ≡ ok tt
  unfolding check_candidate
  check_candidate_of_found covered {r} {c} i f =
      expect-ok _ _ _ i
      ∙ >>=-ok _ _ f.previous
      ∙ >>=-ok _ _ f.current
      ∙ >>-ok _ _ _ (rw (texts_eq_refl c.previous, texts_eq_refl c.current) refl)
      ∙ >>=-ok _ _ f.compatible
      ∙ guard_of_empty c.blocked f.unblocked

  check_candidates_of_all :
      (cs : List Candidate)
      → ((c : Candidate) → In c cs → check_candidate upstream versions grouped c ≡ ok tt)
      → check_candidates upstream versions grouped cs ≡ ok tt
  unfolding check_candidates
  check_candidates_of_all [] f = refl
  check_candidates_of_all (c ∷ cs) f =
      then-ok _ _ (f c (here refl)) ∙ check_candidates_of_all cs (λ d m. f d (there m))

  -- Where the recipes have different names, and a nonempty selection of at most one candidate per
  -- package is made from a report, then as long as nothing has changed the checks that
  -- `apply_batch` makes again all pass.
  pub revalidate_of_discover :
      (covered : List Text) {p : Report} (cs : List Candidate)
      → distinct (map (λ (r : Recipe). r.ident) grouped) ≡ true
      → discover upstream versions grouped covered ≡ ok p
      → ((c : Candidate) → In c cs → In c p.candidates)
      → is_nil cs ≡ false
      → distinct (packages_of upstream versions cs) ≡ true
      → revalidate upstream versions grouped cs ≡ ok tt
  unfolding revalidate
  revalidate_of_discover covered cs d h sel n once =
      >>-ok _ _ _ (ap not n)
      ∙ >>-ok _ _ _ once
      ∙ check_candidates_of_all cs (λ c m.
        let (r, i, f) = candidates-IsFound covered h (sel c m) in
        check_candidate_of_found covered (rw f.name (find_of_distinct grouped i d)) f)
