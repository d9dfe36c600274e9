-- ===== src/Publication/Snapshot/Assets.antt =====
-- The loops of `validate_snapshot` over the records and over their release names: each name has an
-- asset with the same address and size, and no name or coordinate comes twice.
use mathlib.Core.List.{map-append}
use postgresbuild.Prelude.{
  ℕ, ◌≤◌, ◌≡◌, refl, sym, Bool, true, false, not, List, [], ◌∷◌, ◌++◌, any, count, arith, some, ◌⊎◌,
  inl, inr, subst, In, here, there, In-append_cases, In-append_left, In-append_right, if◌then◌else◌,
  ok, ok-eq, in-check, in-call, in-value, in-result, find-eq-some, not-eq-true, ||-eq-false,
  Bool-cases, count-eq-zero, guard-eq-ok, count-snoc,
}
use postgresbuild.Prelude.Text.{Text}
use postgresbuild.Json.{Json, Fields, get, py_eq}
use postgresbuild.Publication.Record.{Coordinate, coordinate_eq, File, Record, release_names}
use postgresbuild.Publication.Record.Valid.{IsRecord, validate_record-IsRecord}
use postgresbuild.Publication.Coordinates.{Unique, coordinate_eq-eq}
use postgresbuild.Publication.Coordinates.Same.{any-coordinate}
use postgresbuild.Publication.Snapshot.{
  Assets, asset_named, is_named, check_asset, check_assets, Progress, coordinates_so_far,
  check_successful, check_all,
}

not-false : (b : Bool) → not b ≡ false → b ≡ true
not-false b h = ground arith

Unique-snoc :
    (cs : List Coordinate) (c : Coordinate)
    → Unique cs
    → any (coordinate_eq c) cs ≡ false
    → Unique (cs ++ c ∷ [])
Unique-snoc cs c u n d = elim (Bool-cases (coordinate_eq d c)) [
  | inl e ↦
      let none_before : count (coordinate_eq d) cs ≡ 0 =
        subst (λ x. count (coordinate_eq x) cs ≡ 0) (sym (coordinate_eq-eq d c e))
          (count-eq-zero (coordinate_eq c) cs n) in
      omega (arith, count-snoc (coordinate_eq d) cs c, one_or_none (coordinate_eq d c), none_before)
  | inr e ↦
      let no_more : ◌≡◌ {A = ℕ} (if coordinate_eq d c then 1 else 0) 0 = rw e in
      omega (arith, count-snoc (coordinate_eq d) cs c, u d, no_more)
]
  where
    one_or_none : (b : Bool) → ◌≤◌ (if b then 1 else 0) 1
    one_or_none true = omega arith
    one_or_none false = omega arith

module _ (assets : Assets) where
  -- The file of this release name has an asset with its address and size.
  pub record IsMatched (files : List File) (name : Text) : Type 0 where
    pub file : File
    pub file_in : In file files
    pub named : is_named name file ≡ true
    pub asset : Fields
    pub found : asset_named name assets ≡ some asset
    pub same_url : py_eq (get file.source "url") (get asset "browser_download_url") ≡ true
    pub same_size : py_eq (get file.source "size") (get asset "size") ≡ true

  check_asset-IsMatched :
      (seen : List Text) (files : List File) (name : Text)
      → check_asset assets seen files name ≡ ok tt
      → IsMatched files name
  unfolding check_asset
  check_asset-IsMatched seen files name h = in-value _ _ _ h (λ f e h. in-value _ _ _ h (λ a q h.
      in-check _ _ _ h (λ _ h. in-check _ _ _ h (λ u h.
        let (i, n) = find-eq-some (is_named name) files e in
        record {
          file = f;
          file_in = i;
          named = n;
          asset = a;
          found = q;
          same_url = u;
          same_size = guard-eq-ok _ _ h;
        }))))

  pub record AreMatched (files : List File) (seen ns out : List Text) : Type 0 where
    pub each : (n : Text) → In n ns → IsMatched files n
    pub kept : (n : Text) → In n out → In n ns ⊎ In n seen
    pub of_record : (n : Text) → In n ns → In n out
    pub of_seen : (n : Text) → In n seen → In n out

  check_assets-AreMatched :
      (files : List File) (seen ns : List Text) {out : List Text}
      → check_assets assets files seen ns ≡ ok out
      → AreMatched files seen ns out
  unfolding check_assets
  check_assets-AreMatched files seen [] h = subst (AreMatched files seen []) (ok-eq h) (record {
    each = λ n m. elim m [ ];
    kept = λ n m. inr m;
    of_record = λ n m. elim m [ ];
    of_seen = λ n m. m;
  })
  check_assets-AreMatched files seen (k ∷ ns) h = in-call _ _ h (λ c h.
      let r = check_assets-AreMatched files (k ∷ seen) ns h in
      record {
        each = λ n m. elim m [
          | here e ↦ subst (IsMatched files) (sym e) (check_asset-IsMatched seen files k c)
          | there i ↦ r.each n i
        ];
        kept = λ n m. elim (r.kept n m) [
          | inl i ↦ inl (there i)
          | inr i ↦ elim i [ here e ↦ inl (here e) | there j ↦ inr j ]
        ];
        of_record = λ n m. elim m [ here e ↦ r.of_seen n (here e) | there i ↦ r.of_record n i ];
        of_seen = λ n m. r.of_seen n (there m);
      })

  module _ (repository tag : Text) (expected : List Coordinate) where
    -- What holds of the records that have been seen.
    pub record IsCovered (p : Progress) : Type 0 where
      pub valid : (r : Record) → In r p.records → IsRecord repository tag r
      pub expects : (r : Record) → In r p.records → In r.coordinate expected
      pub unique : Unique (coordinates_so_far p)
      pub matched :
          (r : Record)
          → In r p.records
          → (n : Text) → In n (release_names r.files)
          → IsMatched r.files n
      pub names_of :
          (n : Text) → In n p.names → (r : Record) × In r p.records × In n (release_names r.files)
      pub of_names :
          (r : Record) (n : Text) → In r p.records → In n (release_names r.files) → In n p.names

    pub IsCovered-start : IsCovered (record { records = []; names = [] })
    IsCovered-start = record {
      valid = λ r m. elim m [ ];
      expects = λ r m. elim m [ ];
      unique = λ c. omega arith;
      matched = λ r m. elim m [ ];
      names_of = λ n m. elim m [ ];
      of_names = λ r n m. elim m [ ];
    }

    In-snoc : {r : Record} (rs : List Record) (x : Record) → In r (rs ++ x ∷ []) → In r rs ⊎ (r ≡ x)
    In-snoc rs x m = elim (In-append_cases rs m) [
      | inl i ↦ inl i
      | inr i ↦ elim i [ here e ↦ inr e | there j ↦ elim j [ ] ]
    ]

    module _ (p : Progress) (k : IsCovered p) (r : Record) (names : List Text)
        (valid : IsRecord repository tag r)
        (fresh : any (coordinate_eq r.coordinate) (coordinates_so_far p) ≡ false)
        (expects : In r.coordinate expected)
        (matched : AreMatched r.files p.names (release_names r.files) names) where
      abbrev after : Progress
      after = record { records = p.records ++ r ∷ []; names = names }

      names_after :
          (n : Text) → In n names → (x : Record) × In x after.records × In n (release_names x.files)
      names_after n m = elim (matched.kept n m) [
        | inl i ↦ (r, In-append_right p.records (here refl), i)
        | inr i ↦ let (x, j, q) = k.names_of n i in (x, In-append_left (r ∷ []) j, q)
      ]

      IsCovered-next : IsCovered after
      IsCovered-next = record {
        valid = λ x m. elim (In-snoc p.records r m) [
          | inl i ↦ k.valid x i
          | inr e ↦ subst (IsRecord repository tag) (sym e) valid
        ];
        expects = λ x m. elim (In-snoc p.records r m) [
          | inl i ↦ k.expects x i
          | inr e ↦ subst (λ (y : Record). In y.coordinate expected) (sym e) expects
        ];
        unique =
            subst Unique (sym (map-append (λ (x : Record). x.coordinate) p.records (r ∷ [])))
              (Unique-snoc (coordinates_so_far p) r.coordinate k.unique fresh);
        matched = λ x m. elim (In-snoc p.records r m) [
          | inl i ↦ k.matched x i
          | inr e ↦
              subst
                (λ (y : Record). (n : Text) → In n (release_names y.files) → IsMatched y.files n)
                (sym e) matched.each
        ];
        names_of = names_after;
        of_names = λ x n m i. elim (In-snoc p.records r m) [
          | inl j ↦ matched.of_seen n (k.of_names x n j i)
          | inr e ↦ matched.of_record n (subst (λ (y : Record). In n (release_names y.files)) e i)
        ];
      }

    check_successful-IsCovered :
        (p : Progress) (v : Json) {q : Progress}
        → IsCovered p
        → check_successful repository tag assets expected p v ≡ ok q
        → IsCovered q
    unfolding check_successful
    check_successful-IsCovered p v k h = in-result _ _ h (λ r e h. in-check _ _ _ h (λ g h.
        in-result _ _ h (λ names c h.
          let (fresh, listed) = ||-eq-false _ _ (not-eq-true _ g) in
          subst IsCovered (ok-eq h) (
            IsCovered-next p k r names (validate_record-IsRecord repository tag v r e).1 fresh
              (any-coordinate expected (not-false _ listed))
              (check_assets-AreMatched r.files p.names (release_names r.files) c)))))

    pub check_all-IsCovered :
        (p : Progress) (vs : List Json) {q : Progress}
        → IsCovered p
        → check_all repository tag assets expected p vs ≡ ok q
        → IsCovered q
    unfolding check_all
    check_all-IsCovered p [] k h = subst IsCovered (ok-eq h) k
    check_all-IsCovered p (v ∷ vs) k h =
        in-result _ _ h (λ q e h. check_all-IsCovered q vs (check_successful-IsCovered p v k e) h)
