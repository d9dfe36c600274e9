-- ===== src/Publication/Snapshot/Valid.antt =====
-- What `validate_snapshot` promises of the snapshot that it returns, and of the release.
use postgresbuild.Prelude.{
  ◌≡◌, sym, true, List, map, all, ◌⊎◌, ◌↔◌, inl, inr, subst, In, here, there, ok, ok-eq, in-check,
  in-call, in-value, in-result, &&-eq-true, all-In, map-In,
}
use postgresbuild.Prelude.Text.{Text, codes, text_in, text_in-In, In-text_in}
use postgresbuild.Prelude.Sort.{IsSorted, sort, sort-IsSorted}
use postgresbuild.Json.{Json, items}
use postgresbuild.Publication.Platform.{Platform}
use postgresbuild.Publication.Policy.{Policy}
use postgresbuild.Publication.Record.{
  Coordinate, coordinate_le, primary_archive, dbgsym, public_name, Record, release_names,
}
use postgresbuild.Publication.Record.Valid.{IsRecord-release_names}
use postgresbuild.Publication.Coordinates.{
  Unique, coordinate_le_total, coordinate_le_trans, is_canonical-IsSorted, coordinates_eq,
  coordinates_eq-eq,
}
use postgresbuild.Publication.Coordinates.Same.{any-coordinate}
use postgresbuild.Publication.Snapshot.{
  Assets, asset_names, snapshot_name, checksum_name, with_documents, Manifest, coordinates_so_far,
  same_coordinates, same_names, validate_snapshot,
}
use postgresbuild.Publication.Snapshot.Assets.{IsCovered, IsCovered-start, check_all-IsCovered}

same_names-In :
    (ss ts : List Text) → same_names ss ts ≡ true → (n : Text) → (text_in n ss ≡ true) ↔ In n ts
unfolding same_names
same_names-In ss ts h n =
    let (there_too, back) =
      &&-eq-true (all (λ s. text_in s ts) ss) (all (λ t. text_in t ss) ts) h in
    (
      λ i. text_in-In n ts (all-In (λ s. text_in s ts) there_too (text_in-In n ss i)),
      λ i. all-In (λ t. text_in t ss) back i,
    )

module _ (policy : Policy) (tag : Text) (assets : Assets) where
  -- What the code has checked when it returns.
  pub record IsManifest (m : Manifest) : Type 0 where
    pub names : List Text
    pub covered :
        IsCovered assets policy.repository tag m.expected
          (record { records = m.successful; names = names })
    pub canonical : IsSorted coordinate_le m.expected × Unique m.expected
    pub ordered : IsSorted coordinate_le (map (λ (r : Record). r.coordinate) m.successful)
    pub complete :
        same_coordinates (map (λ (r : Record). r.coordinate) m.successful) m.expected ≡ true
    pub declared : same_names (asset_names assets) (with_documents names) ≡ true

  ordered_of :
      (cs : List Coordinate)
      → coordinates_eq cs (sort coordinate_le cs) ≡ true
      → IsSorted coordinate_le cs
  ordered_of cs h =
      subst (IsSorted coordinate_le) (sym (coordinates_eq-eq cs _ h))
        (sort-IsSorted coordinate_le coordinate_le_total coordinate_le_trans cs)

  pub validate_snapshot-IsManifest :
      (platform : Platform) (v : Json) {m : Manifest}
      → validate_snapshot platform policy tag assets v ≡ ok m
      → IsManifest m
  unfolding validate_snapshot
  validate_snapshot-IsManifest platform v h = in-value _ _ _ h (λ _ _ h. in-check _ _ _ h (λ _ h.
      in-check _ _ _ h (λ _ h. in-value _ _ _ h (λ _ _ h. in-check _ _ _ h (λ _ h.
        in-value _ _ _ h (λ successful _ h. in-value _ _ _ h (λ _ _ h.
          in-result _ _ h (λ expected _ h. in-check _ _ _ h (λ canonical h.
            in-result _ _ h (λ p covered h. in-check _ _ _ h (λ ordered h.
              in-check _ _ _ h (λ complete h. in-call _ _ h (λ _ h. in-result _ _ h (λ _ _ h.
                in-check _ _ _ h (λ declared h. subst IsManifest (ok-eq h) (record {
                  names = p.names;
                  covered =
                      check_all-IsCovered assets policy.repository tag expected _ (items successful)
                        (IsCovered-start assets policy.repository tag expected) covered;
                  canonical = is_canonical-IsSorted expected canonical;
                  ordered = ordered_of (coordinates_so_far p) ordered;
                  complete = complete;
                  declared = declared;
                }))))))))))))))))

  module _ (platform : Platform) (v : Json) (m : Manifest)
      (passed : validate_snapshot platform policy tag assets v ≡ ok m) where
    abbrev k : IsManifest m
    k = validate_snapshot-IsManifest platform v passed

    abbrev built_coordinates : List Coordinate
    built_coordinates = map (λ (r : Record). r.coordinate) m.successful

    record_of :
        {c : Coordinate} → In c m.expected → (r : Record) × In r m.successful × (c ≡ r.coordinate)
    unfolding same_coordinates
    record_of i =
        let (_, back) = &&-eq-true _ _ k.complete in
        map-In (λ (r : Record). r.coordinate) m.successful
          (any-coordinate built_coordinates (all-In _ back i))

    abbrev IsArchive : Text → Type 0
    IsArchive n =
        (c : Coordinate) × In c m.expected
        × ((n ≡ public_name c primary_archive tag) ⊎ (n ≡ public_name c dbgsym tag))

    -- An archive's name is that of a record, and the other way round.
    IsArchive-In : {n : Text} → In n k.names → IsArchive n
    IsArchive-In {n} i =
        let (r, j, q) = k.covered.names_of n i in
        (
          r.coordinate,
          k.covered.expects r j,
          (IsRecord-release_names policy.repository tag r (k.covered.valid r j) n).0 (In-text_in q),
        )

    In-archive_name : {n : Text} → IsArchive n → In n k.names
    In-archive_name {n} (c, i, w) =
        let (r, j, e) = record_of i in
        k.covered.of_names r n j (
          text_in-In n (release_names r.files) (
            (IsRecord-release_names policy.repository tag r (k.covered.valid r j) n).1 (
              subst (λ x. (n ≡ public_name x primary_archive tag) ⊎ (n ≡ public_name x dbgsym tag))
                e w)))

    -- The assets of a release whose snapshot passes are SHA256SUMS, the snapshot, and for each
    -- expected coordinate its primary archive and its dbgsym archive, and no others.
    pub assets_exact :
        (n : Text)
        → (text_in n (asset_names assets) ≡ true)
          ↔ ((n ≡ codes checksum_name) ⊎ ((n ≡ codes snapshot_name) ⊎ IsArchive n))
    assets_exact n =
        let same = same_names-In (asset_names assets) (with_documents k.names) k.declared n in
        (
          λ h. elim (same.0 h) [
            | here e ↦ inl e
            | there i ↦ elim i [ here e ↦ inr (inl e) | there j ↦ inr (inr (IsArchive-In j)) ]
          ],
          λ h. same.1 (elim h [
            | inl e ↦ here e
            | inr w ↦ elim w [ inl e ↦ there (here e) | inr a ↦ there (there (In-archive_name a)) ]
          ]),
        )
