-- ===== src/Publication/Fetch/Published.antt =====
-- `fetch_valid_snapshot` as a whole: what it publishes is verified, and where it succeeds nothing
-- is left out.
use mathlib.Core.Option.{some-injective}
use postgresbuild.Prelude.{
  In-append_left, ◌≡◌, refl, sym, ap, ◌∙◌, Bool, true, false, ◌&&◌, Option, none, some, [], inl,
  inr, subst, In, if◌then◌else◌, Result, ok, err, ok-eq, in-check, in-value, in-result,
}
use postgresbuild.Prelude.Text.{Text, text_eq}
use postgresbuild.Json.{Json, Fields}
use postgresbuild.Publication.Platform.{Platform}
use postgresbuild.Publication.Policy.{Policy}
use postgresbuild.Publication.Record.{
  primary_archive, role_eq, is_public, public_name, File, Record,
}
use postgresbuild.Publication.Record.Files.{HasPublicName}
use postgresbuild.Publication.Record.Valid.{IsRecord, role_eq-eq, count-pos}
use postgresbuild.Publication.Fragment.{is_tag}
use postgresbuild.Publication.Snapshot.{Assets, Manifest, validate_snapshot}
use postgresbuild.Publication.Snapshot.Valid.{validate_snapshot-IsManifest}
use postgresbuild.Publication.Materialize.Encoding.{Bytes, Codec}
use postgresbuild.Publication.Fetch.{
  Reader, Artifact, Calls, Publisher, Fetched, name_of, public_items, is_published, read_manifest,
  fetch_items, fetch_archives, fetch_release, fetch_valid_snapshot, with_time,
}
use postgresbuild.Publication.Fetch.Verified.{
  IsContent, IsOffer, public_items-In, In-public_items, fetch_items-In, fetch_items_complete,
  then_call-In, then_call-eq-ok,
}

-- The release name of a valid record's primary archive.
pub primary-name :
    {repository tag : Text} {r : Record}
    → IsRecord repository tag r
    → (f : File) → In f r.files
    → role_eq primary_archive f.role ≡ true
    → name_of f ≡ public_name r.coordinate primary_archive tag
primary-name {repository} {tag} {r} v f i e =
    let named : HasPublicName repository tag r.coordinate f.role f.release_name f.source =
      (v.files.each f i).public_name in
    let q : primary_archive ≡ f.role = role_eq-eq primary_archive f.role e in
    let w : f.release_name ≡ some (public_name r.coordinate primary_archive tag) =
      (subst (λ x. HasPublicName repository tag r.coordinate x f.release_name f.source) (sym q)
        named).0 in
    ap (λ (o : Option Text). elim o [ none ↦ [] | some n ↦ n ]) w

In-branch :
    {a : Artifact} (b : Bool) (x : Calls Fetched)
    → In a (if◌then◌else◌ {A = Calls Fetched} b x ([], ok none)).0
    → (b ≡ true) × In a x.0
In-branch true x i = (refl, i)
In-branch false x i = elim i [ ]

module _ (platform : Platform) (codec : Codec) (hexdigest : Bytes → Text) (reader : Reader)
    (policy : Policy) (tag : Text) where
  abbrev manifest_of : Text → Fields → Result Manifest
  manifest_of = λ repository. read_manifest platform codec hexdigest reader policy repository tag

  read_manifest-Valid :
      (repository : Text) (release : Fields) {m : Manifest}
      → manifest_of repository release ≡ ok m
      → (assets : Assets) × (v : Json) × (validate_snapshot platform policy tag assets v ≡ ok m)
  unfolding read_manifest
  read_manifest-Valid repository release h = in-result _ _ h (λ _ _ h.
      in-result _ _ h (λ assets _ h. in-value _ _ _ h (λ _ _ h. in-value _ _ _ h (λ _ _ h.
        in-result _ _ h (λ _ _ h. in-check _ _ _ h (λ _ h. in-result _ _ h (λ _ _ h.
          in-check _ _ _ h (λ _ h. in-value _ _ _ h (λ v _ h. in-result _ _ h (λ m e h.
            in-result _ _ h (λ _ _ h. in-result _ _ h (λ _ _ h. in-check _ _ _ h (λ _ h.
              in-check _ _ _ h (λ _ h. in-check _ _ _ h (λ _ h. (
                assets,
                v,
                subst (λ (x : Manifest). validate_snapshot platform policy tag assets v ≡ ok x)
                    (ok-eq h) e,
              ))))))))))))))))

  records-valid :
      (repository : Text) (release : Fields) {m : Manifest}
      → manifest_of repository release ≡ ok m
      → (r : Record) → In r m.successful
      → IsRecord policy.repository tag r
  records-valid repository release h r i =
      let (assets, v, e) = read_manifest-Valid repository release h in
      (validate_snapshot-IsManifest policy tag assets platform v e).covered.valid r i

  -- The call publishes the primary archive of a record, with the bytes that it describes.
  pub record IsVerified (m : Manifest) (a : Artifact) : Type 0 where
    pub built : Record
    pub built_in : In built m.successful
    pub file : File
    pub file_in : In file built.files
    pub role : role_eq primary_archive file.role ≡ true
    pub tag_of : a.tag ≡ tag
    pub name : a.name ≡ public_name built.coordinate primary_archive tag
    pub content : IsContent hexdigest file a.content

  module _ (publish : Publisher) (repository : Text) where
    abbrev fetched : Calls Fetched
    fetched = fetch_valid_snapshot platform codec hexdigest reader policy publish tag repository

    -- The release that was read, and its snapshot.
    abbrev IsSource : Fields → Manifest → Type 0
    IsSource release m =
        (reader.release_by_tag repository tag ≡ ok (some release))
        × (is_published tag release ≡ true)
        × (manifest_of repository release ≡ ok m)

    offer-IsVerified :
        (release : Fields) {m : Manifest} {a : Artifact}
        → manifest_of repository release ≡ ok m
        → (f : File) → In f (public_items m.successful)
        → IsOffer hexdigest reader publish tag a f
        → IsVerified m a
    offer-IsVerified release {m} e f k o =
        let (r, j, i) = public_items-In m.successful k in
        record {
          built = r;
          built_in = j;
          file = f;
          file_in = i;
          role = o.role;
          tag_of = ap (λ (x : Artifact). x.tag) o.made;
          name =
              ap (λ (x : Artifact). x.name) o.made
              ∙ primary-name (records-valid repository release e r j) f i o.role;
          content = o.content;
        }

    archives-In :
        (release : Fields) (x : Result Manifest) (a : Artifact)
        → In a (fetch_archives hexdigest reader publish tag release x).0
        → (m : Manifest) × (x ≡ ok m)
          × ((f : File) × In f (public_items m.successful)
              × IsOffer hexdigest reader publish tag a f)
    unfolding fetch_archives
    archives-In release (err e) a i = elim i [ ]
    archives-In release (ok m) a i =
        elim (then_call-In (fetch_items hexdigest reader publish tag (public_items m.successful)) _
          i) [
            | inl j ↦
                (m, refl, fetch_items-In hexdigest reader publish tag (public_items m.successful) j)
            | inr j ↦ elim j [ ]
          ]

    release-In :
        (x : Result (Option Fields)) (a : Artifact)
        → reader.release_by_tag repository tag ≡ x
        → In a (fetch_release platform codec hexdigest reader policy publish tag repository x).0
        → (release : Fields) × (m : Manifest) × IsSource release m × IsVerified m a
    unfolding fetch_release
    release-In (err e) a q i = elim i [ ]
    release-In (ok none) a q i = elim i [ ]
    release-In (ok (some release)) a q i =
        let (published, j) = In-branch (is_published tag release) _ i in
        let (m, e, (f, k, o)) = archives-In release (manifest_of repository release) a j in
        (release, m, (q, published, e), offer-IsVerified release e f k o)

    -- Every call of `publish_artifact` that `fetch_valid_snapshot` makes, also where it fails later
    -- on, is for a published release of the tag whose snapshot is valid: it has the canonical name
    -- of the primary archive of a record of the snapshot, and bytes of the size and digest that
    -- the record's file states.
    pub published-IsVerified :
        (a : Artifact)
        → In a fetched.0
        → (release : Fields) × (m : Manifest) × IsSource release m × IsVerified m a
    unfolding fetch_valid_snapshot
    published-IsVerified a i =
        release-In (reader.release_by_tag repository tag) a refl
          (In-branch (text_eq repository policy.repository && is_tag platform tag) _ i).1

  module _ (publish : Artifact → Result (Unit {0})) (repository : Text) where
    abbrev run : Calls Fetched
    run = fetch_valid_snapshot platform codec hexdigest reader policy (some publish) tag repository

    abbrev archive_of : Record → Bytes → Artifact
    archive_of r content = record {
      tag = tag;
      name = public_name r.coordinate primary_archive tag;
      content = content;
    }

    with_time-same :
        (release : Fields) (n : Manifest) {m : Manifest} {t : Text}
        → with_time release n ≡ ok (some (m, t))
        → n ≡ m
    unfolding with_time
    with_time-same release n h =
        in-result _ _ h (λ _ _ h. ap (λ (x : Manifest × Text). x.0) (some-injective _ _ (ok-eq h)))

    archives_complete :
        (release : Fields) (x : Result Manifest) {m : Manifest} {t : Text} (r : Record)
        → manifest_of repository release ≡ x
        → (fetch_archives hexdigest reader (some publish) tag release x).1 ≡ ok (some (m, t))
        → In r m.successful
        → (content : Bytes) × In
            (archive_of r content)
            (fetch_archives hexdigest reader (some publish) tag release x).0
    unfolding fetch_archives with_time
    archives_complete release (err e) r q h i = cc
    archives_complete release (ok n) {m} {t} r q h i =
        let items = public_items n.successful in
        let (late, calls, done) =
          then_call-eq-ok hexdigest reader (fetch_items hexdigest reader (some publish) tag items)
            ([], with_time release n) h in
        let same : n ≡ m = with_time-same release n late in
        let j : In r n.successful = subst (λ (x : Manifest). In r x.successful) (sym same) i in
        let valid = records-valid repository release q r j in
        let (f, k, e) = count-pos primary_archive r.files valid.checked.one_primary in
        let role : primary_archive ≡ f.role = role_eq-eq primary_archive f.role e in
        let (content, l) =
          fetch_items_complete hexdigest reader publish tag items done
            (In-public_items n.successful j k (ap is_public (sym role))) e in
        (
          content,
          subst (In (archive_of r content)) (sym calls) (
              In-append_left [] (
                subst
                  (λ (x : Text).
                    In (record { tag = tag; name = x; content = content })
                      (fetch_items hexdigest reader (some publish) tag items).0)
                  (primary-name valid f k e) l)),
        )

    -- Where `fetch_valid_snapshot` returns a snapshot and may publish, it has published the
    -- primary archive of each of the snapshot's records under its canonical name.
    pub published_complete :
        (m : Manifest) (t : Text) (r : Record)
        → run.1 ≡ ok (some (m, t))
        → In r m.successful
        → (content : Bytes) × In (archive_of r content) run.0
    unfolding fetch_valid_snapshot fetch_release
    published_complete m t r h i =
        in_release (reader.release_by_tag repository tag)
          (text_eq repository policy.repository && is_tag platform tag) h
      where
        in_fetched :
            (b : Bool) (release : Fields)
            → (if◌then◌else◌ {A = Calls Fetched} b
                (fetch_archives hexdigest reader
                  (some publish)
                  tag
                  release
                  (manifest_of repository release))
                ([], ok none)).1
              ≡ ok (some (m, t))
            → (content : Bytes) × In
                (archive_of r content)
                (if◌then◌else◌ {A = Calls Fetched} b
                  (fetch_archives hexdigest reader
                    (some publish)
                    tag
                    release
                    (manifest_of repository release))
                  ([], ok none)).0
        in_fetched true release h =
            archives_complete release (manifest_of repository release) r refl h i
        in_fetched false release h = cc

        in_release :
            (x : Result (Option Fields)) (b : Bool)
            → (if◌then◌else◌ {A = Calls Fetched} b
                (fetch_release platform codec hexdigest reader policy
                  (some publish)
                  tag
                  repository
                  x)
                ([], ok none)).1
              ≡ ok (some (m, t))
            → (content : Bytes) × In
                (archive_of r content)
                (if◌then◌else◌ {A = Calls Fetched} b
                  (fetch_release platform codec hexdigest reader policy
                    (some publish)
                    tag
                    repository
                    x)
                  ([], ok none)).0
        in_release (err e) true h = cc
        in_release (ok none) true h = cc
        in_release (ok (some release)) true h = in_fetched (is_published tag release) release h
        in_release (err e) false h = cc
        in_release (ok none) false h = cc
        in_release (ok (some release)) false h = cc
