-- ===== src/Publication/Feed/Total.antt =====
-- The feed can be made of every index of valid records whose versions are of the grammar.
use mathlib.Core.List.Permᴰ
use mathlib.Core.Option.{some-injective}
use postgresbuild.Publication.Feed.Exact.{with_key-group}
use postgresbuild.Prelude.{
  ◌≡◌, refl, sym, ap, ◌∙◌, Bool, true, false, Option, none, some, List, [], ◌∷◌, ◌++◌, find,
  find-eq-some, if◌then◌else◌, subst, In, here, there, String, Result, ok, ok-eq, in-result, >>=-ok,
  expect-ok, traverse, traverse-In,
}
use postgresbuild.Prelude.Text.{Text, codes, is, quote, text_eq, text_eq_refl}
use postgresbuild.Prelude.Sort.{sort, sort-perm, In-perm}
use postgresbuild.Version.{version_key, postgres_semver}
use postgresbuild.Publication.Record.{
  primary_archive, role_eq, public_name, release_url, File, Record,
}
use postgresbuild.Publication.Record.Files.{HasPublicName}
use postgresbuild.Publication.Record.Valid.{IsRecord, role_eq-eq, count-pos}
use postgresbuild.Publication.Index.{Snapshot}
use postgresbuild.Publication.Fetch.{name_of}
use postgresbuild.Publication.Fetch.Published.{primary-name}
use postgresbuild.Publication.Feed.{
  Entry, consumer_artifact_url, record_entry, entry_of, Group, append_entry, group_entries, Keyed,
  with_key, later_version, line_of, Line, snapshot_lines, all_lines,
}

abbrev Succeeds {ℓ} : {A : Type ℓ} → Result A → Type ℓ
Succeeds {A} r = (a : A) × (r ≡ ok a)

traverse-Succeeds :
    {A B : Type 0} (f : A → Result B) (xs : List A)
    → ((x : A) → In x xs → Succeeds (f x))
    → Succeeds (traverse f xs)
unfolding traverse
traverse-Succeeds f [] h = ([], refl)
traverse-Succeeds f (x ∷ xs) h =
    let (y, p) = h x (here refl) in
    let (ys, q) = traverse-Succeeds f xs (λ z m. h z (there m)) in
    (y ∷ ys, >>=-ok (f x) _ p ∙ >>=-ok (traverse f xs) _ q)

-- The parts of an address that could be made can be quoted.
release_url-quote :
    (repository tag name : Text) {url : Text}
    → release_url repository tag name ≡ ok url
    → Succeeds (quote tag) × Succeeds (quote name)
unfolding release_url
release_url-quote repository tag name h =
    in-result _ _ h (λ t p h. in-result _ _ h (λ n q _. ((t, p), (n, q))))

consumer_artifact_url-Succeeds :
    (route : String) (tag name : Text)
    → Succeeds (quote tag)
    → Succeeds (quote name)
    → Succeeds (consumer_artifact_url route tag name)
unfolding consumer_artifact_url
consumer_artifact_url-Succeeds route tag name (t, p) (n, q) =
    (_, >>=-ok (quote tag) _ p ∙ >>=-ok (quote name) _ q)

find-In :
    {A : Type 0} (p : A → Bool) (xs : List A) {y : A}
    → In y xs
    → p y ≡ true
    → (z : A) × (find p xs ≡ some z)
find-In p [] m h = elim m [ ]
find-In {A} p (x ∷ xs) {y} m h = with_test (p x) refl (λ k. find-In p xs k h) m
  where
    with_test :
        (b : Bool)
        → p x ≡ b
        → (In y xs → (z : A) × (find p xs ≡ some z))
        → In y (x ∷ xs)
        → (z : A) × ((if b then some x else find p xs) ≡ some z)
    with_test true e rest k = (x, refl)
    with_test false e rest (here q) = cc (e, ap p q, h)
    with_test false e rest (there k) = rest k

module _ (repository tag : Text) (r : Record) (v : IsRecord repository tag r) where
  -- The name of every primary archive can be quoted, and so can the tag.
  primary-Succeeds :
      (f : File)
      → In f r.files
      → role_eq primary_archive f.role ≡ true
      → Succeeds (quote tag) × Succeeds (quote (name_of f))
  primary-Succeeds f i e =
      let q : primary_archive ≡ f.role = role_eq-eq primary_archive f.role e in
      let named =
        subst (λ x. HasPublicName repository tag r.coordinate x f.release_name f.source) (sym q)
          (v.files.each f i).public_name in
      let (t, n) =
        release_url-quote repository tag (public_name r.coordinate primary_archive tag) named.1.1 in
      (t, subst (λ x. Succeeds (quote x)) (sym (primary-name v f i e)) n)

  record_entry-ok : (e : Entry) × (record_entry tag r ≡ ok (some (r.coordinate.source_version, e)))
  unfolding record_entry
  record_entry-ok =
      let is_primary = λ (f : File). role_eq primary_archive f.role in
      let (g, j, w) = count-pos primary_archive r.files v.checked.one_primary in
      let (f, p) = find-In is_primary r.files j w in
      let (i, e) = find-eq-some is_primary r.files p in
      let (t, n) = primary-Succeeds f i e in
      let (first, q) = consumer_artifact_url-Succeeds "artifacts" tag (name_of f) t n in
      let (second, z) = consumer_artifact_url-Succeeds "artifact-fallback" tag (name_of f) t n in
      (_, expect-ok _ _ _ p ∙ (>>=-ok _ _ q ∙ >>=-ok _ _ z))

  entry_of-ok : (e : Entry) × (entry_of tag r ≡ ok (some (r.coordinate.source_version, e)))
  unfolding entry_of is
  entry_of-ok =
      let (e, p) = record_entry-ok in
      let named : is r.coordinate.package_name "postgresql" ≡ true =
        rw v.postgresql (text_eq_refl (codes "postgresql")) in
      (e, rw named p)

module _ (P : Text → Type 0) where
  abbrev Good : List Group → Type 0
  Good gs = (g : Group) → In g gs → P g.version

  append_entry-Good :
      (v : Text) (e : Entry) (gs : List Group) → P v → Good gs → Good (append_entry v e gs)
  unfolding append_entry
  append_entry-Good v e [] p h =
      λ g m. elim m [ here q ↦ subst (λ (x : Group). P x.version) (sym q) p | there i ↦ elim i [ ] ]
  append_entry-Good v e (g ∷ gs) p h =
      with_test (text_eq g.version v) (append_entry-Good v e gs p (λ x i. h x (there i)))
    where
      grown : Group
      grown = record { version = g.version; entries = g.entries ++ e ∷ [] }

      with_test :
          (b : Bool)
          → Good (append_entry v e gs)
          → Good (if b then grown ∷ gs else g ∷ append_entry v e gs)
      with_test true rest x (here q) = subst (λ (y : Group). P y.version) (sym q) (h g (here refl))
      with_test true rest x (there i) = h x (there i)
      with_test false rest x (here q) = subst (λ (y : Group). P y.version) (sym q) (h g (here refl))
      with_test false rest x (there i) = rest x i

  group_entries-Good :
      (es : List (Option (Text × Entry))) (gs : List Group)
      → ((v : Text) (e : Entry) → In (some (v, e)) es → P v)
      → Good gs
      → Good (group_entries es gs)
  unfolding group_entries
  group_entries-Good [] gs p h = h
  group_entries-Good (none ∷ es) gs p h = group_entries-Good es gs (λ v e i. p v e (there i)) h
  group_entries-Good (some (v, e) ∷ es) gs p h =
      group_entries-Good es (append_entry v e gs) (λ w d i. p w d (there i))
        (append_entry-Good v e gs (p v e (here refl)) h)

abbrev HasKey : Text → Type 0
HasKey v = Succeeds (version_key v)

with_key-ok : (g : Group) → HasKey g.version → (k : Keyed) × (with_key g ≡ ok k)
unfolding with_key
with_key-ok g (k, e) = (_, >>=-ok (version_key g.version) _ e)

line_of-ok :
    (published_at tag : Text) (k : Keyed)
    → HasKey k.group.version
    → Succeeds (line_of published_at tag k)
unfolding line_of postgres_semver
line_of-ok published_at tag k (n, e) =
    (_, >>=-ok (postgres_semver k.group.version) _ (>>=-ok (version_key k.group.version) _ e))

-- A snapshot whose records are valid, with versions of the grammar.
abbrev pub IsReadable : Text → Snapshot → Type 0
IsReadable repository s =
    (r : Record)
    → In r s.successful
    → IsRecord repository s.tag r × HasKey r.coordinate.source_version

module _ (repository : Text) where
  snapshot_lines-ok : (s : Snapshot) → IsReadable repository s → Succeeds (snapshot_lines s)
  unfolding snapshot_lines
  snapshot_lines-ok s h =
      let (es, p) =
        traverse-Succeeds (entry_of s.tag) s.successful
          (λ r i. let (e, q) = entry_of-ok repository s.tag r (h r i).0 in (_, q)) in
      let good = group_entries-Good HasKey es [] (given es p) (λ g i. elim i [ ]) in
      let (ks, q) =
        traverse-Succeeds with_key (group_entries es []) (λ g i. with_key-ok g (good g i)) in
      let (ls, w) =
        traverse-Succeeds (line_of s.published_at s.tag) (sort later_version ks)
          (λ k i. line_of-ok s.published_at s.tag k (keyed es ks good q k i)) in
      (ls, >>=-ok _ _ p ∙ (>>=-ok _ _ q ∙ w))
    where
      given :
          (es : List (Option (Text × Entry)))
          → traverse (entry_of s.tag) s.successful ≡ ok es
          → (v : Text) (e : Entry) → In (some (v, e)) es
          → HasKey v
      given es p v e i =
          let (r, j, q) = traverse-In (entry_of s.tag) s.successful p i in
          let (d, w) = entry_of-ok repository s.tag r (h r j).0 in
          let same : r.coordinate.source_version ≡ v =
            ap (λ (x : Text × Entry). x.0) (some-injective _ _ (ok-eq (sym w ∙ q))) in
          subst HasKey same (h r j).1

      keyed :
          (es : List (Option (Text × Entry))) (ks : List Keyed)
          → Good HasKey (group_entries es [])
          → traverse with_key (group_entries es []) ≡ ok ks
          → (k : Keyed) → In k (sort later_version ks)
          → HasKey k.group.version
      keyed es ks good q k i =
          let (g, j, w) =
            traverse-In with_key (group_entries es []) q
              (In-perm (Permᴰ.symm (sort-perm later_version ks)) i) in
          subst (λ (x : Group). HasKey x.version) (with_key-group g w) (good g j)

  -- The feed can be made of every list of snapshots whose records are valid for the snapshot's tag
  -- and have versions that `_postgres_version_key` accepts.
  pub all_lines-ok :
      (ss : List Snapshot)
      → ((s : Snapshot) → In s ss → IsReadable repository s)
      → (ls : List Line) × (all_lines ss ≡ ok ls)
  unfolding all_lines
  all_lines-ok [] h = ([], refl)
  all_lines-ok (s ∷ ss) h =
      let (ls, p) = snapshot_lines-ok s (h s (here refl)) in
      let (rest, q) = all_lines-ok ss (λ x i. h x (there i)) in
      (ls ++ rest, >>=-ok (snapshot_lines s) _ p ∙ >>=-ok (all_lines ss) _ q)
