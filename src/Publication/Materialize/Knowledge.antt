-- ===== src/Publication/Materialize/Knowledge.antt =====
-- What a writer knows at each of its requests, and that no request of any writer takes it away.
use postgresbuild.Prelude.{
  ℕ, ◌≡◌, refl, sym, ap, subst, ◌∙◌, true, Bool-cases, inl, inr, Option, none, some, List, [], In,
  Result, Exn, ok, err, if◌then◌else◌,
}
use postgresbuild.Prelude.Text.{Text, text_eq-eq}
use postgresbuild.Publication.Platform.{Platform}
use postgresbuild.Publication.Fragment.{Fragment}
use postgresbuild.Publication.Index.{Index, index_json}
use postgresbuild.Publication.Materialize.{
  Program, done, list_fragments, put_cas, Etag, etag_of, is_current, plan, payload, after_list,
  after_plan, after_check, attempt, start,
}
use postgresbuild.Publication.Materialize.Encoding.{Codec, Bytes}
use postgresbuild.Publication.Materialize.Store.{BlobStore, content_of}
use postgresbuild.Publication.Materialize.Tags.{tags_of, index_tags, index_tags-dumps}
use postgresbuild.Publication.Materialize.Plan.{
  Listed, payload-tag, IsValid, plan-own, plan-cases, plan-Listed,
}

abbrev pub tags_or_none : (Bytes → List Text) → Option Bytes → List Text
tags_or_none f none = []
tags_or_none f (some c) = f c

module _ (platform : Platform) (codec : Codec) (repository : Text) (store : BlobStore) where
  abbrev pub known_tags : Option (Bytes × Etag) → List Text
  known_tags existing = tags_or_none (index_tags codec) (content_of existing)

  -- The tags of the stored index.
  abbrev pub live_tags : store.State → List Text
  live_tags s = known_tags (store.read_index s)

  abbrev pub IsStored : Text → store.State → Type 0
  IsStored t s = Listed platform codec repository t (store.stored s)

  -- Every tag of the index is that of a stored fragment.
  abbrev pub Backed : store.State → Type 0
  Backed s = (t : Text) → In t (live_tags s) → IsStored t s

  -- Nothing is taken away on the way from one state to the other.
  pub record Grows (s s' : store.State) : Type 0 where
    pub fragments : (raw : Bytes) → In raw (store.stored s) → In raw (store.stored s')
    pub tags : (t : Text) → In t (live_tags s) → In t (live_tags s')

  -- What was read is strong and no longer than what is there now.
  pub record Seen (existing : Option (Bytes × Etag)) (s : store.State) : Type 0 where
    pub strong : {c : Bytes} {e : Etag} → existing ≡ some (c, e) → store.content_by_etag e ≡ c
    pub live : (t : Text) → In t (known_tags existing) → In t (live_tags s)
    pub listed : (t : Text) → In t (known_tags existing) → IsStored t s

  abbrev pub tags_after : Index → List Text
  tags_after index = tags_of (index_json index)

  -- What is known at each request of the loop.
  pub data At (item : Fragment) (s : store.State) (p : Program) : Type 0 where
    at_put : p ≡ start platform codec repository item → At item s p
    at_get :
        (n : ℕ)
        → In (payload platform codec repository item) (store.stored s)
        → p ≡ attempt platform codec repository n item
        → At item s p
    at_list :
        (n : ℕ) (existing : Option (Bytes × Etag))
        → In (payload platform codec repository item) (store.stored s)
        → Seen existing s
        → p
          ≡ list_fragments (
              after_list platform codec repository
                (attempt platform codec repository n item)
                item
                existing)
        → At item s p
    at_swap :
        (n : ℕ) (existing : Option (Bytes × Etag)) (index : Index)
        → In (payload platform codec repository item) (store.stored s)
        → Seen existing s
        → In item.tag (tags_after index)
        → ((t : Text) → In t (tags_after index) → IsStored t s)
        → ((t : Text) → In t (known_tags existing) → In t (tags_after index))
        → p
          ≡ put_cas
              (codec.dumps (index_json index))
              (etag_of existing)
              (λ won. if won then done (ok index) else attempt platform codec repository n item)
        → At item s p
    finished : (index : Index) → In item.tag (live_tags s) → p ≡ done (ok index) → At item s p
    failed : (e : Exn) → p ≡ done (err e) → At item s p

  pub Grows-IsStored : {s s' : store.State} {t : Text} → Grows s s' → IsStored t s → IsStored t s'
  Grows-IsStored g (raw, m, e) = (raw, g.fragments raw m, e)

  pub Grows-Seen :
      {existing : Option (Bytes × Etag)} {s s' : store.State}
      → Grows s s'
      → Seen existing s
      → Seen existing s'
  Grows-Seen g k = record {
    strong = k.strong;
    live = λ t m. g.tags t (k.live t m);
    listed = λ t m. Grows-IsStored g (k.listed t m);
  }

  -- What a writer knows stays true while others move.
  pub Grows-At :
      {item : Fragment} {s s' : store.State} {p : Program} → Grows s s' → At item s p → At item s' p
  Grows-At g (at_put e) = at_put e
  Grows-At g (at_get n m e) = at_get n (g.fragments _ m) e
  Grows-At g (at_list n existing m k e) = at_list n existing (g.fragments _ m) (Grows-Seen g k) e
  Grows-At g (at_swap n existing index m k own all more e) =
      at_swap n existing index (g.fragments _ m) (Grows-Seen g k) own
        (λ t i. Grows-IsStored g (all t i)) more e
  Grows-At g (finished index m e) = finished index (g.tags _ m) e
  Grows-At g (failed x e) = failed x e

  pub Grows-refl : (s : store.State) → Grows s s
  Grows-refl s = record { fragments = λ raw m. m; tags = λ t m. m }

  pub Grows-trans : {s t u : store.State} → Grows s t → Grows t u → Grows s u
  Grows-trans g h = record {
    fragments = λ raw m. h.fragments raw (g.fragments raw m);
    tags = λ t m. h.tags t (g.tags t m);
  }

  -- A step of a writer: what it leaves of the store, and what the writer then knows.
  pub record Moved (item : Fragment) (s : store.State) (next : Program × store.State) : Type 0 where
    pub grows : Grows s next.1
    pub backed : Backed next.1
    pub known : At item next.1 next.0

  pub no_tags : (o : Option (Bytes × Etag)) → etag_of o ≡ none → known_tags o ≡ []
  no_tags none h = refl
  no_tags (some (c, e)) h = cc

  -- The round's own tag, and what else its index lists.
  own-IsStored :
      (item : Fragment) (s : store.State)
      → IsValid platform codec repository item
      → In (payload platform codec repository item) (store.stored s)
      → IsStored item.tag s
  own-IsStored item s v m =
      (payload platform codec repository item, m, payload-tag platform codec repository item v)

  pub dumped_tags :
      (index : Index) → index_tags codec (codec.dumps (index_json index)) ≡ tags_after index
  dumped_tags index = index_tags-dumps codec (index_json index)

  current_tags :
      (existing : Option (Bytes × Etag)) (index : Index)
      → is_current existing (codec.dumps (index_json index)) ≡ true
      → known_tags existing ≡ tags_after index
  current_tags none index h = cc
  current_tags (some (c, e)) index h =
      ap (index_tags codec) (text_eq-eq c (codec.dumps (index_json index)) h) ∙ dumped_tags index

  -- After the listing.
  pub At-after_plan :
      (item : Fragment) (s : store.State) (n : ℕ) (existing : Option (Bytes × Etag))
      → IsValid platform codec repository item
      → In (payload platform codec repository item) (store.stored s)
      → Seen existing s
      → (r : Result Index) → plan platform codec repository item (store.stored s) ≡ r
      → At item s (
          after_plan platform codec repository
            (attempt platform codec repository n item)
            existing
            r)
  unfolding after_plan
  At-after_plan item s n existing v m k (err x) e = failed x refl
  At-after_plan item s n existing v m k (ok index) e =
      let own = plan-own platform codec repository item (store.stored s) e in
      elim (Bool-cases (is_current existing (codec.dumps (index_json index)))) [
        | inl c ↦
            let live =
              k.live item.tag (subst (In item.tag) (sym (current_tags existing index c)) own) in
            rw c (finished index live refl)
        | inr c ↦ rw c (
            at_swap n existing index m k own
              (λ t i. elim (plan-cases platform codec repository item (store.stored s) e i) [
                | inl q ↦ subst (λ x. IsStored x s) (sym q) (own-IsStored item s v m)
                | inr l ↦ l
              ])
              (λ t i. plan-Listed platform codec repository item (store.stored s) e (k.listed t i))
              refl)
      ]

  pub At-after_check :
      (item : Fragment) (s : store.State) (n : ℕ)
      → Backed s
      → In (payload platform codec repository item) (store.stored s)
      → (r : Result (Unit {0}))
      → At item s (
          after_check platform codec repository
            (attempt platform codec repository n item)
            item
            (store.read_index s)
            r)
  unfolding after_check
  At-after_check item s n b m (err x) = failed x refl
  At-after_check item s n b m (ok u) =
      let k : Seen (store.read_index s) s = record {
        strong = λ h. store.etag_strong s h;
        live = λ t i. i;
        listed = b;
      } in
      at_list n (store.read_index s) m k refl
