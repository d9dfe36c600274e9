-- ===== src/Publication/Materialize/Moves.antt =====
-- Each request of `materialize`, answered by the store: it takes nothing away, and the writer
-- knows what the next request needs.
use mathlib.Core.Option.{some-injective}
use postgresbuild.Prelude.{
  ℕ, zero, suc, ◌≡◌, refl, sym, ap, subst, ◌∙◌, Bool, true, false, Option, none, some, List, In, ok,
  err, if◌then◌else◌,
}
use postgresbuild.Prelude.Text.{Text}
use postgresbuild.Publication.Platform.{Platform}
use postgresbuild.Publication.Fragment.{Fragment}
use postgresbuild.Publication.Index.{Index, index_json}
use postgresbuild.Publication.Materialize.{
  Program, done, Etag, etag_of, check_existing, payload, after_list, after_get, attempt, start,
}
use postgresbuild.Publication.Materialize.Encoding.{Codec, Bytes}
use postgresbuild.Publication.Materialize.Store.{
  BlobStore, step, fragment_path, written, blob_error,
}
use postgresbuild.Publication.Materialize.Tags.{index_tags}
use postgresbuild.Publication.Materialize.Plan.{IsValid}
use postgresbuild.Publication.Materialize.Knowledge.{
  tags_or_none, known_tags, live_tags, IsStored, Backed, Grows, Seen, tags_after, At, at_put,
  at_get, at_list, at_swap, finished, failed, Grows-IsStored, Moved, dumped_tags, At-after_plan,
  At-after_check,
}

module _ (platform : Platform) (codec : Codec) (repository : Text) (store : BlobStore) where
  abbrev Move : Fragment → store.State → Program × store.State → Type 0
  Move = Moved platform codec repository store

  abbrev tags_of_index : Option (Bytes × Etag) → List Text
  tags_of_index = known_tags platform codec repository store

  -- A step that keeps the index and loses no fragment.
  quiet :
      (item : Fragment) (s : store.State) (p : Program) (s' : store.State)
      → store.read_index s' ≡ store.read_index s
      → ((raw : Bytes) → In raw (store.stored s) → In raw (store.stored s'))
      → Backed platform codec repository store s
      → At platform codec repository store item s' p
      → Move item s (p, s')
  quiet item s p s' q f b a =
      let g : Grows platform codec repository store s s' = record {
        fragments = f;
        tags = λ t m. subst (λ o. In t (tags_of_index o)) (sym q) m;
      } in
      record {
        grows = g;
        backed = λ t m.
            Grows-IsStored platform codec repository store g
              (b t (subst (λ o. In t (tags_of_index o)) q m));
        known = a;
      }

  still :
      (item : Fragment) (s : store.State) (p : Program)
      → Backed platform codec repository store s
      → At platform codec repository store item s p
      → Move item s (p, s)
  still item s p b a = quiet item s p s refl (λ raw m. m) b a

  Move-put :
      (item : Fragment) (s : store.State)
      → Backed platform codec repository store s
      → (o : Option store.State)
      → store.write_fragment (fragment_path item.tag) (payload platform codec repository item) s ≡ o
      → Move item s (written store (attempt platform codec repository 8 item) s o)
  Move-put item s b none e = still item s (done (err blob_error)) b (failed blob_error refl)
  Move-put item s b (some s') e =
      quiet item s (attempt platform codec repository 8 item) s' (store.write_index _ _ s e)
        (λ raw m. store.write_keeps _ _ s e m) b (at_get 8 (store.write_adds item.tag _ s e) refl)

  Move-get :
      (item : Fragment) (s : store.State) (n : ℕ)
      → Backed platform codec repository store s
      → In (payload platform codec repository item) (store.stored s)
      → Move item s (step store (attempt platform codec repository n item) s)
  unfolding step attempt after_get
  Move-get item s zero b m = still item s _ b (failed _ refl)
  Move-get item s (suc n) b m = still item s _ b (
      At-after_check platform codec repository store item s n b m
        (check_existing platform codec repository (store.read_index s)))

  -- The version that a won swap replaces has the content that was read.
  same_tags :
      (o existing : Option (Bytes × Etag))
      → ((c : Bytes) (e : Etag) → o ≡ some (c, e) → store.content_by_etag e ≡ c)
      → ((c : Bytes) (e : Etag) → existing ≡ some (c, e) → store.content_by_etag e ≡ c)
      → etag_of o ≡ etag_of existing
      → tags_of_index o ≡ tags_of_index existing
  same_tags none none p q h = refl
  same_tags none (some (c, e)) p q h = cc
  same_tags (some (c, e)) none p q h = cc
  same_tags (some (c, e)) (some (d, f)) p q h =
      ap (index_tags codec)
        (sym (p c e refl) ∙ ap store.content_by_etag (some-injective e f h) ∙ q d f refl)

  module _ (item : Fragment) (s : store.State) (n : ℕ) (existing : Option (Bytes × Etag))
      (index : Index) (b : Backed platform codec repository store s)
      (m : In (payload platform codec repository item) (store.stored s))
      (k : Seen platform codec repository store existing s)
      (own : In item.tag (tags_after platform codec repository store index))
      (all : (t : Text)
        → In t (tags_after platform codec repository store index)
        → IsStored platform codec repository store t s)
      (more : (t : Text)
        → In t (tags_of_index existing)
        → In t (tags_after platform codec repository store index)) where
    abbrev answer : Bool × store.State
    answer = store.swap_index (codec.dumps (index_json index)) (etag_of existing) s

    abbrev next : Bool → Program
    next won = if won then done (ok index) else attempt platform codec repository n item

    stored_after : {raw : Bytes} → In raw (store.stored s) → In raw (store.stored answer.1)
    stored_after {raw} i = subst (In raw) (sym (store.swap_stored _ _ s)) i

    Move-swap : (won : Bool) → answer.0 ≡ won → Move item s (next won, answer.1)
    Move-swap false e =
        quiet item s (next false) answer.1 (store.swap_lost _ _ s e) (λ raw i. stored_after i) b
          (at_get n (stored_after m) refl)
    Move-swap true e =
        let now : live_tags platform codec repository store answer.1
            ≡ tags_after platform codec repository store index =
          ap (tags_or_none (index_tags codec)) (store.swap_won _ _ s e)
          ∙ dumped_tags platform codec repository store index in
        let before : live_tags platform codec repository store s ≡ tags_of_index existing =
          same_tags (store.read_index s) existing (λ c e h. store.etag_strong s h)
            (λ c e h. k.strong h) (store.swap_match _ _ s e) in
        let g : Grows platform codec repository store s answer.1 = record {
          fragments = λ raw i. stored_after i;
          tags = λ t i. subst (In t) (sym now) (more t (subst (In t) before i));
        } in
        record {
          grows = g;
          backed =
              λ t i. Grows-IsStored platform codec repository store g (all t (subst (In t) now i));
          known = finished index (subst (In item.tag) (sym now) own) refl;
        }

  -- Any step of a writer that has a valid fragment.
  pub move :
      (item : Fragment) (s : store.State) (p : Program)
      → IsValid platform codec repository item
      → Backed platform codec repository store s
      → At platform codec repository store item s p
      → Move item s (step store p s)
  unfolding step start
  move item s p v b (at_put e) =
      subst (λ (p : Program). Move item s (step store p s)) (sym e) (Move-put item s b _ refl)
  move item s p v b (at_get n m e) =
      subst (λ (p : Program). Move item s (step store p s)) (sym e) (Move-get item s n b m)
  move item s p v b (at_list n existing m k e) =
      subst (λ (p : Program). Move item s (step store p s)) (sym e)
        (still item s _ b (
          unfold after_list in
          At-after_plan platform codec repository store item s n existing v m k _ refl))
  move item s p v b (at_swap n existing index m k own all more e) =
      subst (λ (p : Program). Move item s (step store p s)) (sym e)
        (Move-swap item s n existing index b m k own all more _ refl)
  move item s p v b (finished index m e) =
      subst (λ (p : Program). Move item s (step store p s)) (sym e)
        (still item s (done (ok index)) b (finished index m refl))
  move item s p v b (failed x e) =
      subst (λ (p : Program). Move item s (step store p s)) (sym e)
        (still item s (done (err x)) b (failed x refl))
