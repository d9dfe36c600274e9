-- ===== src/Publication/Materialize/NoLostUpdate.antt =====
-- Several calls of `materialize` on one store, their requests in any order.
use postgresbuild.Prelude.{
  ℕ, zero, suc, ◌≡◌, refl, sym, ap, subst, inl, inr, List, [], ◌∷◌, In, here, there, map, Result,
  Exn, ok, err, ◌++◌, Result-cases,
}
use postgresbuild.Prelude.Text.{Text}
use postgresbuild.Json.{Fields}
use postgresbuild.Publication.Platform.{Platform}
use postgresbuild.Publication.Fragment.{Fragment}
use postgresbuild.Publication.Index.{Index}
use postgresbuild.Publication.Materialize.{
  Program, done, start, attempt, prepare, after_prepare, materialize,
}
use postgresbuild.Publication.Materialize.Encoding.{Codec}
use postgresbuild.Publication.Materialize.Store.{
  BlobStore, Writer, writer, step, step_at, run, with_program,
}
use postgresbuild.Publication.Materialize.Plan.{prepare-IsValid}
use postgresbuild.Publication.Materialize.Knowledge.{
  live_tags, Backed, Grows, At, at_put, at_get, at_list, at_swap, finished, failed, Grows-At,
  Grows-refl, Grows-trans,
}
use postgresbuild.Publication.Materialize.Moves.{move}

module _ (platform : Platform) (codec : Codec) (repository : Text) (store : BlobStore) where
  abbrev fragment_of : Writer → Result Fragment
  fragment_of w = prepare platform codec repository w.snapshot w.published_at

  -- A writer whose snapshot was refused, or one that works on its fragment.
  data Working (s : store.State) (w : Writer) : Type 0 where
    refused : (e : Exn) → w.program ≡ done (err e) → Working s w
    working :
        (item : Fragment)
        → fragment_of w ≡ ok item
        → At platform codec repository store item s w.program
        → Working s w

  abbrev AllWorking : store.State → List Writer → Type 0
  AllWorking s ws = (w : Writer) → In w ws → Working s w

  abbrev Growing : store.State → store.State → Type 0
  Growing = Grows platform codec repository store

  abbrev IsBacked : store.State → Type 0
  IsBacked = Backed platform codec repository store

  Grows-Working : {s s' : store.State} {w : Writer} → Growing s s' → Working s w → Working s' w
  Grows-Working g (refused e q) = refused e q
  Grows-Working g (working item q a) = working item q (Grows-At platform codec repository store g a)

  record Ran (s : store.State) (next : List Writer × store.State) : Type 0 where
    grows : Growing s next.1
    backed : IsBacked next.1
    all : AllWorking next.1 next.0

  Working-start :
      (s : store.State) (r : Fields × Text) → Working s (writer platform codec repository r)
  unfolding writer materialize after_prepare
  Working-start s (snapshot, published_at) =
      elim (Result-cases (prepare platform codec repository snapshot published_at)) [
        | inl (item, e) ↦ working item e (at_put (ap (after_prepare platform codec repository) e))
        | inr (x, e) ↦ refused x (ap (after_prepare platform codec repository) e)
      ]

  step-Working :
      (w : Writer) (s : store.State)
      → IsBacked s
      → Working s w
      → Growing s (step store w.program s).1
        × IsBacked (step store w.program s).1
        × Working (step store w.program s).1 (with_program store w (step store w.program s).0)
  unfolding step
  step-Working w s b (refused e q) =
      subst
        (λ (p : Program).
          Growing s (step store p s).1
          × IsBacked (step store p s).1
          × Working (step store p s).1 (with_program store w (step store p s).0))
        (sym q) (Grows-refl platform codec repository store s, b, refused e refl)
  step-Working w s b (working item q a) =
      let m =
        move platform codec repository store item s w.program
          (prepare-IsValid platform codec repository w.snapshot w.published_at q) b a in
      (m.grows, m.backed, working item q m.known)

  step_at-Ran :
      (n : ℕ) (ws : List Writer) (s : store.State)
      → IsBacked s
      → AllWorking s ws
      → Ran s (step_at store n ws s)
  unfolding step_at
  step_at-Ran n [] s b a = record {
    grows = Grows-refl platform codec repository store s;
    backed = b;
    all = a;
  }
  step_at-Ran zero (w ∷ ws) s b a =
      let (g, c, k) = step-Working w s b (a w (here refl)) in
      record {
        grows = g;
        backed = c;
        all = λ x m. elim m [
          | here e ↦ subst (Working _) (sym e) k
          | there i ↦ Grows-Working g (a x (there i))
        ];
      }
  step_at-Ran (suc n) (w ∷ ws) s b a =
      let r = step_at-Ran n ws s b (λ x m. a x (there m)) in
      record {
        grows = r.grows;
        backed = r.backed;
        all = λ x m. elim m [
          | here e ↦ subst (Working _) (sym e) (Grows-Working r.grows (a w (here refl)))
          | there i ↦ r.all x i
        ];
      }

  run-Ran :
      (ns : List ℕ) (ws : List Writer) (s : store.State)
      → IsBacked s
      → AllWorking s ws
      → Ran s (run store ns ws s)
  unfolding run
  run-Ran [] ws s b a = record {
    grows = Grows-refl platform codec repository store s;
    backed = b;
    all = a;
  }
  run-Ran (n ∷ ns) ws s b a =
      let r = step_at-Ran n ws s b a in
      let q = run-Ran ns (step_at store n ws s).0 (step_at store n ws s).1 r.backed r.all in
      record {
        grows = Grows-trans platform codec repository store r.grows q.grows;
        backed = q.backed;
        all = q.all;
      }

  run-append :
      (ns ms : List ℕ) (ws : List Writer) (s : store.State)
      → run store (ns ++ ms) ws s ≡ run store ms (run store ns ws s).0 (run store ns ws s).1
  unfolding run
  run-append [] ms ws s = refl
  run-append (n ∷ ns) ms ws s = run-append ns ms _ _

  abbrev writers : List (Fields × Text) → List Writer
  writers = map (writer platform codec repository)

  Working-writers : (s : store.State) (rs : List (Fields × Text)) → AllWorking s (writers rs)
  Working-writers s [] w m = elim m [ ]
  Working-writers s (r ∷ rs) w (here e) = subst (Working s) (sym e) (Working-start s r)
  Working-writers s (r ∷ rs) w (there m) = Working-writers s rs w m

  module _ (rs : List (Fields × Text)) (s : store.State) (b : IsBacked s) (ns ms : List ℕ) where
    abbrev before : List Writer × store.State
    before = run store ns (writers rs) s

    abbrev after : List Writer × store.State
    after = run store (ns ++ ms) (writers rs) s

    first_part : Ran s before
    first_part = run-Ran ns (writers rs) s b (Working-writers s rs)

    second_part : Ran before.1 after
    second_part =
        subst (Ran before.1) (sym (run-append ns ms (writers rs) s))
          (run-Ran ms before.0 before.1 first_part.backed first_part.all)

    -- However the requests of any number of calls of `materialize` interleave on a store whose
    -- index lists only tags of stored fragments: a tag that the index lists at some time is listed
    -- ever after, and then too each tag of the index is that of a stored fragment.
    pub no_lost_update :
        ((t : Text)
          → In t (live_tags platform codec repository store before.1)
          → In t (live_tags platform codec repository store after.1))
        × Backed platform codec repository store after.1
    no_lost_update = (second_part.grows.tags, second_part.backed)

    -- On such a store, once a call of `materialize` has returned an index, the tag of the fragment
    -- that it was called for is in the stored index, then and ever after.
    pub published_for_good :
        (w : Writer) (index : Index)
        → In w before.0
        → w.program ≡ done (ok index)
        → (item : Fragment) × (prepare platform codec repository w.snapshot w.published_at
            ≡ ok item)
          × In item.tag (live_tags platform codec repository store after.1)
    unfolding start attempt
    published_for_good w index m e = elim (first_part.all w m) [
      | refused x q ↦ cc (e, q)
      | working item q a ↦
          (item, q, second_part.grows.tags item.tag (returned item before.1 w.program index e a))
    ]
      where
        returned :
            (item : Fragment) (s : store.State) (p : Program) (index : Index)
            → p ≡ done (ok index)
            → At platform codec repository store item s p
            → In item.tag (live_tags platform codec repository store s)
        returned item s p index h (at_put e) = cc (h, e)
        returned item s p index h (at_get zero m e) = cc (h, e)
        returned item s p index h (at_get (suc n) m e) = cc (h, e)
        returned item s p index h (at_list n existing m k e) = cc (h, e)
        returned item s p index h (at_swap n existing i m k own all more e) = cc (h, e)
        returned item s p index h (finished i m e) = m
        returned item s p index h (failed x e) = cc (h, e)
