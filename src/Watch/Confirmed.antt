-- ===== src/Watch/Confirmed.antt =====
-- scripts/babysit-pr.py: when `watch` may return 0.
use postgresbuild.Prelude.{
  ℕ, zero, suc, ◌≡◌, Bool, true, false, Option, none, some, List, ◌∷◌, Exn, ok, err,
}
use postgresbuild.Prelude.Text.{Text, is}
use postgresbuild.Json.{Json, Fields, get}
use postgresbuild.Watch.{Python, text_or_empty, read_pr}
use postgresbuild.Watch.Loop.{
  Snapshot, GreenKey, State, Verdict, go_on, exit, raised, Round, read_snapshot, pr_state,
}
use postgresbuild.Watch.Green.{IsGreen}

module _ (python : Python) where
  module _ (follow : Bool) (spec : Text) (fuel : ℕ) where
    -- Of the rounds so far, the latest first, the latest that could be read was green.
    pub data LastGreen : List Round → GreenKey → Type 0 where
      now :
          {r : Round} {before : List Round} {s : Snapshot} {k : GreenKey}
          → read_snapshot python r.gh fuel spec ≡ ok s
          → IsGreen python s k
          → LastGreen (r ∷ before) k
      unread :
          {r : Round} {before : List Round} {e : Exn} {k : GreenKey}
          → read_snapshot python r.gh fuel spec ≡ err e
          → LastGreen before k
          → LastGreen (r ∷ before) k

    -- The round in which the watch ends with 0, and those before it.
    pub data IsSuccess (before : List Round) (r : Round) : Type 0 where
      merged :
          {s : Snapshot}
          → read_snapshot python r.gh fuel spec ≡ ok s
          → is (pr_state python s.pr) "MERGED" ≡ true
          → IsSuccess before r
      confirmed :
          {s : Snapshot} {k : GreenKey} {current : Fields}
          → follow ≡ false
          → LastGreen before k
          → read_snapshot python r.gh fuel spec ≡ ok s
          → IsGreen python s k
          → read_pr python r.confirm spec ≡ ok current
          → text_or_empty python (get current "headRefOid") ≡ k.sha
          → IsSuccess before r

    abbrev KnownKey : List Round → Option GreenKey → Type 0
    KnownKey before none = Unit {0}
    KnownKey before (some k) = LastGreen before k

    abbrev Fits : List Round → Round → State × Verdict → Type 0
    Fits before r (s, go_on) = KnownKey (r ∷ before) s.last_green_key
    Fits before r (s, exit zero) = IsSuccess before r
    Fits before r (s, exit (suc n)) = Unit {0}
    Fits before r (s, raised e) = Unit {0}

    -- The whole watch: it ends with 0 in one of its rounds.
    pub data EndsWell : List Round → List Round → Type 0 where
      here :
          {before : List Round} {r : Round} {rs : List Round}
          → IsSuccess before r
          → EndsWell before (r ∷ rs)
      later :
          {before : List Round} {r : Round} {rs : List Round}
          → EndsWell (r ∷ before) rs
          → EndsWell before (r ∷ rs)
