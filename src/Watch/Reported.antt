-- ===== src/Watch/Reported.antt =====
-- scripts/babysit-pr.py: what `watch` prints of the review feedback.
use postgresbuild.Prelude.{
  ℕ, ◌+◌, ◌≡◌, refl, sym, subst, ap, ◌∙◌, Bool, if_elim, Option, none, some, List, [], ◌∷◌, ◌++◌,
  leb, Result, ok, err,
}
use postgresbuild.Prelude.Text.{Text}
use postgresbuild.Json.{Json, Fields}
use postgresbuild.Watch.{Python, to_text, read_pr}
use postgresbuild.Watch.Feedback.{Item}
use postgresbuild.Watch.Loop.{
  Snapshot, report, Key, GreenKey, State, start, Verdict, go_on, exit, raised, Round,
  is_unavailable, stop_code, is_green, green_key, is_last, head_is, after_confirm, with_sha,
  after_tests, after_stop, after_report, after_read, round, unless_ended, watch,
}
use postgresbuild.Publication.Fragment.{at}
use postgresbuild.Watch.Items.{keys_onto, keys_onto-append, Distinct, Reports, report-Reports}

-- No key was printed twice, and `seen` holds the keys that were.
pub record IsReported (s : State) : Type 0 where
  pub seen : s.seen ≡ keys_onto s.printed []
  pub once : Distinct s.seen

-- A step that leaves what has been seen and printed.
abbrev Keeps : State → State × Verdict → Type 0
Keeps s out = (out.0.seen ≡ s.seen) × (out.0.printed ≡ s.printed)

module _ (python : Python) (follow : Bool) (spec : Text) where
  after_confirm-Keeps :
      (s : State) (r : Round) (k : GreenKey) (current : Result Fields)
      → Keeps s (after_confirm python follow spec s r k current)
  after_confirm-Keeps s r k (err e) = (refl, refl)
  after_confirm-Keeps s r k (ok current) =
      if_elim (Keeps s) (head_is python current k.sha)
        (λ _. if_elim (Keeps s) follow (λ _. (refl, refl)) (λ _. (refl, refl))) (λ _. (refl, refl))

  with_sha-Keeps :
      (s : State) (r : Round) (snapshot : Snapshot) (sha : Result Json)
      → Keeps s (with_sha python follow spec s r snapshot sha)
  with_sha-Keeps s r snapshot (err e) = (refl, refl)
  with_sha-Keeps s r snapshot (ok sha) =
      if_elim (Keeps s)
        (is_last python s.last_green_key (green_key python snapshot (to_text python sha)))
        (λ _. after_confirm-Keeps s r _ (read_pr python r.confirm spec)) (λ _. (refl, refl))

  after_tests-Keeps :
      (s : State) (r : Round) (snapshot : Snapshot)
      → Keeps s (after_tests python follow spec s r snapshot)
  unfolding after_tests
  after_tests-Keeps s r snapshot =
      if_elim (Keeps s) (is_green python snapshot)
        (λ _. with_sha-Keeps s r snapshot (at snapshot.pr "headRefOid")) (λ _. (refl, refl))

  after_stop-Keeps :
      (s : State) (r : Round) (snapshot : Snapshot) (code : Result (Option ℕ))
      → Keeps s (after_stop python follow spec s r snapshot code)
  after_stop-Keeps s r snapshot (err e) = (refl, refl)
  after_stop-Keeps s r snapshot (ok (some code)) = (refl, refl)
  after_stop-Keeps s r snapshot (ok none) = after_tests-Keeps s r snapshot

  Keeps-IsReported :
      (s : State) (out : State × Verdict) → Keeps s out → IsReported s → IsReported out.0
  Keeps-IsReported s out (a, b) h = record {
    seen = a ∙ h.seen ∙ ap (λ p. keys_onto p []) (sym b);
    once = subst Distinct (sym a) h.once;
  }

  after_report-IsReported :
      (s : State) (r : Round) (snapshot : Snapshot) (out : List Key × List Item)
      → IsReported s
      → Reports s.seen out
      → IsReported (record s { seen = out.0; printed = s.printed ++ out.1 })
  after_report-IsReported s r snapshot out h p = record {
    seen = p.keys ∙ ap (keys_onto out.1) h.seen ∙ sym (keys_onto-append s.printed out.1 []);
    once = p.once h.once;
  }

  with_report-IsReported :
      (s : State) (r : Round) (snapshot : Snapshot) (out : Result (List Key × List Item))
      → IsReported s
      → report snapshot s.seen ≡ out
      → IsReported (after_report python follow spec s r snapshot out).0
  unfolding report
  with_report-IsReported s r snapshot (err e) h q = h
  with_report-IsReported s r snapshot (ok out) h q =
      Keeps-IsReported (record s { seen = out.0; printed = s.printed ++ out.1 })
        (after_stop python follow spec (record s { seen = out.0; printed = s.printed ++ out.1 }) r
          snapshot (stop_code python snapshot))
        (after_stop-Keeps _ r snapshot (stop_code python snapshot))
        (after_report-IsReported s r snapshot out h (report-Reports snapshot s.seen q))

  abbrev Prints : List Item → State × Verdict → Type 0
  Prints items out = out.0.printed ≡ items

  module _ (fuel : ℕ) where
    after_read-IsReported :
        (s : State) (r : Round) (read : Result Snapshot)
        → IsReported s
        → IsReported (after_read python follow spec s r read).0
    unfolding after_read
    after_read-IsReported s r (ok snapshot) h =
        with_report-IsReported (record s { errors = 0 }) r snapshot _
          (record { seen = h.seen; once = h.once }) refl
    after_read-IsReported s r (err e) h =
        if_elim (λ (o : State × Verdict). IsReported o.0) (is_unavailable e.class)
          (λ _.
            if_elim (λ (o : State × Verdict). IsReported o.0) (leb 3 (s.errors + 1))
              (λ _. record { seen = h.seen; once = h.once })
              (λ _. record { seen = h.seen; once = h.once }))
          (λ _. h)

    ended-IsReported :
        (rs : List Round) (out : State × Verdict)
        → IsReported out.0
        → ((s : State) → IsReported s → IsReported (watch python follow spec fuel rs s).0)
        → IsReported (unless_ended python follow spec out (watch python follow spec fuel rs)).0
    ended-IsReported rs (s, go_on) h next = next s h
    ended-IsReported rs (s, exit code) h next = h
    ended-IsReported rs (s, raised e) h next = h

    watch-IsReported_of :
        (rs : List Round) (s : State)
        → IsReported s
        → IsReported (watch python follow spec fuel rs s).0
    unfolding watch round
    watch-IsReported_of [] s h = h
    watch-IsReported_of (r ∷ rs) s h =
        ended-IsReported rs _ (after_read-IsReported s r _ h) (watch-IsReported_of rs)

    -- However long the watch lasts, no feedback is printed twice: the keys of what it has printed,
    -- of kind and identifier, are all distinct, and they are those that it holds as seen.
    pub watch-IsReported : (rs : List Round) → IsReported (watch python follow spec fuel rs start).0
    watch-IsReported rs = watch-IsReported_of rs start (record { seen = refl; once = tt })
