-- ===== src/Watch/Loop.antt =====
-- scripts/babysit-pr.py: `read_snapshot`, `report` and `watch`.
use postgresbuild.Prelude.{
  is_nil, ℕ, ◌+◌, Bool, true, false, not, ◌&&◌, Option, none, some, List, [], ◌∷◌, ◌++◌, ◌==◌, leb,
  ltb, keep, length, any, if◌then◌else◌, Exn, ExnClass, runtime_error, type_error, Result, ok, err,
  ◌>>=◌,
}
use postgresbuild.Prelude.Text.{Text, codes, text_eq, is, text_in}
use postgresbuild.Json.{Json, Fields, get}
use postgresbuild.Publication.Fragment.{at}
use postgresbuild.Watch.{Python, Gh, to_text, text_or_empty, read_pr, read_checks, read_runs}
use postgresbuild.Watch.Checks.{CheckSummary, classify_checks}
use postgresbuild.Watch.Feedback.{Item, read_feedback}

pub record Snapshot : Type 0 where
  pub pr : Fields
  pub checks : CheckSummary
  pub feedback : List Item
  pub runs : List Fields

abbrev pub Key : Type 0
Key = Text × Text

unfoldable pub key_eq : Key → Key → Bool
unfolding text_eq
key_eq (a, b) (c, d) = text_eq a c && text_eq b d

unfoldable pub is_seen : Key → List Key → Bool
unfolding key_eq
is_seen key seen = any (key_eq key) seen

-- The loop of `report`: what has been seen after it, and the items that it prints.
unfoldable pub report_items : List Item → List Key → List Key × List Item
unfolding is_seen
report_items [] seen = (seen, [])
report_items (i ∷ more) seen =
    let key : Key = (i.kind, i.id) in
    let old = report_items more seen in
    let new = report_items more (key ∷ seen) in if is_seen key seen then old else (new.0, i ∷ new.1)

-- `report`, which reads two keys for its first line.
unfoldable pub report : Snapshot → List Key → Result (List Key × List Item)
unfolding at report_items
report snapshot seen = do
  number ← at snapshot.pr "number"
  sha ← at snapshot.pr "headRefOid"
  ok (report_items snapshot.feedback seen)

-- `last_green_key`
pub record GreenKey : Type 0 where
  pub sha : Text
  pub total : ℕ
  pub passed : ℕ
  pub skipped : ℕ
  pub runs : ℕ

unfoldable pub green_key_eq : GreenKey → GreenKey → Bool
unfolding text_eq
green_key_eq j k =
    text_eq j.sha k.sha
    && (j.total == k.total
        && (j.passed == k.passed && (j.skipped == k.skipped && j.runs == k.runs)))

-- The variables of the loop, and what has been printed of the feedback.
pub record State : Type 0 where
  pub seen : List Key
  pub printed : List Item
  pub last_green_key : Option GreenKey
  pub last_green_sha : Text
  pub errors : ℕ

abbrev pub start : State
start = record { seen = []; printed = []; last_green_key = none; last_green_sha = []; errors = 0 }

-- How a round ends: with `sleep`, a `return`, or an exception.
pub data Verdict : Type 0 where
  go_on : Verdict
  exit : ℕ → Verdict
  raised : Exn → Verdict

-- What a round meets: the CLI's answers when it reads and when it confirms, and whether the timeout
-- has passed at its end.
pub record Round : Type 0 where
  pub gh : Gh
  pub confirm : Gh
  pub late : Bool

-- `except (RuntimeError, TypeError)`
unfoldable pub is_unavailable : ExnClass → Bool
is_unavailable runtime_error = true
is_unavailable type_error = true
is_unavailable _ = false

abbrev pub conclusions : List Text
conclusions = codes "success" ∷ codes "skipped" ∷ codes "neutral" ∷ []

module _ (python : Python) where
  -- `read_snapshot`
  unfoldable pub read_snapshot : Gh → ℕ → Text → Result Snapshot
  unfolding read_pr read_checks classify_checks read_feedback read_runs
  read_snapshot gh fuel spec = do
    pr ← read_pr python gh spec
    checks ← read_checks python gh pr
    feedback ← read_feedback python gh fuel pr
    runs ← read_runs python gh pr
    ok (record {
      pr = pr;
      checks = classify_checks python checks;
      feedback = feedback;
      runs = runs;
    })

  unfoldable pub is_pending_run : Fields → Bool
  unfolding is get
  is_pending_run run = not (is (python.lower (text_or_empty python (get run "status"))) "completed")

  unfoldable pub is_failed_run : Fields → Bool
  unfolding is_pending_run text_in get
  is_failed_run run =
      not (is_pending_run run)
      && not (text_in (python.lower (text_or_empty python (get run "conclusion"))) conclusions)

  abbrev pub pr_state : Fields → Text
  pr_state pr = python.upper (text_or_empty python (get pr "state"))

  -- The tests that end the watch before the checks count as green. The message of a closed pull
  -- request reads its address.
  unfoldable pub stop_code : Snapshot → Result (Option ℕ)
  unfolding is at is_failed_run get
  stop_code snapshot =
      if not (is (pr_state snapshot.pr) "OPEN")
      then (do
        url ← at snapshot.pr "url"
        ok (some (if is (pr_state snapshot.pr) "MERGED" then 0 else 2)))
      else if is (text_or_empty python (get snapshot.pr "reviewDecision")) "CHANGES_REQUESTED"
      then ok (some 1)
      else if is (text_or_empty python (get snapshot.pr "mergeable")) "CONFLICTING"
      then ok (some 1)
      else if not (is_nil snapshot.checks.failed)
      then ok (some 1)
      else if not (is_nil (keep is_failed_run snapshot.runs))
      then ok (some 1)
      else ok none

  -- `green`, with the test of `mergeable`.
  unfoldable pub is_green : Snapshot → Bool
  unfolding is is_pending_run get
  is_green snapshot =
      ltb 0 snapshot.checks.total
      && (is_nil snapshot.checks.pending
          && (is_nil (keep is_pending_run snapshot.runs)
              && is (text_or_empty python (get snapshot.pr "mergeable")) "MERGEABLE"))

  abbrev pub green_key : Snapshot → Text → GreenKey
  green_key snapshot sha = record {
    sha = sha;
    total = snapshot.checks.total;
    passed = snapshot.checks.passed;
    skipped = snapshot.checks.skipped;
    runs = length snapshot.runs;
  }

  abbrev pub is_last : Option GreenKey → GreenKey → Bool
  is_last none k = false
  is_last (some j) k = green_key_eq j k

  -- The end of a round.
  abbrev pub sleep_or_stop : State → Round → State × Verdict
  sleep_or_stop s r = (s, if r.late then exit 3 else go_on)

  abbrev pub head_is : Fields → Text → Bool
  head_is current sha = text_eq (text_or_empty python (get current "headRefOid")) sha

  module _ (follow : Bool) (spec : Text) where
    -- The head is read once more, and is to be the one that was green twice.
    abbrev pub after_confirm : State → Round → GreenKey → Result Fields → State × Verdict
    after_confirm s r k (err e) = (s, raised e)
    after_confirm s r k (ok current) =
        if head_is current k.sha
        then (if follow
            then sleep_or_stop (record s { last_green_sha = k.sha; last_green_key = some k }) r
            else (record s { last_green_sha = k.sha }, exit 0))
        else sleep_or_stop (record s { last_green_key = some k }) r

    abbrev pub with_green_key : State → Round → GreenKey → State × Verdict
    with_green_key s r k =
        if is_last s.last_green_key k
        then after_confirm s r k (read_pr python r.confirm spec)
        else sleep_or_stop (record s { last_green_key = some k }) r

    abbrev pub with_sha : State → Round → Snapshot → Result Json → State × Verdict
    with_sha s r snapshot (err e) = (s, raised e)
    with_sha s r snapshot (ok sha) = with_green_key s r (green_key snapshot (to_text python sha))

    unfoldable pub after_tests : State → Round → Snapshot → State × Verdict
    unfolding is_green at green_key_eq read_pr text_eq get
    after_tests s r snapshot =
        if is_green snapshot
        then with_sha s r snapshot (at snapshot.pr "headRefOid")
        else sleep_or_stop (record s { last_green_key = none }) r

    abbrev pub after_stop : State → Round → Snapshot → Result (Option ℕ) → State × Verdict
    after_stop s r snapshot (err e) = (s, raised e)
    after_stop s r snapshot (ok (some code)) = (s, exit code)
    after_stop s r snapshot (ok none) = after_tests s r snapshot

    abbrev pub after_report :
        State → Round → Snapshot → Result (List Key × List Item) → State × Verdict
    after_report s r snapshot (err e) = (s, raised e)
    after_report s r snapshot (ok (seen, items)) =
        after_stop (record s { seen = seen; printed = s.printed ++ items }) r snapshot
          (stop_code snapshot)

    -- A read that fails is tried again until the third failure in a row.
    unfoldable pub after_read : State → Round → Result Snapshot → State × Verdict
    unfolding is_unavailable report stop_code after_tests
    after_read s r (err e) =
        if is_unavailable e.class
        then (if leb 3 (s.errors + 1)
            then (record s { errors = s.errors + 1 }, raised e)
            else (record s { errors = s.errors + 1 }, go_on))
        else (s, raised e)
    after_read s r (ok snapshot) =
        after_report (record s { errors = 0 }) r snapshot (report snapshot s.seen)

    -- The body of the loop.
    unfoldable pub round : ℕ → State → Round → State × Verdict
    unfolding read_snapshot after_read
    round fuel s r = after_read s r (read_snapshot r.gh fuel spec)

    abbrev pub unless_ended : State × Verdict → (State → State × Verdict) → State × Verdict
    unless_ended (s, go_on) next = next s
    unless_ended (s, exit code) next = (s, exit code)
    unless_ended (s, raised e) next = (s, raised e)

    -- `watch`, over the rounds that it lasts.
    unfoldable pub watch : ℕ → List Round → State → State × Verdict
    unfolding round
    watch fuel [] s = (s, go_on)
    watch fuel (r ∷ rs) s = unless_ended (round fuel s r) (watch fuel rs)
