-- ===== src/Watch/Command.antt =====
-- scripts/babysit-pr.py: `main`.
use postgresbuild.Prelude.{
  ℕ, Bool, ◌&&◌, ◌||◌, List, [], if◌then◌else◌, Exn, Result, ok, err, ◌>>=◌,
}
use postgresbuild.Prelude.Text.{Text}
use postgresbuild.Prelude.Int.{ℤ, pos, is_negative, int_eq}
use postgresbuild.Watch.{Python, Gh}
use postgresbuild.Watch.Feedback.{Item}
use postgresbuild.Watch.Loop.{
  Key, Verdict, go_on, exit, raised, Round, start, is_unavailable, read_snapshot, report, watch,
}

pub record Args : Type 0 where
  pub pr : Text
  pub once : Bool
  pub follow : Bool
  pub interval : ℤ
  pub timeout : ℤ

-- How the program ends, if it does: `parser.error`, a status, or an exception that no one catches.
pub data Ended : Type 0 where
  usage : Ended
  status : ℕ → Ended
  uncaught : Exn → Ended
  running : Ended

-- The arguments that `parser.error` refuses.
unfoldable pub is_usage_error : Args → Bool
unfolding int_eq
is_usage_error args =
    is_negative args.interval
    || (int_eq args.interval (pos 0) || (is_negative args.timeout || args.once && args.follow))

abbrev pub caught : Exn → Ended
caught e = if is_unavailable e.class then status 4 else uncaught e

abbrev pub of_once : Result (List Key × List Item) → Ended
of_once (err e) = caught e
of_once (ok out) = status 0

abbrev pub of_verdict : Verdict → Ended
of_verdict (exit code) = status code
of_verdict (raised e) = caught e
of_verdict go_on = running

-- `main`, less the interrupt.
unfoldable pub main : Python → Args → Gh → ℕ → List Round → Ended
unfolding is_usage_error is_unavailable read_snapshot report watch
main python args gh fuel rounds =
    if is_usage_error args
    then usage
    else if args.once
    then of_once (do snapshot ← read_snapshot python gh fuel args.pr; report snapshot [])
    else of_verdict (watch python args.follow args.pr fuel rounds start).1
