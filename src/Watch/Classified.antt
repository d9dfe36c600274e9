-- ===== src/Watch/Classified.antt =====
-- scripts/babysit-pr.py: what a summary of the checks says.
use mathlib.Core.List.{append_assoc, append-nil}
use postgresbuild.Prelude.{
  ◌+◌, ◌≡◌, refl, sym, ◌∙◌, Bool, ◌&&◌, not, List, [], ◌∷◌, ◌++◌, subst, keep, count, length, arith,
}
use postgresbuild.Json.{Fields}
use postgresbuild.Watch.{Python}
use postgresbuild.Watch.Checks.{
  CheckSummary, no_checks, is_pending, is_skipped, is_passed, add_check, add_checks,
  classify_checks,
}

module _ (python : Python) where
  -- The four kinds, each check in the first that fits.
  abbrev pub counts_skipped : Fields → Bool
  counts_skipped c = not (is_pending python c) && is_skipped python c

  abbrev pub counts_passed : Fields → Bool
  counts_passed c = not (is_pending python c) && not (is_skipped python c) && is_passed python c

  abbrev pub counts_failed : Fields → Bool
  counts_failed c =
      not (is_pending python c) && not (is_skipped python c) && not (is_passed python c)

  abbrev merged : CheckSummary → List Fields → CheckSummary
  merged s cs = record {
    total = s.total;
    passed = s.passed + count counts_passed cs;
    skipped = s.skipped + count counts_skipped cs;
    pending = s.pending ++ keep (is_pending python) cs;
    failed = s.failed ++ keep counts_failed cs;
  }

  add_check-merged :
      (c : Fields) (cs : List Fields) (s : CheckSummary)
      → merged (add_check python c s) cs ≡ merged s (c ∷ cs)
  unfolding add_check
  add_check-merged c cs s = ground (
    arith,
    append_assoc s.pending (c ∷ []) (keep (is_pending python) cs),
    append_assoc s.failed (c ∷ []) (keep counts_failed cs),
  )

  add_checks-merged : (cs : List Fields) (s : CheckSummary) → add_checks python cs s ≡ merged s cs
  unfolding add_checks
  add_checks-merged [] s = ground (arith, append-nil s.pending, append-nil s.failed)
  add_checks-merged (c ∷ cs) s =
      add_checks-merged cs (add_check python c s) ∙ add_check-merged c cs s

  kinds_add :
      (cs : List Fields)
      → length cs
        ≡ count counts_passed cs
          + count counts_skipped cs
          + length (keep (is_pending python) cs)
          + length (keep counts_failed cs)
  kinds_add [] = refl
  kinds_add (c ∷ cs) = ground (arith, kinds_add cs)

  -- The reference: one list or number for each kind.
  pub record IsClassified (checks : List Fields) (s : CheckSummary) : Type 0 where
    pub pending : s.pending ≡ keep (is_pending python) checks
    pub failed : s.failed ≡ keep counts_failed checks
    pub passed : s.passed ≡ count counts_passed checks
    pub skipped : s.skipped ≡ count counts_skipped checks
    pub total : s.total ≡ s.passed + s.skipped + length s.pending + length s.failed

  merged-IsClassified :
      (checks : List Fields) → IsClassified checks (merged (no_checks (length checks)) checks)
  merged-IsClassified checks = record {
    pending = refl;
    failed = refl;
    passed = omega arith;
    skipped = omega arith;
    total = omega (arith, kinds_add checks);
  }

  -- `classify_checks` puts every check in exactly one of four kinds, the first that fits: pending,
  -- skipped, passed, and failed for all others. It lists the pending and the failed ones in their
  -- order and counts the others, and the four add up to the total.
  pub classify_checks-IsClassified :
      (checks : List Fields) → IsClassified checks (classify_checks python checks)
  unfolding classify_checks
  classify_checks-IsClassified checks =
      subst (IsClassified checks) (sym (add_checks-merged checks (no_checks (length checks))))
        (merged-IsClassified checks)
