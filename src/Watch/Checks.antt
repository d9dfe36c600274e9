-- ===== src/Watch/Checks.antt =====
-- scripts/babysit-pr.py: `classify_checks`.
use postgresbuild.Prelude.{ℕ, ◌+◌, Bool, ◌||◌, List, [], ◌∷◌, ◌++◌, length, if◌then◌else◌}
use postgresbuild.Prelude.Text.{Text, codes, is, text_in}
use postgresbuild.Json.{Fields, get}
use postgresbuild.Watch.{Python, text_or_empty}

pub record CheckSummary : Type 0 where
  pub total : ℕ
  pub passed : ℕ
  pub skipped : ℕ
  pub pending : List Fields
  pub failed : List Fields

abbrev pub no_checks : ℕ → CheckSummary
no_checks total = record { total = total; passed = 0; skipped = 0; pending = []; failed = [] }

-- `PENDING_STATES`
abbrev pub pending_states : List Text
pending_states =
    codes "PENDING"
    ∷ codes "QUEUED"
    ∷ codes "IN_PROGRESS"
    ∷ codes "WAITING"
    ∷ codes "REQUESTED"
    ∷ []

-- `PASS_STATES`
abbrev pub pass_states : List Text
pass_states = codes "SUCCESS" ∷ codes "NEUTRAL" ∷ codes "SKIPPED" ∷ []

module _ (python : Python) where
  abbrev pub bucket_of : Fields → Text
  bucket_of check = python.lower (text_or_empty python (get check "bucket"))

  abbrev pub state_of : Fields → Text
  state_of check = python.upper (text_or_empty python (get check "state"))

  unfoldable pub is_pending : Fields → Bool
  unfolding is text_in get
  is_pending check = is (bucket_of check) "pending" || text_in (state_of check) pending_states

  unfoldable pub is_skipped : Fields → Bool
  unfolding is text_in get
  is_skipped check = is (bucket_of check) "skipping" || is (state_of check) "SKIPPED"

  unfoldable pub is_passed : Fields → Bool
  unfolding is text_in get
  is_passed check = is (bucket_of check) "pass" || text_in (state_of check) pass_states

  -- The body of the loop.
  unfoldable pub add_check : Fields → CheckSummary → CheckSummary
  add_check check s =
      if is_pending check
      then record s { pending = s.pending ++ check ∷ [] }
      else if is_skipped check
      then record s { skipped = s.skipped + 1 }
      else if is_passed check
      then record s { passed = s.passed + 1 }
      else record s { failed = s.failed ++ check ∷ [] }

  unfoldable pub add_checks : List Fields → CheckSummary → CheckSummary
  unfolding add_check
  add_checks [] s = s
  add_checks (check ∷ checks) s = add_checks checks (add_check check s)

  -- `classify_checks`
  unfoldable pub classify_checks : List Fields → CheckSummary
  unfolding add_checks
  classify_checks checks = add_checks checks (no_checks (length checks))
