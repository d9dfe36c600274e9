-- ===== src/Watch/Green.antt =====
-- scripts/babysit-pr.py: what the tests of a round leave.
use postgresbuild.Prelude.{
  is_nil, ℕ, ◌<◌, ◌≡◌, refl, Bool, true, false, not, Option, none, some, List, [], ◌∷◌, keep,
  ltb→lt, Result, ok, ok-eq, ◌>>=◌, if◌then◌else◌, arith, in-result,
}
use postgresbuild.Prelude.Text.{codes, text_eq-eq, is, is-eq}
use postgresbuild.Json.{Json, get}
use postgresbuild.Publication.Fragment.{at}
use postgresbuild.Watch.{Python, to_text, text_or_empty}
use postgresbuild.Watch.Loop.{
  Snapshot, GreenKey, green_key_eq, is_pending_run, is_failed_run, pr_state, stop_code, is_green,
  green_key,
}

is_nil-eq {ℓ} : {A : Type ℓ} (xs : List A) → is_nil xs ≡ true → xs ≡ []
is_nil-eq [] h = refl
is_nil-eq (x ∷ xs) h = cc

pub green_key_eq-eq : (j k : GreenKey) → green_key_eq j k ≡ true → j ≡ k
unfolding green_key_eq
green_key_eq-eq j k h = ground (arith, text_eq-eq j.sha k.sha)

-- The chain of tests of `stop_code`.
abbrev chain : Result (Option ℕ) → Bool → Bool → Bool → Bool → Bool → Result (Option ℕ)
chain m a b c d e =
    if a
    then m
    else if b
    then ok (some 1)
    else if c
    then ok (some 1)
    else if d
    then ok (some 1)
    else if e
    then ok (some 1)
    else ok none

chain-none :
    (m : Result (Option ℕ)) (a b c d e : Bool)
    → (m ≡ ok none → ⊥)
    → chain m a b c d e ≡ ok none
    → (a ≡ false) × (b ≡ false) × (d ≡ false) × (e ≡ false)
chain-none m true b c d e n h = absurd (n h)
chain-none m false true c d e n h = cc
chain-none m false false true d e n h = cc
chain-none m false false false true e n h = cc
chain-none m false false false false true n h = cc
chain-none m false false false false false n h = (refl, refl, refl, refl)

chain-zero :
    (m : Result (Option ℕ)) (a b c d e : Bool) → chain m a b c d e ≡ ok (some 0) → m ≡ ok (some 0)
chain-zero m true b c d e h = h
chain-zero m false true c d e h = absurd (ground arith)
chain-zero m false false true d e h = absurd (ground arith)
chain-zero m false false false true e h = absurd (ground arith)
chain-zero m false false false false true h = absurd (ground arith)
chain-zero m false false false false false h = cc

some-neq : {P : Type 0} {n : ℕ} → ok (some n) ≡ ok none → P
some-neq h = cc

code_zero : (b : Bool) → ◌≡◌ {A = Option ℕ} (some (if b then 0 else 2)) (some 0) → b ≡ true
code_zero b h = ground arith

of_not : {b : Bool} → not b ≡ false → b ≡ true
of_not {b} h = ground arith

module _ (python : Python) where
  -- The snapshot is that of an open pull request that may be merged, and nothing of it has failed
  -- or is pending.
  pub record IsGreen (s : Snapshot) (k : GreenKey) : Type 0 where
    pub head : Json
    pub head_of : at s.pr "headRefOid" ≡ ok head
    pub key : k ≡ green_key python s (to_text python head)
    pub state : pr_state python s.pr ≡ codes "OPEN"
    pub review : is (text_or_empty python (get s.pr "reviewDecision")) "CHANGES_REQUESTED" ≡ false
    pub mergeable : text_or_empty python (get s.pr "mergeable") ≡ codes "MERGEABLE"
    pub checked : 0 < s.checks.total
    pub failed : s.checks.failed ≡ []
    pub pending : s.checks.pending ≡ []
    pub failed_runs : keep (is_failed_run python) s.runs ≡ []
    pub pending_runs : keep (is_pending_run python) s.runs ≡ []

  -- What the tests before the last one leave.
  pub record IsUnstopped (s : Snapshot) : Type 0 where
    pub state : is (pr_state python s.pr) "OPEN" ≡ true
    pub review : is (text_or_empty python (get s.pr "reviewDecision")) "CHANGES_REQUESTED" ≡ false
    pub failed : is_nil s.checks.failed ≡ true
    pub failed_runs : is_nil (keep (is_failed_run python) s.runs) ≡ true

  abbrev closed : Snapshot → Result (Option ℕ)
  closed s = do url ← at s.pr "url"; ok (some (if is (pr_state python s.pr) "MERGED" then 0 else 2))

  abbrev is_not_open : Snapshot → Bool
  is_not_open s = not (is (pr_state python s.pr) "OPEN")

  abbrev has_changes : Snapshot → Bool
  has_changes s = is (text_or_empty python (get s.pr "reviewDecision")) "CHANGES_REQUESTED"

  abbrev has_conflict : Snapshot → Bool
  has_conflict s = is (text_or_empty python (get s.pr "mergeable")) "CONFLICTING"

  abbrev has_failed : Snapshot → Bool
  has_failed s = not (is_nil s.checks.failed)

  abbrev has_failed_run : Snapshot → Bool
  has_failed_run s = not (is_nil (keep (is_failed_run python) s.runs))

  pub stop_code-none : (s : Snapshot) → stop_code python s ≡ ok none → IsUnstopped s
  unfolding stop_code
  stop_code-none s h =
      let t =
        chain-none (closed s) (is_not_open s) (has_changes s) (has_conflict s) (has_failed s)
          (has_failed_run s) (λ q. in-result _ _ q (λ url a q. some-neq q)) h in
      record { state = of_not t.0; review = t.1; failed = of_not t.2; failed_runs = of_not t.3 }

  pub stop_code-zero :
      (s : Snapshot) → stop_code python s ≡ ok (some 0) → is (pr_state python s.pr) "MERGED" ≡ true
  unfolding stop_code
  stop_code-zero s h =
      in-result _ _
        (chain-zero (closed s) (is_not_open s) (has_changes s) (has_conflict s) (has_failed s)
          (has_failed_run s) h)
        (λ url a q. code_zero _ (ok-eq q))

  pub is_green-IsGreen :
      (s : Snapshot) {head : Json}
      → at s.pr "headRefOid" ≡ ok head
      → IsUnstopped s
      → is_green python s ≡ true
      → IsGreen s (green_key python s (to_text python head))
  unfolding is_green
  is_green-IsGreen s {head} a u g = record {
    head = head;
    head_of = a;
    key = refl;
    state = is-eq _ "OPEN" u.state;
    review = u.review;
    mergeable = is-eq _ "MERGEABLE" (ground arith);
    checked = ltb→lt 0 s.checks.total (ground arith);
    failed = is_nil-eq _ u.failed;
    pending = is_nil-eq _ (ground arith);
    failed_runs = is_nil-eq _ u.failed_runs;
    pending_runs = is_nil-eq _ (ground arith);
  }
