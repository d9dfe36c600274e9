-- ===== src/Publication/Oidc/Claims.antt =====
-- publication.py, `verify_github_oidc`: the checks of the claims.
use postgresbuild.Prelude.{
  ◌≡◌, refl, ap, ◌∙◌, Bool, true, ◌&&◌, Bool-cases, ◌⊎◌, inl, inr, Option, none, some, List, In,
  Exn, expect, ok, ok-eq, guard-eq-ok, in-result, in-check, in-call, arith,
}
use postgresbuild.Prelude.Text.{Text, text_eq, text_eq-eq, text_in-In}
use postgresbuild.Json.{Json, null, bool, int, str, arr, obj, Fields, get}
use postgresbuild.Publication.Platform.{Platform}
use postgresbuild.Publication.Policy.{Policy, owner, workflow_ref, subject, immutable_subject}
use postgresbuild.Publication.Snapshot.{is_one_of, events}
use postgresbuild.Publication.Oidc.{is_subject, check_expected, check_claims}
use postgresbuild.Publication.Oidc.Keys.{is_str-eq}

is_one_of-In :
    (v : Json) (ts : List Text) → is_one_of v ts ≡ ok true → (s : Text) × (v ≡ str s) × In s ts
unfolding is_one_of
is_one_of-In (str s) ts h = (s, refl, text_in-In s ts (ok-eq h))
is_one_of-In null ts h = cc
is_one_of-In (bool b) ts h = cc
is_one_of-In (int n) ts h = cc
is_one_of-In (arr vs) ts h = cc
is_one_of-In (obj m) ts h = cc

-- A subject that is one of the two allowed ones.
is_subject-cases :
    (v : Json) (t : Text) (o : Option Text)
    → (v ≡ null → ⊥)
    → is_subject v t o ≡ ok true
    → (v ≡ str t) ⊎ ((s : Text) × (o ≡ some s) × (v ≡ str s))
unfolding is_subject
is_subject-cases (str s) t none n h = inl (ap str (text_eq-eq s t (ok-eq h)))
is_subject-cases (str s) t (some u) n h = elim (Bool-cases (text_eq s t)) [
  | inl e ↦ inl (ap str (text_eq-eq s t e))
  | inr e ↦ inr (u, refl, ap str (text_eq-eq s u (ground (arith, ok-eq h))))
]
is_subject-cases null t o n h = elim (n refl) [ ]
is_subject-cases (bool b) t o n h = cc
is_subject-cases (int m) t o n h = cc
is_subject-cases (arr vs) t o n h = cc
is_subject-cases (obj m) t o n h = cc

pub none-neq : {A : Type 0} {a : A} → none ≡ some a → ⊥
none-neq h = cc

pub expect-eq : {A : Type 0} (o : Option A) (e : Exn) {a : A} → expect o e ≡ ok a → o ≡ some a
unfolding expect
expect-eq none e h = cc
expect-eq (some a) e h = ap some (ok-eq h)

pub some-eq : {A : Type 0} {a b : A} → some a ≡ some b → a ≡ b
some-eq h = cc

pub and-eq : (a b : Bool) → (a && b) ≡ true → (a ≡ true) × (b ≡ true)
and-eq a b h = (ground arith, ground arith)

-- The claims name the policy's workflow, at work in the policy's environment.
pub record IsAuthorized (platform : Platform) (policy : Policy) (claims : Fields) : Type 0 where
  pub repository : get claims "repository" ≡ str policy.repository
  pub ref : get claims "ref" ≡ str policy.ref
  pub workflow_ref : get claims "workflow_ref" ≡ str (workflow_ref policy)
  pub event : (s : Text) × (get claims "event_name" ≡ str s) × In s events
  pub owner : get claims "repository_owner" ≡ str (owner policy)
  pub sub :
      (get claims "sub" ≡ str (subject policy))
      ⊎ ((s : Text) × (immutable_subject platform policy claims ≡ some s)
          × (get claims "sub" ≡ str s))

pub check_claims-IsAuthorized :
    (platform : Platform) (policy : Policy) (claims : Fields)
    → (get claims "sub" ≡ null → ⊥)
    → check_claims platform policy claims ≡ ok tt
    → IsAuthorized platform policy claims
unfolding check_claims check_expected
check_claims-IsAuthorized platform policy claims n h = in-call _ _ h (λ e h.
    in-check _ _ _ e (λ repository e. in-check _ _ _ e (λ ref e. in-check _ _ _ e (λ workflow _.
      in-result _ _ h (λ known event h. in-check _ _ _ h (λ k h. in-check _ _ _ h (λ own h.
        in-result _ _ h (λ allowed subject h. record {
          repository = is_str-eq _ _ repository;
          ref = is_str-eq _ _ ref;
          workflow_ref = is_str-eq _ _ workflow;
          event = is_one_of-In _ events (event ∙ ap ok k);
          owner = is_str-eq _ _ own;
          sub = is_subject-cases _ _ _ n (subject ∙ ap ok (guard-eq-ok _ _ h));
        }))))))))
