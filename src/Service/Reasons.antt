-- ===== src/Service/Reasons.antt =====
-- main.py, `oidc_failure_reason`: what the service tells of a token that it refuses.
use postgresbuild.Prelude.{
  ◌≡◌, refl, subst, ◌⊎◌, inl, inr, Bool, true, false, Option, none, some, List, [], ◌∷◌, In, here,
  there, Exn, type_error, Result, ok, err, guard, ◌>>=◌, ◌>>◌,
}
use postgresbuild.Prelude.Text.{Text, codes}
use postgresbuild.Json.{Json, null, bool, int, str, arr, obj, Fields, get}
use postgresbuild.Publication.Platform.{Platform}
use postgresbuild.Publication.Policy.{Policy}
use postgresbuild.Publication.Snapshot.{is_one_of, events}
use postgresbuild.Publication.Oidc.{
  check_expected, is_subject, check_claims, wrong_subject, expected_claims,
}
use postgresbuild.Service.{oidc_failure_reason}

-- Every exception that a run ends with has the property.
unfoldable Errs : {A : Type 0} → (Exn → Type 0) → Result A → Type 0
Errs P (ok a) = Unit {0}
Errs P (err e) = P e

Errs-guard :
    {A : Type 0} (P : Exn → Type 0) (c : Bool) (e : Exn) (k : Result A)
    → P e
    → Errs P k
    → Errs P (guard c e >> k)
unfolding Errs guard ◌>>◌
Errs-guard P true e k p q = q
Errs-guard P false e k p q = p

Errs-bind :
    {A B : Type 0} (P : Exn → Type 0) (m : Result A) (f : A → Result B)
    → Errs P m
    → ((a : A) → Errs P (f a))
    → Errs P (m >>= f)
unfolding Errs ◌>>=◌
Errs-bind P (ok a) f p q = q a
Errs-bind P (err e) f p q = p

Errs-then :
    {A : Type 0} (P : Exn → Type 0) (m : Result (Unit {0})) (k : Result A)
    → Errs P m
    → Errs P k
    → Errs P (m >> k)
unfolding Errs ◌>>◌
Errs-then P (ok u) k p q = q
Errs-then P (err e) k p q = p

Errs-last : (P : Exn → Type 0) (c : Bool) (e : Exn) → P e → Errs P (guard c e)
unfolding Errs guard
Errs-last P true e p = tt
Errs-last P false e p = p

err-eq : {A : Type 0} {d e : Exn} → ◌≡◌ {A = Result A} (err d) (err e) → d ≡ e
err-eq h = cc

Errs-of : {A : Type 0} (P : Exn → Type 0) (r : Result A) {e : Exn} → Errs P r → r ≡ err e → P e
unfolding Errs
Errs-of P (ok a) p h = cc
Errs-of P (err e) p h = subst P (err-eq h) p

-- The claims that a refusal may name.
abbrev pub claim_names : List Text
claim_names =
    codes "repository"
    ∷ codes "ref"
    ∷ codes "workflow_ref"
    ∷ codes "event_name"
    ∷ codes "repository_owner"
    ∷ codes "subject"
    ∷ []

module _ (type_name : Exn → Text) where
  -- The reason is the name of a claim, or a claim that must be a text cannot be hashed.
  abbrev pub IsExplained : Exn → Type 0
  IsExplained e = In (oidc_failure_reason type_name e) claim_names ⊎ (e.class ≡ type_error)

  is_one_of-Errs : (v : Json) (ts : List Text) → Errs IsExplained (is_one_of v ts)
  unfolding Errs is_one_of
  is_one_of-Errs (str s) ts = tt
  is_one_of-Errs (arr vs) ts = inr refl
  is_one_of-Errs (obj m) ts = inr refl
  is_one_of-Errs null ts = tt
  is_one_of-Errs (bool b) ts = tt
  is_one_of-Errs (int n) ts = tt

  is_subject-Errs : (v : Json) (t : Text) (o : Option Text) → Errs IsExplained (is_subject v t o)
  unfolding Errs is_subject
  is_subject-Errs (str s) t none = tt
  is_subject-Errs (str s) t (some u) = tt
  is_subject-Errs null t none = tt
  is_subject-Errs null t (some u) = tt
  is_subject-Errs (arr vs) t o = inr refl
  is_subject-Errs (obj m) t o = inr refl
  is_subject-Errs (bool b) t o = tt
  is_subject-Errs (int n) t o = tt

  check_expected-Errs :
      (policy : Policy) (claims : Fields)
      → Errs IsExplained (check_expected claims (expected_claims policy))
  unfolding Errs check_expected oidc_failure_reason
  check_expected-Errs policy claims = Errs-guard IsExplained _ _ _ (inl (here refl)) (
      Errs-guard IsExplained _ _ _ (inl (there (here refl)))
        (Errs-guard IsExplained _ _ _ (inl (there (there (here refl)))) tt))

  -- Where the checks of a token's claims fail, the reason that `oidc_failure_reason` gives is the
  -- name of one of the six checked claims, or the exception is a `TypeError`.
  pub reason-IsExplained :
      (platform : Platform) (policy : Policy) (claims : Fields) {e : Exn}
      → check_claims platform policy claims ≡ err e
      → IsExplained e
  unfolding check_claims oidc_failure_reason
  reason-IsExplained platform policy claims h =
      Errs-of IsExplained _
        (Errs-then IsExplained _ _ (check_expected-Errs policy claims) (
          Errs-bind IsExplained _ _ (is_one_of-Errs (get claims "event_name") events) (λ known.
            Errs-guard IsExplained _ _ _ (inl (there (there (there (here refl))))) (
              Errs-guard IsExplained _ _ _ (inl (there (there (there (there (here refl)))))) (
                Errs-bind IsExplained _ _ (is_subject-Errs _ _ _) (λ allowed.
                  Errs-last IsExplained allowed wrong_subject
                    (inl (there (there (there (there (there (here refl)))))))))))))
        h
