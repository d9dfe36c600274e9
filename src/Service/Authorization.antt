-- ===== src/Service/Authorization.antt =====
-- main.py, `ingest_publication`: who may have a release published.
use postgresbuild.Prelude.{
  ◌≡◌, refl, subst, sym, ap, ◌∙◌, false, Bool-cases, inl, inr, Option, none, some, ◌++◌, In, here,
  there, Exn, Result, ok, err,
}
use postgresbuild.Prelude.Text.{Text, codes, is_empty, after_prefix-eq}
use postgresbuild.Json.{Fields}
use postgresbuild.Publication.Platform.{Platform}
use postgresbuild.Publication.Policy.{Policy}
use postgresbuild.Publication.Index.{Index}
use postgresbuild.Publication.Fetch.{Fetched}
use postgresbuild.Publication.Materialize.Encoding.{Codec}
use postgresbuild.Publication.Oidc.{Jwt, World, Cache, verify_github_oidc}
use postgresbuild.Publication.Oidc.Keys.{EntryIsServed}
use postgresbuild.Publication.Oidc.Authorized.{IsVerified, verify-IsVerified}
use postgresbuild.Service.{
  bearer_token, with_github_token, with_claims, with_policy, with_bearer, ingest_publication,
}

bearer_token-eq :
    (o : Option Text) {t : Text} → bearer_token o ≡ some t → o ≡ some (codes "Bearer " ++ t)
unfolding bearer_token
bearer_token-eq none h = cc
bearer_token-eq (some s) h = ap some (after_prefix-eq (codes "Bearer ") s h)

module _ (platform : Platform) (codec : Codec) (type_name : Exn → Text) (jwt : Jwt) (w : World)
    (cache : Cache) (audience : Text) (fetched : Policy → Text → Result Fetched)
    (materialize : Policy → Fields → Text → Result Index) where
  -- The request has a bearer token whose claims are verified for the service's policy, and the
  -- GitHub token that is used.
  pub record IsAllowed (authorization x_github_token : Option Text) (policy_of : Result Policy)
      (github_token : Text) : Type 1 where
    pub policy : Policy
    pub policy_is : policy_of ≡ ok policy
    pub token : Text
    pub bearer : authorization ≡ some (codes "Bearer " ++ token)
    pub claims : Fields
    pub verified : IsVerified jwt w platform policy token audience claims
    pub given : x_github_token ≡ some github_token
    pub present : is_empty github_token ≡ false

  with_github_token-In :
      (policy : Policy) (o : Option Text) {t : Text}
      → In t
          (with_github_token platform codec type_name jwt w cache audience fetched materialize
            policy o).0
      → (o ≡ some t) × (is_empty t ≡ false)
  with_github_token-In policy none m = elim m [ ]
  with_github_token-In policy (some s) m = elim (Bool-cases (is_empty s)) [
    | inl e ↦ elim (rw e at m) [ ]
    | inr e ↦ elim (rw e at m) [
      | here p ↦ (ap some (sym p), ap is_empty p ∙ e)
      | there n ↦ elim n [ ]
    ]
  ]

  with_claims-IsAllowed :
      (token : Text) (policy : Policy) (x : Option Text) (result : Result Fields) {t : Text}
      → EntryIsServed w cache.entry
      → (verify_github_oidc jwt platform policy w token audience cache).0 ≡ result
      → In t
          (with_claims platform codec type_name jwt w cache audience fetched materialize policy x
            result).0
      → IsAllowed (some (codes "Bearer " ++ token)) x (ok policy) t
  with_claims-IsAllowed token policy x (err e) s v m = elim m [ ]
  with_claims-IsAllowed token policy x (ok claims) s v m =
      let (given, present) = with_github_token-In policy x m in
      record {
        policy = policy;
        policy_is = refl;
        token = token;
        bearer = refl;
        claims = claims;
        verified = verify-IsVerified jwt w platform policy token audience cache s v;
        given = given;
        present = present;
      }

  with_policy-IsAllowed :
      (token : Text) (x : Option Text) (policy : Result Policy) {t : Text}
      → EntryIsServed w cache.entry
      → In t
          (with_policy platform codec type_name jwt w cache audience fetched materialize token x
            policy).0
      → IsAllowed (some (codes "Bearer " ++ token)) x policy t
  with_policy-IsAllowed token x (err e) s m = elim m [ ]
  with_policy-IsAllowed token x (ok policy) s m = with_claims-IsAllowed token policy x _ s refl m

  with_bearer-IsAllowed :
      (authorization o x : Option Text) (policy : Result Policy) {t : Text}
      → EntryIsServed w cache.entry
      → bearer_token authorization ≡ o
      → In t
          (with_bearer platform codec type_name jwt w cache audience fetched materialize o x
            policy).0
      → IsAllowed authorization x policy t
  with_bearer-IsAllowed authorization none x policy s b m = elim m [ ]
  with_bearer-IsAllowed authorization (some token) x policy {t} s b m =
      subst (λ o. IsAllowed o x policy t) (sym (bearer_token-eq authorization b))
        (with_policy-IsAllowed token x policy s m)

  -- Where the cache holds nothing or a document of GitHub's key server, `ingest_publication`
  -- calls `publish_release` only for a request whose `Authorization` is `Bearer` with a token that
  -- `verify_github_oidc` accepts for the service's policy, with the request's own nonempty GitHub
  -- token.
  pub ingest-IsAllowed :
      (authorization x_github_token : Option Text) (policy : Result Policy) {t : Text}
      → EntryIsServed w cache.entry
      → In t
          (ingest_publication platform codec type_name jwt w cache audience fetched materialize
            authorization x_github_token policy).0
      → IsAllowed authorization x_github_token policy t
  unfolding ingest_publication
  ingest-IsAllowed authorization x_github_token policy s m =
      with_bearer-IsAllowed authorization _ x_github_token policy s refl m
