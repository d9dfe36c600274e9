-- ===== src/Publication/Oidc.antt =====
-- publication.py: `_jwks` and `verify_github_oidc`, who may ask for a publication. The package jwt is
-- a parameter. The clock is read in nanoseconds; the lock makes a call of `_jwks` one step.
pub mod Keys
pub mod Claims
pub mod Authorized
pub mod Requests
use postgresbuild.Prelude.{
  ℕ, ◌+◌, ◌-◌, ◌*◌, ◌≡◌, Bool, true, false, ◌&&◌, ◌||◌, not, Option, none, some, List, [], ◌∷◌,
  ◌++◌, map, ltb, find, String, if◌then◌else◌, Exn, ExnClass, value_error, Result, ok, err, guard,
  expect, ◌>>=◌, ◌>>◌,
}
use postgresbuild.Prelude.Text.{Text, codes, text_eq}
use postgresbuild.Json.{
  Json, null, bool, int, str, arr, obj, Fields, items, get, as_dict, as_list, as_str, is_str,
}
use postgresbuild.Publication.Platform.{Platform}
use postgresbuild.Publication.Policy.{Policy, owner, workflow_ref, subject, immutable_subject}
use postgresbuild.Publication.Record.{raise_value, raise_type}
use postgresbuild.Publication.Snapshot.{is_one_of, events}

-- What the code uses of jwt. `decode` is called for RS256, the issuer and the required claims, and
-- so every payload that it returns has a subject.
pub record Jwt : Type 1 where
  pub Key : Type 0
  pub get_unverified_header : Text → Result Fields
  pub from_jwk : Fields → Result Key
  pub decode : Text → Key → Text → Result Fields
  pub decode-has_subject :
      (token : Text) (key : Key) (audience : Text) (claims : Fields)
      → decode token key audience ≡ ok claims
      → get claims "sub" ≡ null
      → ⊥

-- The answers of the clock and of the key server, by the number of times that each was asked.
pub record World : Type 0 where
  pub clock : ℕ → ℕ
  pub answer : ℕ → Result Json

-- `_jwks_cache`, and how often clock and server have been asked.
pub record Cache : Type 0 where
  pub entry : Option (ℕ × Fields)
  pub reads : ℕ
  pub requests : ℕ

-- `_JWKS_TTL`
abbrev pub jwks_ttl : ℕ
jwks_ttl = 600 * 1000000000

-- A result with the cache that is left.
abbrev pub Cached {ℓ} : Type ℓ → Type ℓ
Cached A = Result A × Cache

-- `value` is a dict that holds a list under `"keys"`.
unfoldable pub key_set : Json → Result Fields
unfolding get
key_set v = do
  m ← expect (as_dict v) (raise_type "GitHub JWKS is malformed")
  keys ← expect (as_list (get m "keys")) (raise_type "GitHub JWKS is malformed")
  ok m

module _ (w : World) where
  abbrev pub keep_answer : Cache → Result Fields → Cached Fields
  keep_answer c (err e) = (err e, record c { requests = c.requests + 1 })
  keep_answer c (ok m) = (
    ok m,
    record { entry = some (w.clock c.reads, m); reads = c.reads + 1; requests = c.requests + 1 },
  )

  abbrev pub answered : Result Json → Result Fields
  answered (err e) = err e
  answered (ok v) = key_set v

  -- The request, and the cache where its answer is a key set.
  unfoldable pub refresh : Cache → Cached Fields
  unfolding key_set
  refresh c = keep_answer c (answered (w.answer c.requests))

  -- The test of the age reads the clock.
  abbrev pub if_fresh : Cache → Option (ℕ × Fields) → Cached Fields
  if_fresh c none = refresh c
  if_fresh c (some (t, m)) =
      if ltb (w.clock c.reads - t) jwks_ttl
      then (ok m, record c { reads = c.reads + 1 })
      else refresh (record c { reads = c.reads + 1 })

  -- `_jwks`
  unfoldable pub jwks : Bool → Cache → Cached Fields
  unfolding refresh
  jwks force c = if force then refresh c else if_fresh c c.entry

-- The claims that must have the policy's values, with the rest of the tests.
abbrev pub claim_error : Text → Exn
claim_error name = record {
  class = value_error;
  message = codes "GitHub OIDC claim " ++ name ++ codes " is not authorized";
}

unfoldable pub check_expected : Fields → List (String × Text) → Result (Unit {0})
unfolding is_str get
check_expected claims [] = ok tt
check_expected claims ((name, value) ∷ rest) = do
  guard (is_str (get claims name) value) (claim_error (codes name))
  check_expected claims rest

-- `claims.get("sub") in {subject, immutable_subject}`, where the second may be `None`.
unfoldable pub is_subject : Json → Text → Option Text → Result Bool
unfolding text_eq
is_subject (str s) t none = ok (text_eq s t)
is_subject (str s) t (some u) = ok (text_eq s t || text_eq s u)
is_subject null t none = ok true
is_subject null t (some u) = ok false
is_subject (arr _) t o = err (raise_type "unhashable type: 'list'")
is_subject (obj _) t o = err (raise_type "unhashable type: 'dict'")
is_subject _ t o = ok false

abbrev pub wrong_event : Exn
wrong_event = raise_value "GitHub OIDC event is not authorized"

abbrev pub wrong_owner : Exn
wrong_owner = raise_value "GitHub OIDC repository owner is not authorized"

abbrev pub wrong_subject : Exn
wrong_subject = raise_value "GitHub OIDC subject is not the release environment"

abbrev pub expected_claims : Policy → List (String × Text)
expected_claims policy =
    ("repository", policy.repository)
    ∷ ("ref", policy.ref)
    ∷ ("workflow_ref", workflow_ref policy)
    ∷ []

-- The checks of the claims.
unfoldable pub check_claims : Platform → Policy → Fields → Result (Unit {0})
unfolding check_expected is_one_of is_str owner is_subject subject immutable_subject workflow_ref
    get
check_claims platform policy claims = do
  check_expected claims (expected_claims policy)
  known ← is_one_of (get claims "event_name") events
  guard known wrong_event
  guard (is_str (get claims "repository_owner") (owner policy)) wrong_owner
  allowed ←
      is_subject (get claims "sub") (subject policy) (immutable_subject platform policy claims)
  guard allowed wrong_subject

abbrev pub wrong_header : Exn
wrong_header = raise_value "GitHub OIDC header is not RS256 with a key ID"

abbrev pub unknown_key : Exn
unknown_key = raise_value "GitHub OIDC token uses an unknown key"

-- `isinstance(item, dict) and item.get("kid") == kid and item.get("kty") == "RSA"`
abbrev pub has_kid : Text → Json → Bool
has_kid kid (obj m) = is_str (get m "kid") kid && is_str (get m "kty") (codes "RSA")
has_kid kid _ = false

abbrev pub keys_of : Fields → List Json
keys_of m = elim (as_list (get m "keys")) [ none ↦ [] | some vs ↦ items vs ]

module _ (jwt : Jwt) (platform : Platform) (policy : Policy) (w : World) where
  open jwt use {Key, get_unverified_header, from_jwk, decode}

  abbrev pub key_from : Option Json → Result (Option Key)
  key_from (some (obj m)) = do k ← from_jwk m; ok (some k)
  key_from _ = ok none

  -- `select(document)`
  unfoldable pub select : Text → Fields → Result (Option Key)
  unfolding is_str get
  select kid m = key_from (find (has_kid kid) (keys_of m))

  abbrev pub select_in : Text → Cached Fields → Cached (Option Key)
  select_in kid (err e, c) = (err e, c)
  select_in kid (ok m, c) = (select kid m, c)

  -- A key that the cached set lacks is looked for once more in a new one.
  abbrev pub or_forced : Text → Cached (Option Key) → Cached (Option Key)
  or_forced kid (err e, c) = (err e, c)
  or_forced kid (ok (some k), c) = (ok (some k), c)
  or_forced kid (ok none, c) = select_in kid (jwks w true c)

  unfoldable pub find_key : Text → Cache → Cached (Option Key)
  unfolding jwks select
  find_key kid c = or_forced kid (select_in kid (jwks w false c))

  -- The key ID of the header.
  unfoldable pub key_id : Text → Result Text
  unfolding is_str get
  key_id token = do
    header ← get_unverified_header token
    guard (is_str (get header "alg") (codes "RS256")) wrong_header
    expect (as_str (get header "kid")) wrong_header

  -- The payload, after the checks of its claims.
  unfoldable pub checked_claims : Text → Text → Option Key → Result Fields
  unfolding check_claims
  checked_claims token audience found = do
    key ← expect found unknown_key
    claims ← decode token key audience
    check_claims platform policy claims
    ok claims

  abbrev pub with_key : Text → Text → Cached (Option Key) → Cached Fields
  with_key token audience (err e, c) = (err e, c)
  with_key token audience (ok found, c) = (checked_claims token audience found, c)

  abbrev pub with_kid : Text → Text → Cache → Result Text → Cached Fields
  with_kid token audience c (err e) = (err e, c)
  with_kid token audience c (ok kid) = with_key token audience (find_key kid c)

  -- `verify_github_oidc`
  unfoldable pub verify_github_oidc : Text → Text → Cache → Cached Fields
  unfolding key_id find_key checked_claims
  verify_github_oidc token audience c = with_kid token audience c (key_id token)
