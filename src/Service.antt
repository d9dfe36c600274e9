-- ===== src/Service.antt =====
-- main.py: the handlers of the HTTP service. The framework, the store's requests and the environment
-- are parameters.
pub mod Reasons
pub mod Authorization
use postgresbuild.Prelude.{
  ℕ, ◌≡◌, Bool, true, false, not, Option, none, some, List, [], ◌∷◌, ◌++◌, Exn, ExnClass,
  value_error, type_error, runtime_error, decode_error, Result, ok, err, expect, ◌>>=◌, String,
  if◌then◌else◌,
}
use postgresbuild.Prelude.Text.{Text, codes, text_eq, text_in, is_empty, after_prefix}
use postgresbuild.Json.{Json, obj, bool, Fields, end, field}
use postgresbuild.Github.{before_suffix}
use postgresbuild.Publication.Platform.{Platform}
use postgresbuild.Publication.Policy.{Policy}
use postgresbuild.Publication.Index.{Index, index_json, validate_index}
use postgresbuild.Publication.Feed.{versions_ndjson}
use postgresbuild.Publication.Fetch.{Fetched}
use postgresbuild.Publication.Materialize.{not_json}
use postgresbuild.Publication.Materialize.Encoding.{Bytes, Codec}
use postgresbuild.Publication.Oidc.{Jwt, World, Cache, verify_github_oidc}

pub data Reply : Type 0 where
  response : (status : ℕ) (content : Bytes) (cache_control : Text) → Reply
  failure : (status : ℕ) (detail : Text) → Reply

-- `fixed_reasons`
abbrev pub fixed_reasons : List (String × String)
fixed_reasons =
    ("GitHub OIDC header is not RS256 with a key ID", "header")
    ∷ ("GitHub OIDC token uses an unknown key", "key")
    ∷ ("GitHub OIDC event is not authorized", "event_name")
    ∷ ("GitHub OIDC repository owner is not authorized", "repository_owner")
    ∷ ("GitHub OIDC subject is not the release environment", "subject")
    ∷ []

unfoldable pub fixed_reason : Text → List (String × String) → Option Text
unfolding text_eq
fixed_reason message [] = none
fixed_reason message ((known, reason) ∷ rest) =
    let later = fixed_reason message rest in
    if text_eq message (codes known) then some (codes reason) else later

-- The claim that a message is about.
unfoldable pub claim_of : Text → Option Text
unfolding after_prefix before_suffix
claim_of message = elim (after_prefix (codes "GitHub OIDC claim ") message) [
  | none ↦ none
  | some rest ↦ before_suffix (codes " is not authorized") rest
]

abbrev pub reason_claims : List Text
reason_claims = codes "repository" ∷ codes "ref" ∷ codes "workflow_ref" ∷ []

abbrev pub claim_or : Option Text → Text → Text
claim_or none name = name
claim_or (some claim) name = if text_in claim reason_claims then claim else name

abbrev pub reason_or : Option Text → Option Text → Text → Text
reason_or (some reason) claim name = reason
reason_or none claim name = claim_or claim name

-- `oidc_failure_reason`, where `type_name` is the name of the exception's class.
unfoldable pub oidc_failure_reason : (Exn → Text) → Exn → Text
unfolding fixed_reason claim_of text_in
oidc_failure_reason type_name e =
    reason_or (fixed_reason e.message fixed_reasons) (claim_of e.message) (type_name e)

-- `except (TypeError, ValueError, json.JSONDecodeError)`
unfoldable pub is_corrupt : ExnClass → Bool
is_corrupt type_error = true
is_corrupt value_error = true
is_corrupt decode_error = true
is_corrupt _ = false

-- `except (TypeError, ValueError, RuntimeError, json.JSONDecodeError)`
unfoldable pub is_bad_request : ExnClass → Bool
unfolding is_corrupt
is_bad_request runtime_error = true
is_bad_request c = is_corrupt c

abbrev pub shared_cache : Text
shared_cache = codes "public, s-maxage=300, stale-while-revalidate=3600"

-- `"Bearer "` and the token.
unfoldable pub bearer_token : Option Text → Option Text
unfolding after_prefix
bearer_token none = none
bearer_token (some s) = after_prefix (codes "Bearer ") s

-- The handler of `get_index` and `get_versions`.
abbrev pub or_corrupt : Result Bytes → Result Reply
or_corrupt (ok content) = ok (response 200 content shared_cache)
or_corrupt (err e) =
    if is_corrupt e.class then ok (failure 500 (codes "stored index is corrupt")) else err e

module _ (platform : Platform) (codec : Codec) where
  unfoldable pub stored_index : Policy → Bytes → Result Index
  unfolding validate_index
  stored_index policy raw = do
    v ← expect (codec.loads raw) not_json
    validate_index platform policy.repository v

  abbrev pub index_content : Policy → Bytes → Result Bytes
  index_content policy raw = do index ← stored_index policy raw; ok (codec.dumps (index_json index))

  abbrev pub versions_content : (Json → Text) → Policy → Bytes → Result Bytes
  versions_content compact policy raw = do
    index ← stored_index policy raw
    versions_ndjson compact index

  abbrev pub if_stored : Option Bytes → (Bytes → Result Bytes) → Result Reply
  if_stored none content = ok (failure 404 (codes "index not found"))
  if_stored (some raw) content = or_corrupt (content raw)

  -- `get_index`: `PublicationPolicy.from_environment()` and the answer to `store.get("index.json")`.
  unfoldable pub get_index : Result Policy → Result (Option Bytes) → Result Reply
  unfolding stored_index index_json is_corrupt
  get_index policy_of existing_of = do
    policy ← policy_of
    existing ← existing_of
    if_stored existing (index_content policy)

  unfoldable pub get_versions : (Json → Text) → Result Policy → Result (Option Bytes) → Result Reply
  unfolding stored_index versions_ndjson is_corrupt
  get_versions compact policy_of existing_of = do
    policy ← policy_of
    existing ← existing_of
    if_stored existing (versions_content compact policy)

  -- `publish_release`: the run of `fetch_valid_snapshot`, and what `materialize` returns.
  abbrev pub materialized : (Fields → Text → Result Index) → Fetched → Result (Option Index)
  materialized materialize none = ok none
  materialized materialize (some (snapshot, published_at)) = do
    index ← materialize snapshot.source published_at
    ok (some index)

  unfoldable pub publish_release :
      Result Fetched → (Fields → Text → Result Index) → Result (Option Index)
  publish_release fetched materialize = fetched >>= materialized materialize

  -- `json_response`
  abbrev pub json_response : Json → ℕ → Reply
  json_response v status = response status (codec.dumps v) (codes "no-store")

  abbrev pub published : Result (Option Index) → Result Reply
  published (ok none) = ok (json_response (obj (field (codes "ignored") (bool true) end)) 202)
  published (ok (some index)) = ok (json_response (index_json index) 200)
  published (err e) = if is_bad_request e.class then ok (failure 400 e.message) else err e

  -- The tokens that `publish_release` was called with, and the answer.
  abbrev pub Asked : Type 0
  Asked = List Text × Result Reply

  module _ (type_name : Exn → Text) (jwt : Jwt) (w : World) (cache : Cache) (audience : Text)
      (fetched : Policy → Text → Result Fetched)
      (materialize : Policy → Fields → Text → Result Index) where
    abbrev pub with_github_token : Policy → Option Text → Asked
    with_github_token policy none = ([], ok (failure 401 (codes "missing GitHub release token")))
    with_github_token policy (some t) =
        if is_empty t
        then ([], ok (failure 401 (codes "missing GitHub release token")))
        else (t ∷ [], published (publish_release (fetched policy t) (materialize policy)))

    abbrev pub with_claims : Policy → Option Text → Result Fields → Asked
    with_claims policy x_github_token (err e) = (
      [],
      ok (failure 401 (codes "unauthorized GitHub workflow: " ++ oidc_failure_reason type_name e)),
    )
    with_claims policy x_github_token (ok claims) = with_github_token policy x_github_token

    abbrev pub with_policy : Text → Option Text → Result Policy → Asked
    with_policy token x_github_token (err e) = ([], err e)
    with_policy token x_github_token (ok policy) =
        with_claims policy x_github_token
          (verify_github_oidc jwt platform policy w token audience cache).0

    abbrev pub with_bearer : Option Text → Option Text → Result Policy → Asked
    with_bearer none x_github_token policy = ([], ok (failure 401 (codes "missing bearer token")))
    with_bearer (some token) x_github_token policy = with_policy token x_github_token policy

    -- `ingest_publication`
    unfoldable pub ingest_publication : Option Text → Option Text → Result Policy → Asked
    unfolding publish_release bearer_token oidc_failure_reason is_bad_request verify_github_oidc
        index_json
    ingest_publication authorization x_github_token policy =
        with_bearer (bearer_token authorization) x_github_token policy
