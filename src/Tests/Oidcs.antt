-- ===== src/Tests/Oidcs.antt =====
-- `verify_github_oidc` on a sample token, with a key server whose keys have just changed.
use postgresbuild.Prelude.{
  ℕ, ◌*◌, ◌≤◌, ◌≡◌, refl, sym, ap, ◌∙◌, some, ltb, if◌then◌else◌, ok, ok-eq, ◌>>=◌, ◌>>◌, guard,
  expect,
}
use postgresbuild.Prelude.Text.{Text, codes}
use postgresbuild.Json.{obj, arr, str, Fields, items, get, end, field, nil, cons, null}
use postgresbuild.Publication.Policy.{owner, workflow_ref, subject}
use postgresbuild.Publication.Oidc.{
  Jwt, World, Cache, select, key_set, verify_github_oidc, key_id, checked_claims,
}
use postgresbuild.Publication.Oidc.Keys.{EntryIsServed}
use postgresbuild.Publication.Oidc.Authorized.{IsVerified, verify-IsVerified}
use postgresbuild.Publication.Oidc.Requests.{verify_requests, verify-EntryIsServed, verify_rotated}
use postgresbuild.Tests.Samples.{platform}
use postgresbuild.Tests.Snapshots.{policy}

abbrev key_id_of : Text → Fields
key_id_of kid = field (codes "kid") (str kid) (field (codes "kty") (str (codes "RSA")) end)

abbrev documents : Text → Fields
documents kid = field (codes "keys") (arr (cons (obj (key_id_of kid)) nil)) end

abbrev payload : Fields
payload = field (codes "event_name") (str (codes "push")) (
    field (codes "repository") (str policy.repository) (
      field (codes "ref") (str policy.ref) (
        field (codes "workflow_ref") (str (workflow_ref policy)) (
          field (codes "repository_owner") (str (owner policy))
            (field (codes "sub") (str (subject policy)) end)))))

str-neq : {s : Text} → str s ≡ null → ⊥
str-neq h = cc

sub_of : get payload "sub" ≡ str (subject policy)
unfolding get
sub_of = refl

pub payload-has_subject : (claims : Fields) → ok payload ≡ ok claims → get claims "sub" ≡ null → ⊥
payload-has_subject claims e h = str-neq (sym sub_of ∙ ap (λ m. get m "sub") (ok-eq e) ∙ h)

abbrev pub jwt : Jwt
jwt = record {
  Key = Text;
  get_unverified_header = λ token.
      ok (field (codes "alg") (str (codes "RS256")) (field (codes "kid") (str (codes "new")) end));
  from_jwk = λ m. ok (codes "modulus");
  decode = λ token key audience. ok payload;
  decode-has_subject = λ token key audience. payload-has_subject;
}

abbrev answers : ℕ → Text
answers n = if ltb n 1 then codes "old" else codes "new"

abbrev pub world : World
world = record { clock = λ n. 60 * n; answer = λ n. ok (obj (documents (answers n))) }

-- The cached document has a key that the server has replaced.
abbrev pub cache : Cache
cache = record { entry = some (0, documents (codes "old")); reads = 1; requests = 1 }

abbrev pub token : Text
token = codes "token"

abbrev pub audience : Text
audience = codes "index"

pub cache-EntryIsServed : EntryIsServed world cache.entry
unfolding EntryIsServed key_set ◌>>=◌ expect
cache-EntryIsServed = record {
  time = 0;
  value = obj (documents (codes "old"));
  answer = refl;
  set = refl;
}

accepted : (verify_github_oidc jwt platform policy world token audience cache).0 ≡ ok payload
unfolding verify_github_oidc ◌>>=◌ ◌>>◌ guard expect items
accepted = refl

verify-IsVerified_example : IsVerified jwt world platform policy token audience payload
verify-IsVerified_example =
    verify-IsVerified jwt world platform policy token audience cache cache-EntryIsServed accepted

verify_requests_example :
    (verify_github_oidc jwt platform policy world token audience cache).1.requests ≤ 3
verify_requests_example = verify_requests jwt platform policy world token audience cache

verify-EntryIsServed_example :
    EntryIsServed world (verify_github_oidc jwt platform policy world token audience cache).1.entry
verify-EntryIsServed_example =
    verify-EntryIsServed jwt platform policy world token audience cache cache-EntryIsServed

verify_rotated_example :
    (verify_github_oidc jwt platform policy world token audience cache).0
    ≡ checked_claims jwt platform policy world token audience (some (codes "modulus"))
unfolding key_id select key_set ◌>>=◌ ◌>>◌ guard expect items
verify_rotated_example =
    verify_rotated jwt platform policy world token audience (codes "new") cache
      {v = obj (documents (codes "new"))} refl refl refl refl refl refl refl
