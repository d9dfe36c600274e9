-- ===== src/Tests/Requests.antt =====
-- Requests to the service.
use postgresbuild.Prelude.{
  ◌≡◌, refl, Option, none, some, [], In, here, Exn, Result, ok, err, ◌>>=◌, ◌>>◌, guard, expect,
}
use postgresbuild.Prelude.Text.{Text, codes}
use postgresbuild.Json.{items, end, Fields}
use postgresbuild.Publication.Policy.{Policy}
use postgresbuild.Publication.Index.{Index}
use postgresbuild.Publication.Oidc.{check_claims, claim_error}
use postgresbuild.Publication.Fetch.{Fetched}
use postgresbuild.Service.{ingest_publication}
use postgresbuild.Service.Authorization.{IsAllowed, ingest-IsAllowed}
use postgresbuild.Service.Reasons.{IsExplained, reason-IsExplained}
use postgresbuild.Tests.Samples.{platform}
use postgresbuild.Tests.Serial.{codec}
use postgresbuild.Tests.Snapshots.{policy}
use postgresbuild.Tests.Oidcs.{jwt, world, cache, audience, cache-EntryIsServed}

abbrev type_name : Exn → Text
type_name e = codes "Exception"

abbrev fetched : Policy → Text → Result Fetched
fetched p t = ok none

abbrev materialize : Policy → Fields → Text → Result Index
materialize p m t = ok (record { latest = []; snapshots = [] })

abbrev authorization : Option Text
authorization = some (codes "Bearer token")

abbrev github_token : Text
github_token = codes "secret"

asked :
    In github_token
      (ingest_publication platform codec type_name jwt world cache audience fetched materialize
        authorization
        (some github_token)
        (ok policy)).0
unfolding ingest_publication ◌>>=◌ ◌>>◌ guard expect items
asked = here refl

ingest-IsAllowed_example :
    IsAllowed platform codec type_name jwt world cache audience fetched materialize authorization
      (some github_token)
      (ok policy)
      github_token
ingest-IsAllowed_example =
    ingest-IsAllowed platform codec type_name jwt world cache audience fetched materialize
      authorization (some github_token) (ok policy) cache-EntryIsServed asked

refused : check_claims platform policy end ≡ err (claim_error (codes "repository"))
unfolding check_claims ◌>>=◌ ◌>>◌ guard
refused = refl

reason-IsExplained_example : IsExplained type_name (claim_error (codes "repository"))
reason-IsExplained_example = reason-IsExplained type_name platform policy end refused
