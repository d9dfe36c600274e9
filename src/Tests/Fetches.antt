-- ===== src/Tests/Fetches.antt =====
-- `fetch_valid_snapshot` on the sample release, its files in memory.
use postgresbuild.Prelude.{
  ℕ, ◌≡◌, refl, Bool, true, false, Option, none, some, List, [], ◌∷◌, ◌++◌, length, if◌then◌else◌,
  In, here, Result, ok, err, ◌>>=◌, ◌>>◌, guard, expect, traverse,
}
use postgresbuild.Prelude.Text.{Text, codes, text_eq, texts_eq}
use postgresbuild.Prelude.Sort
use postgresbuild.Prelude.Order.{lex}
use postgresbuild.Json.{obj, arr, str, Fields, end, field, Items, nil, cons, items}
use postgresbuild.Publication.Record.{primary_archive, public_name, Record}
use postgresbuild.Publication.Snapshot.{Manifest, snapshot_name, checksum_name, validate_snapshot}
use postgresbuild.Publication.Materialize.Encoding.{Bytes, sort_keys}
use postgresbuild.Publication.Fetch.{
  Reader, Artifact, Calls, Fetched, read_manifest, is_published, fetch_valid_snapshot,
}
use postgresbuild.Publication.Fetch.Published.{IsVerified, published-IsVerified, published_complete}
use postgresbuild.Tests.Samples.{repository, tag, sha256, archive, url_of, platform, built}
use postgresbuild.Tests.Serial.{codec, dumps, loads}
use postgresbuild.Tests.Snapshots.{policy, sums, snapshot_fields, assets_with}

abbrev raw : Bytes
raw = dumps (obj snapshot_fields)

abbrev objects : List Fields → Items
objects [] = nil
objects (m ∷ ms) = cons (obj m) (objects ms)

abbrev release : Fields
release = field (codes "tag_name") (str tag) (
    field (codes "name") (str tag) (
      field (codes "published_at") (str (codes "2026-01-02T03:09:00Z"))
        (field (codes "assets") (arr (objects (assets_with (length raw)))) end)))

-- An archive is seven zeros.
abbrev content : Bytes
content = 0 ∷ 0 ∷ 0 ∷ 0 ∷ 0 ∷ 0 ∷ 0 ∷ []

get_bytes : Text → Result Bytes
unfolding text_eq
get_bytes url =
    if text_eq url (url_of (codes snapshot_name))
    then ok raw
    else if text_eq url (url_of (codes checksum_name))
    then ok sums
    else ok content

abbrev reader : Reader
reader = record { release_by_tag = λ r t. ok (some release); get_bytes = get_bytes }

abbrev hexdigest : Bytes → Text
hexdigest b = sha256

abbrev publish : Artifact → Result (Unit {0})
publish a = ok tt

abbrev run : Calls Fetched
run = fetch_valid_snapshot platform codec hexdigest reader policy (some publish) tag repository

abbrev fetched_manifest : Result Fetched → Manifest
fetched_manifest (ok (some (m, t))) = m
fetched_manifest _ = record {
  source = end;
  expected = [];
  successful = [];
  checksum = record { url = []; sha256 = []; size = postgresbuild.Prelude.Int.ℤ.pos 0 };
}

first_of_records : List Record → Record → Record
first_of_records [] r = r
first_of_records (r ∷ rs) _ = r

archive_call : Artifact
archive_call = record { tag = tag; name = archive; content = content }

published-IsVerified_example :
    (x : Fields) × (m : Manifest) × ((reader.release_by_tag repository tag ≡ ok (some x))
      × (is_published tag x ≡ true)
      × (read_manifest platform codec hexdigest reader policy repository tag x ≡ ok m))
    × IsVerified platform codec hexdigest reader policy tag m archive_call
unfolding fetch_valid_snapshot archive_call get_bytes validate_snapshot dumps loads sort_keys ◌>>=◌
    ◌>>◌ guard expect traverse items texts_eq Sort.sort Sort.insert lex
published-IsVerified_example =
    published-IsVerified platform codec hexdigest reader policy tag (some publish) repository
      archive_call (here refl)

found : Manifest
unfolding fetch_valid_snapshot
found = fetched_manifest run.1

rebuilt : Record
unfolding found first_of_records
rebuilt = first_of_records found.successful built

published_complete_example :
    (bytes : Bytes) × In
      (record {
        tag = tag;
        name = public_name rebuilt.coordinate primary_archive tag;
        content = bytes;
      })
      run.0
unfolding rebuilt get_bytes validate_snapshot dumps loads sort_keys ◌>>=◌ ◌>>◌ guard expect traverse
    items texts_eq Sort.sort Sort.insert lex
published_complete_example =
    published_complete platform codec hexdigest reader policy tag publish repository found
      (codes "2026-01-02T03:09:00Z") rebuilt refl (here refl)
