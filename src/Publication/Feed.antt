-- ===== src/Publication/Feed.antt =====
-- publication.py: `versions_ndjson`, the version feed made of the index.
pub mod Groups
pub mod Exact
pub mod Total
use postgresbuild.Prelude.{
  ℕ, ◌≡◌, Bool, true, false, not, Option, none, some, List, [], ◌∷◌, ◌++◌, map, find, String,
  if◌then◌else◌, Exn, ExnClass, other, Result, ok, err, expect, traverse, ◌>>=◌,
}
use postgresbuild.Prelude.Text.{Text, codes, text_eq, is, quote, text_order}
use postgresbuild.Prelude.Sort.{sort}
use postgresbuild.Json.{Json, obj, arr, str, Fields, end, field, nil, cons}
use postgresbuild.Version.{VersionKey, version_key, postgres_semver}
use postgresbuild.Version.Precedence.{key_le}
use postgresbuild.Publication.Record.{primary_archive, role_eq, File, Record}
use postgresbuild.Publication.Index.{Snapshot, Index, json_list}
use postgresbuild.Publication.Fetch.{name_of, encode}
use postgresbuild.Publication.Materialize.Encoding.{Bytes}

-- `_consumer_artifact_url`
unfoldable pub consumer_artifact_url : String → Text → Text → Result Text
unfolding quote
consumer_artifact_url route tag name = do
  t ← quote tag
  n ← quote name
  ok (
      codes "https://postgresbuild.labs.vercel.dev/"
      ++ codes route
      ++ codes "/"
      ++ t
      ++ codes "/"
      ++ n)

-- An artifact of the feed, with the two fixed texts left out.
pub record Entry : Type 0 where
  pub platform : Text
  pub sha256 : Text
  pub artifact_url : Text
  pub fallback_url : Text

-- What a record of PostgreSQL gives to the feed: its version and its artifact.
unfoldable pub record_entry : Text → Record → Result (Option (Text × Entry))
unfolding consumer_artifact_url
record_entry tag r = do
  primary ←
      expect (find (λ (f : File). role_eq primary_archive f.role) r.files)
        (record { class = ExnClass.other; message = codes "StopIteration" })
  artifact_url ← consumer_artifact_url "artifacts" tag (name_of primary)
  fallback_url ← consumer_artifact_url "artifact-fallback" tag (name_of primary)
  ok (
      some (
        r.coordinate.source_version,
        record {
          platform = r.coordinate.target;
          sha256 = primary.sha256;
          artifact_url = artifact_url;
          fallback_url = fallback_url;
        },
      ))

-- The body of the loop over `snapshot["successful"]`; `none` is `continue`.
unfoldable pub entry_of : Text → Record → Result (Option (Text × Entry))
unfolding is record_entry
entry_of tag r = if is r.coordinate.package_name "postgresql" then record_entry tag r else ok none

-- A version of `by_version`, with its artifacts.
pub record Group : Type 0 where
  pub version : Text
  pub entries : List Entry

-- `by_version.setdefault(version, []).append(entry)`
unfoldable pub append_entry : Text → Entry → List Group → List Group
unfolding text_eq
append_entry v e [] = record { version = v; entries = e ∷ [] } ∷ []
append_entry v e (g ∷ gs) =
    let rest = append_entry v e gs in
    if text_eq g.version v
    then record { version = g.version; entries = g.entries ++ e ∷ [] } ∷ gs
    else g ∷ rest

unfoldable pub group_entries : List (Option (Text × Entry)) → List Group → List Group
unfolding append_entry
group_entries [] gs = gs
group_entries (none ∷ es) gs = group_entries es gs
group_entries (some (v, e) ∷ es) gs = group_entries es (append_entry v e gs)

-- A version with its key, which `sorted` computes first.
pub record Keyed : Type 0 where
  pub key : VersionKey
  pub group : Group

unfoldable pub with_key : Group → Result Keyed
unfolding version_key
with_key g = do k ← version_key g.version; ok (record { key = k; group = g })

-- `reverse=True`
unfoldable pub later_version : Keyed → Keyed → Bool
unfolding key_le
later_version a b = key_le b.key a.key

unfoldable pub platform_le : Entry → Entry → Bool
unfolding text_order
platform_le a b = text_order.le a.platform b.platform

-- One line of the feed.
pub record Line : Type 0 where
  pub artifacts : List Entry
  pub date : Text
  pub version : Text

unfoldable pub line_of : Text → Text → Keyed → Result Line
unfolding postgres_semver platform_le
line_of published_at tag k = do
  semver ← postgres_semver k.group.version
  ok (record {
    artifacts = sort platform_le k.group.entries;
    date = published_at;
    version = semver ++ (codes "+" ++ tag);
  })

-- The lines of one snapshot.
unfoldable pub snapshot_lines : Snapshot → Result (List Line)
unfolding entry_of group_entries with_key later_version line_of
snapshot_lines s = do
  entries ← traverse (entry_of s.tag) s.successful
  keyed ← traverse with_key (group_entries entries [])
  traverse (line_of s.published_at s.tag) (sort later_version keyed)

unfoldable pub all_lines : List Snapshot → Result (List Line)
unfolding snapshot_lines
all_lines [] = ok []
all_lines (s ∷ ss) = do lines ← snapshot_lines s; rest ← all_lines ss; ok (lines ++ rest)

unfoldable pub entry_json : Entry → Json
entry_json e = obj (
    field (codes "archive_format") (str (codes "tar.zst")) (
      field (codes "platform") (str e.platform) (
        field (codes "sha256") (str e.sha256) (
          field (codes "urls") (arr (cons (str e.artifact_url) (cons (str e.fallback_url) nil)))
            (field (codes "variant") (str (codes "install_only")) end)))))

unfoldable pub line_json : Line → Json
unfolding entry_json
line_json l = obj (
    field (codes "artifacts") (json_list entry_json l.artifacts)
      (field (codes "date") (str l.date) (field (codes "version") (str l.version) end)))

-- `"\n".join(lines) + ("\n" if lines else "")`
unfoldable pub join_lines : List Text → Text
join_lines [] = []
join_lines (l ∷ ls) = l ++ codes "\n" ++ join_lines ls

-- `versions_ndjson`, where `compact` is `json.dumps` without spaces.
unfoldable pub versions_ndjson : (Json → Text) → Index → Result Bytes
unfolding all_lines line_json join_lines encode
versions_ndjson compact index = do
  lines ← all_lines index.snapshots
  encode (join_lines (map (λ (l : Line). compact (line_json l)) lines))
