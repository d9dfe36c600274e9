-- ===== src/Tests/Feeds.antt =====
-- The feed of one snapshot.
use postgresbuild.Prelude.{
  subst, sym, ◌≡◌, refl, ◌↔◌, List, [], ◌∷◌, In, here, there, ok, ◌>>=◌, ◌>>◌, guard, expect,
  traverse,
}
use postgresbuild.Prelude.Text.{codes}
use postgresbuild.Prelude.Sort
use postgresbuild.Prelude.Order.{lex}
use postgresbuild.Json.{obj}
use postgresbuild.Version.{VersionKey, version_key}
use postgresbuild.Publication.Record.{Record}
use postgresbuild.Publication.Record.Valid.{IsRecord, validate_record-IsRecord}
use postgresbuild.Publication.Index.{Snapshot}
use postgresbuild.Publication.Feed.{Entry, Line, all_lines}
use postgresbuild.Publication.Feed.Exact.{IsListed, IsBuilt, all_lines_exact}
use postgresbuild.Publication.Feed.Total.{IsReadable, all_lines-ok}
use postgresbuild.Tests.Samples.{repository, tag, target, sha256, record_source, built}
use postgresbuild.Tests.Records.{validate-built}

abbrev snapshot : Snapshot
snapshot = record {
  published_at = codes "2026-01-02T03:09:00Z";
  source_commit = codes "c";
  successful = built ∷ [];
  tag = tag;
}

abbrev entry : Entry
entry = record {
  platform = target;
  sha256 = sha256;
  artifact_url =
      codes
        "https://postgresbuild.labs.vercel.dev/artifacts/202601020304/postgresql-18.4%2B202601020304-t.tar.zst";
  fallback_url =
      codes
        "https://postgresbuild.labs.vercel.dev/artifact-fallback/202601020304/postgresql-18.4%2B202601020304-t.tar.zst";
}

abbrev line : Line
line = record {
  artifacts = entry ∷ [];
  date = codes "2026-01-02T03:09:00Z";
  version = codes "18.4.0+202601020304";
}

lines : all_lines (snapshot ∷ []) ≡ ok (line ∷ [])
unfolding all_lines ◌>>=◌ ◌>>◌ guard expect traverse Sort.sort Sort.insert lex
lines = refl

all_lines_exact_example :
    IsListed (line ∷ []) (codes "2026-01-02T03:09:00Z") (codes "18.4.0+202601020304") entry ↔ (
      (s : Snapshot) × In s (snapshot ∷ [])
      × IsBuilt s (codes "2026-01-02T03:09:00Z") (codes "18.4.0+202601020304") entry)
all_lines_exact_example =
    all_lines_exact (snapshot ∷ []) (line ∷ []) (codes "2026-01-02T03:09:00Z")
      (codes "18.4.0+202601020304") entry lines

readable : (s : Snapshot) → In s (snapshot ∷ []) → IsReadable repository s
unfolding version_key
readable s (here q) = subst (IsReadable repository) (sym q) (λ r i. elim i [
  | here w ↦
      subst
        (λ (x : Record).
          IsRecord repository tag x
          × ((k : VersionKey) × (version_key x.coordinate.source_version ≡ ok k)))
        (sym w)
        (
          (validate_record-IsRecord repository tag (obj record_source) built validate-built).1,
          (record { major = 18; minor = 4; patch = 0; phase_order = 3; phase_number = 0 }, refl),
        )
  | there j ↦ elim j [ ]
])
readable s (there i) = elim i [ ]

all_lines-ok_example : (ls : List Line) × (all_lines (snapshot ∷ []) ≡ ok ls)
all_lines-ok_example = all_lines-ok repository (snapshot ∷ []) readable
