-- ===== src/Tests/Snapshots.antt =====
-- A release with one build: its snapshot passes, and its archive is published.
use postgresbuild.Prelude.{
  ℕ, ◌≡◌, refl, ◌↔◌, ◌⊎◌, true, List, [], ◌∷◌, ◌++◌, map, length, In, String, ok, ◌>>=◌, ◌>>◌,
  guard, expect, traverse,
}
use postgresbuild.Prelude.Text.{Text, codes, text_in, texts_eq}
use postgresbuild.Prelude.Int.{pos}
use postgresbuild.Prelude.Sort
use postgresbuild.Prelude.Order.{lex}
use postgresbuild.Json.{Json, obj, arr, str, int, Fields, end, field, nil, cons, items}
use postgresbuild.Publication.Policy.{Policy}
use postgresbuild.Publication.Record.{Coordinate, primary_archive, dbgsym, public_name}
use postgresbuild.Publication.Snapshot.{
  Assets, asset_names, Manifest, validate_snapshot, checksum_name, snapshot_name,
}
use postgresbuild.Publication.Snapshot.Valid.{assets_exact}
use postgresbuild.Tests.Samples.{
  repository, tag, target, sha256, coordinate_at, archive, quoted, url_of, record_source, built,
  platform, commit,
}

abbrev pub policy : Policy
policy = record {
  repository = repository;
  ref = codes "refs/heads/main";
  workflow_path = codes "w.yml";
  environment = codes "release";
}

abbrev debug_name : String
debug_name = "postgresql-18.4+202601020304-t-dbgsym.tar.zst"

abbrev debug_quoted : String
debug_quoted = "postgresql-18.4%2B202601020304-t-dbgsym.tar.zst"

-- The content of SHA256SUMS.
abbrev pub sums : Text
sums =
    sha256
    ++ codes "  "
    ++ codes debug_name
    ++ codes "\n"
    ++ sha256
    ++ codes "  "
    ++ archive
    ++ codes "\n"

abbrev coordinate_fields : Json
coordinate_fields = obj (
    field (codes "package") (str (codes "postgresql")) (
      field (codes "source_version") (str (codes "18.4"))
        (field (codes "target") (str target) end)))

abbrev run_fields : Json
run_fields = obj (
    field (codes "event") (str (codes "push")) (
      field (codes "workflow_ref") (str (codes "o/r/w.yml@refs/heads/main")) (
        field (codes "id") (str (codes "17"))
          (field (codes "attempt") (str (codes "1")) (field (codes "started_at") (str tag) end)))))

abbrev checksum_fields : Json
checksum_fields = obj (
    field (codes "release_name") (str (codes checksum_name)) (
      field (codes "url") (str (url_of (codes checksum_name))) (
        field (codes "media_type") (str (codes "text/plain")) (
          field (codes "sha256") (str sha256)
            (field (codes "size") (int (pos (length sums))) end)))))

abbrev pub snapshot_fields : Fields
snapshot_fields = field (codes "format") (str (codes "ggbuild-snapshot-v1")) (
    field (codes "repository") (str repository) (
      field (codes "tag") (str tag) (
        field (codes "source_commit") (str (codes commit)) (
          field (codes "successful") (arr (cons (obj record_source) nil)) (
            field (codes "expected_coordinates") (arr (cons coordinate_fields nil))
              (field (codes "run") run_fields (field (codes "checksum") checksum_fields end)))))))

abbrev pub asset_of : Text → Text → ℕ → Fields
asset_of name address size = field (codes "name") (str name) (
    field (codes "browser_download_url") (str (url_of address))
      (field (codes "size") (int (pos size)) end))

abbrev pub assets_with : ℕ → List Fields
assets_with size =
    asset_of archive quoted 7
    ∷ asset_of (codes debug_name) (codes debug_quoted) 7
    ∷ asset_of (codes checksum_name) (codes checksum_name) (length sums)
    ∷ asset_of (codes snapshot_name) (codes snapshot_name) size
    ∷ []

abbrev with_name : Fields → Text × Fields
with_name (field k (str name) m) = (name, field k (str name) m)
with_name m = ([], m)

abbrev assets : Assets
assets = map with_name (assets_with 0)

abbrev manifest : Manifest
manifest = record {
  source = snapshot_fields;
  expected = coordinate_at (codes "18.4") ∷ [];
  successful = built ∷ [];
  checksum = record {
    url = url_of (codes checksum_name);
    sha256 = sha256;
    size = pos (length sums);
  };
}

passed : validate_snapshot platform policy tag assets (obj snapshot_fields) ≡ ok manifest
unfolding validate_snapshot ◌>>=◌ ◌>>◌ guard expect traverse items texts_eq Sort.sort Sort.insert
    lex
passed = refl

assets_exact_example : (text_in archive (asset_names assets) ≡ true) ↔ (
    (archive ≡ codes checksum_name)
    ⊎ ((archive ≡ codes snapshot_name)
        ⊎ ((c : Coordinate) × In c manifest.expected
            × ((archive ≡ public_name c primary_archive tag)
                ⊎ (archive ≡ public_name c dbgsym tag)))))
assets_exact_example =
    assets_exact policy tag assets platform (obj snapshot_fields) manifest passed archive
