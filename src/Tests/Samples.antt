-- ===== src/Tests/Samples.antt =====
-- A snapshot record, as the release workflow writes it.
use postgresbuild.Publication.Platform.{Platform, aware}
use postgresbuild.Prelude.{◌-◌, ◌&&◌, leb, if◌then◌else◌, [], ◌∷◌, ◌++◌, String, Option, none, some}
use postgresbuild.Prelude.Text.{Text, codes}
use postgresbuild.Prelude.Int.{pos}
use postgresbuild.Json.{obj, arr, str, int, Fields, end, field, nil, cons}
use postgresbuild.Publication.Record.{
  Coordinate, Role, primary_archive, dbgsym, metadata, test_result, File, Record, bound_result,
}

abbrev pub repository : Text
repository = codes "o/r"

abbrev pub tag : Text
tag = codes "202601020304"

abbrev pub target : Text
target = codes "t"

abbrev pub coordinate_at : Text → Coordinate
coordinate_at version = record {
  package_name = codes "postgresql";
  source_version = version;
  target = target;
}

abbrev eight : Text → Text
eight s = s ++ (s ++ (s ++ (s ++ (s ++ (s ++ (s ++ s))))))

abbrev pub sha256 : Text
sha256 = eight (codes "0123abcd")

abbrev pub common : String → String → Fields → Fields
common name role rest = field (codes "logical_name") (str (codes name)) (
    field (codes "role") (str (codes role))
      (field (codes "sha256") (str sha256) (field (codes "size") (int (pos 7)) rest)))

abbrev pub private_fields : String → String → Fields
private_fields name role = common name role (
    field (codes "media_type") (str (codes "application/json"))
      (field (codes "encoding") (str (codes "identity")) end))

abbrev pub public_fields : String → String → Text → Fields
public_fields name role release_name = common name role (
    field (codes "media_type") (str (codes "application/x-tar")) (
      field (codes "encoding") (str (codes "zstd")) (
        field (codes "release_name") (str release_name) (
          field (codes "url")
            (str (codes "https://github.com/o/r/releases/download/202601020304/" ++ release_name))
            end))))

abbrev pub archive : Text
archive = codes "postgresql-18.4+202601020304-t.tar.zst"

abbrev pub quoted : Text
quoted = codes "postgresql-18.4%2B202601020304-t.tar.zst"

abbrev pub url_of : Text → Text
url_of q = codes "https://github.com/o/r/releases/download/202601020304/" ++ q

abbrev pub public_at : String → String → String → String → Fields
public_at name role release_name q = common name role (
    field (codes "media_type") (str (codes "application/x-tar")) (
      field (codes "encoding") (str (codes "zstd")) (
        field (codes "release_name") (str (codes release_name))
          (field (codes "url") (str (url_of (codes q))) end))))

abbrev pub primary_fields : Fields
primary_fields =
    public_at "a.tar" "primary-archive" "postgresql-18.4+202601020304-t.tar.zst"
      "postgresql-18.4%2B202601020304-t.tar.zst"

abbrev pub dbgsym_fields : Fields
dbgsym_fields =
    public_at "b.tar" "dbgsym" "postgresql-18.4+202601020304-t-dbgsym.tar.zst"
      "postgresql-18.4%2B202601020304-t-dbgsym.tar.zst"

abbrev pub record_source : Fields
record_source =
    field (codes "coordinate")
      (obj (
        field (codes "package") (str (codes "postgresql")) (
          field (codes "source_version") (str (codes "18.4"))
            (field (codes "target") (str target) end))))
      (field (codes "files")
        (arr (
          cons (obj primary_fields) (
            cons (obj dbgsym_fields) (
              cons (obj (private_fields "c.json" "metadata"))
                (cons (obj (private_fields "d.json" "test-result")) nil)))))
        (field (codes "test_result")
          (obj (bound_result (coordinate_at (codes "18.4")) sha256 (str (codes "postgresql"))))
          end))

abbrev file : Fields → String → Role → Option Text → File
file m name role release_name = record {
  source = m;
  logical_name = codes name;
  role = role;
  sha256 = sha256;
  size = pos 7;
  release_name = release_name;
}

abbrev pub built : Record
built = record {
  source = record_source;
  coordinate = coordinate_at (codes "18.4");
  files =
      file primary_fields "a.tar" primary_archive (some archive)
      ∷ file dbgsym_fields "b.tar" dbgsym
          (some (codes "postgresql-18.4+202601020304-t-dbgsym.tar.zst"))
      ∷ file (private_fields "c.json" "metadata") "c.json" metadata none
      ∷ file (private_fields "d.json" "test-result") "d.json" test_result none
      ∷ [];
}

-- ASCII digits only, and every time in UTC.
abbrev pub platform : Platform
platform = record {
  decimal = λ c. if leb 48 c && leb c 57 then some (c - 48) else none;
  is_digit_char = λ c. leb 48 c && leb c 57;
  from_iso = λ s. some (aware s);
}

abbrev pub commit : String
commit = "0123456789abcdef0123456789abcdef01234567"
