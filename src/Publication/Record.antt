-- ===== src/Publication/Record.antt =====
-- publication.py: `_coordinate`, `_digest`, `_release_url`, `_public_name` and `_validate_record`.
pub mod Files
pub mod Valid
use postgresbuild.Prelude.{
  ℕ, ◌≡◌, refl, Bool, true, false, ◌&&◌, ◌||◌, not, Option, none, some, List, [], ◌∷◌, ◌++◌, ◌==◌,
  arith, map, length, count, find, if◌then◌else◌, String, Exn, ExnClass, value_error, type_error,
  Result, ok, err, guard, expect, ◌>>=◌, ◌>>◌,
}
use postgresbuild.Prelude.Text.{
  Text, codes, text_eq, is, is_empty, text_in, ends_with, is_hex, quote, text_order, texts_eq,
}
use postgresbuild.Prelude.Int.{ℤ, is_negative}
use postgresbuild.Prelude.Order.{Order, lex_order}
use postgresbuild.Prelude.Sort.{sort}
use postgresbuild.Json.{
  Json, obj, str, Fields, end, field, Items, items, get, has_key, as_dict, as_list, is_text, as_int,
  is_str, py_eq,
}

abbrev pub raise_value : String → Exn
raise_value s = record { class = value_error; message = codes s }

abbrev pub raise_type : String → Exn
raise_type s = record { class = type_error; message = codes s }

-- `tuple[str, str, str]`
pub record Coordinate : Type 0 where
  pub package_name : Text
  pub source_version : Text
  pub target : Text

abbrev pub coordinate_key : Coordinate → List Text
coordinate_key c = c.package_name ∷ c.source_version ∷ c.target ∷ []

-- The order of the tuples.
unfoldable pub coordinate_le : Coordinate → Coordinate → Bool
unfolding lex_order text_order
coordinate_le a b = (lex_order text_order).le (coordinate_key a) (coordinate_key b)

unfoldable pub coordinate_eq : Coordinate → Coordinate → Bool
coordinate_eq a b =
    text_eq a.package_name b.package_name
    && text_eq a.source_version b.source_version
    && text_eq a.target b.target

-- `isinstance(item, str) and item`, with the text.
abbrev pub nonempty_str : Json → Option Text
nonempty_str (str (c ∷ s)) = some (c ∷ s)
nonempty_str _ = none

-- `_coordinate`
unfoldable pub coordinate : Json → Result Coordinate
coordinate v = do
  m ← expect (as_dict v) (raise_type "snapshot coordinate is invalid")
  package_name ← expect (nonempty_str (get m "package")) bad
  source_version ← expect (nonempty_str (get m "source_version")) bad
  target ← expect (nonempty_str (get m "target")) bad
  ok (record { package_name = package_name; source_version = source_version; target = target })
  where
    bad : Exn
    bad = raise_value "snapshot coordinate fields are invalid"

-- `_digest`, with the text that passes.
unfoldable pub digest : Json → Option Text
unfolding is_hex
digest (str s) = if length s == 64 && is_hex s then some s else none
digest _ = none

-- `_release_url`
unfoldable pub release_url : Text → Text → Text → Result Text
unfolding quote
release_url repository tag name = do
  t ← quote tag
  n ← quote name
  ok (
      codes "https://github.com/"
      ++ repository
      ++ codes "/releases/download/"
      ++ t
      ++ codes "/"
      ++ n)

-- `_FILE_ROLES`
pub data Role : Type 0 where
  primary_archive dbgsym test_data metadata test_result : Role

abbrev pub role_eq : Role → Role → Bool
role_eq primary_archive primary_archive = true
role_eq dbgsym dbgsym = true
role_eq test_data test_data = true
role_eq metadata metadata = true
role_eq test_result test_result = true
role_eq _ _ = false

-- `_PUBLIC_ROLES`
abbrev pub is_public : Role → Bool
is_public primary_archive = true
is_public dbgsym = true
is_public _ = false

-- The role that a text names.
unfoldable pub role_named : Text → Option Role
unfolding is
role_named s =
    if is s "primary-archive"
    then some primary_archive
    else if is s "dbgsym"
    then some dbgsym
    else if is s "test-data"
    then some test_data
    else if is s "metadata"
    then some metadata
    else if is s "test-result"
    then some test_result
    else none

-- `role in _FILE_ROLES`, with the role; a value that cannot be hashed raises `TypeError`.
abbrev pub role_of : Json → Result Role
role_of (str s) = expect (role_named s) (raise_value "snapshot file metadata is invalid")
role_of (Json.arr _) = err (raise_type "unhashable type: 'list'")
role_of (Json.obj _) = err (raise_type "unhashable type: 'dict'")
role_of _ = err (raise_value "snapshot file metadata is invalid")

-- `_public_name`
unfoldable pub public_name : Coordinate → Role → Text → Text
public_name c role tag =
    c.package_name
    ++ codes "-"
    ++ c.source_version
    ++ codes "+"
    ++ tag
    ++ codes "-"
    ++ c.target
    ++ (if role_eq role dbgsym then codes "-dbgsym" else [])
    ++ codes ".tar.zst"

-- A file that has passed, with what later code reads of it. `release_name` is there for the public
-- roles.
pub record File : Type 0 where
  pub source : Fields
  pub logical_name : Text
  pub role : Role
  pub sha256 : Text
  pub size : ℤ
  pub release_name : Option Text

-- `roles.count(role)`
abbrev pub count_role : Role → List File → ℕ
count_role role = count (λ (f : File). role_eq role f.role)

abbrev pub logical_names : List File → List Text
logical_names = map (λ (f : File). f.logical_name)

-- `names.add(name)`, where there is one.
abbrev pub add_name : Option Text → List Text → List Text
add_name none ts = ts
add_name (some n) ts = n ∷ ts

-- The set `names`: the release names of the files so far.
abbrev pub release_names : List File → List Text
release_names [] = []
release_names (f ∷ fs) = add_name f.release_name (release_names fs)

abbrev pub bad_metadata : Exn
bad_metadata = raise_value "snapshot file metadata is invalid"

abbrev pub not_canonical : Exn
not_canonical = raise_value "snapshot public filename or URL is not canonical"

abbrev pub must_remain_private : Exn
must_remain_private = raise_value "snapshot evidence file must remain private"

-- The release name of a file in a public role, after its checks.
unfoldable pub public_file :
    Text → Text → Coordinate → List Text → Role → Fields → Result (Option Text)
unfolding text_in is is_str py_eq text_eq public_name release_url
public_file repository tag c names role m = do
  guard (is_str (get m "media_type") (codes "application/x-tar")) not_canonical
  guard (is_str (get m "encoding") (codes "zstd")) not_canonical
  name ← expect (nonempty_str (get m "release_name")) not_canonical
  guard (not (text_in name names)) not_canonical
  guard (text_eq name (public_name c role tag)) not_canonical
  url ← release_url repository tag name
  guard (is_str (get m "url") url) not_canonical
  ok (some name)

-- The check of one file, whose public name, if it has one, is given.
unfoldable pub private_file : Fields → Result (Option Text)
unfolding has_key
private_file m = do
  guard (not (has_key m "release_name" || has_key m "url")) must_remain_private
  ok none

-- The body of the loop over `record["files"]`, `seen` being the files before this one.
unfoldable pub check_file : Text → Text → Coordinate → List File → Json → Result File
unfolding text_in ends_with digest role_named public_file private_file get
check_file repository tag c seen v = do
  m ← expect (as_dict v) (raise_type "snapshot file is invalid")
  logical_name ← expect (nonempty_str (get m "logical_name")) bad_metadata
  guard (not (text_in logical_name (logical_names seen))) bad_metadata
  guard (not (ends_with logical_name (codes ".debug.tar.zst"))) bad_metadata
  role ← role_of (get m "role")
  sha256 ← expect (digest (get m "sha256")) bad_metadata
  size ← expect (as_int (get m "size")) bad_metadata
  guard (not (is_negative size)) bad_metadata
  guard (is_text (get m "media_type")) bad_metadata
  guard (is_text (get m "encoding")) bad_metadata
  release_name ←
      if is_public role
      then public_file repository tag c (release_names seen) role m
      else private_file m
  ok (record {
    source = m;
    logical_name = logical_name;
    role = role;
    sha256 = sha256;
    size = size;
    release_name = release_name;
  })

unfoldable pub check_files : Text → Text → Coordinate → List File → List Json → Result (List File)
unfolding check_file
check_files repository tag c seen [] = ok seen
check_files repository tag c seen (v ∷ vs) = do
  f ← check_file repository tag c seen v
  check_files repository tag c (seen ++ f ∷ []) vs

-- The expected `test_result`.
abbrev pub bound_result : Coordinate → Text → Json → Fields
bound_result c sha256 recipe = field (codes "artifact_sha256") (str sha256) (
    field (codes "recipe") recipe
      (field (codes "target") (str c.target) (field (codes "version") (str c.source_version) end)))

abbrev pub unbound : String
unbound = "snapshot test result is not bound to its primary archive"

-- A record that has passed: the dict, and what `_validate_record` returns of it.
pub record Record : Type 0 where
  pub source : Fields
  pub coordinate : Coordinate
  pub files : List File

-- The checks behind the loop.
unfoldable pub check_record : Fields → Coordinate → List File → Result (Unit {0})
unfolding text_order text_eq py_eq
check_record m c files = do
  guard (count_role primary_archive files == 1)
      (raise_value "snapshot coordinate needs one primary archive")
  guard (count_role dbgsym files == 1) (raise_value "snapshot coordinate needs one dbgsym archive")
  guard (count_role metadata files == 1 && count_role test_result files == 1)
      (raise_value "snapshot coordinate metadata is incomplete")
  guard (texts_eq (logical_names files) (sort text_order.le (logical_names files)))
      (raise_value "snapshot files are not canonical")
  primary ←
      expect (find (λ (f : File). role_eq primary_archive f.role) files)
        (record { class = ExnClass.other; message = codes "StopIteration" })
  result ← expect (as_dict (get m "test_result")) (raise_type unbound)
  guard (is_text (get result "recipe")) (raise_type unbound)
  guard (py_eq (obj result) (obj (bound_result c primary.sha256 (get result "recipe"))))
      (raise_value unbound)

-- `_validate_record`
unfoldable pub validate_record : Text → Text → Json → Result Record
unfolding coordinate is check_files check_record get
validate_record repository tag v = do
  m ← expect (as_dict v) (raise_type "snapshot successful record is invalid")
  vs ← expect (as_list (get m "files")) (raise_type "snapshot successful record is invalid")
  c ← coordinate (get m "coordinate")
  guard (is c.package_name "postgresql") (raise_value "snapshot coordinate is not PostgreSQL")
  files ← check_files repository tag c [] (items vs)
  check_record m c files
  ok (record { source = m; coordinate = c; files = files })
