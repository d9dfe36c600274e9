-- ===== src/Publication/Snapshot.antt =====
-- publication.py: `validate_snapshot`, the check of a release's manifest against the release.
pub mod Assets
pub mod Valid
use postgresbuild.Prelude.{
  ℕ, ◌≡◌, Bool, true, false, ◌&&◌, ◌||◌, not, Option, none, some, List, [], ◌∷◌, ◌++◌, ◌==◌, all,
  any, map, find, length, String, if◌then◌else◌, Exn, ExnClass, other, Result, ok, err, guard,
  expect, traverse, ◌>>=◌, ◌>>◌,
}
use postgresbuild.Prelude.Text.{Text, codes, text_eq, is, text_in, is_hex}
use postgresbuild.Prelude.Int.{ℤ, is_negative}
use postgresbuild.Prelude.Sort.{sort}
use postgresbuild.Json.{
  Json, str, arr, obj, Fields, Items, items, get, as_dict, as_list, as_str, as_int, is_str, py_eq,
}
use postgresbuild.Publication.Platform.{Platform, Moment, naive, aware}
use postgresbuild.Publication.Policy.{Policy, workflow_ref}
use postgresbuild.Publication.Record.{
  Coordinate, coordinate, coordinate_eq, coordinate_le, digest, release_url, File, Record,
  release_names, validate_record, raise_value, raise_type,
}
use postgresbuild.Publication.Coordinates.{is_canonical, coordinates_eq}

abbrev pub snapshot_name : String
snapshot_name = "ggbuild-snapshot-v1.json"

abbrev pub checksum_name : String
checksum_name = "SHA256SUMS"

-- `release_assets`, the release's assets by their names, which are different.
abbrev pub Assets : Type 0
Assets = List (Text × Fields)

unfoldable pub asset_named : Text → Assets → Option Fields
unfolding text_eq
asset_named n [] = none
asset_named n ((k, a) ∷ as_) = if text_eq k n then some a else asset_named n as_

abbrev pub asset_names : Assets → List Text
asset_names = map (λ (a : Text × Fields). a.0)

abbrev pub unmatched : Exn
unmatched = raise_value "snapshot file does not match its release asset"

-- `next(item for item in record["files"] if item.get("release_name") == name)`
abbrev pub is_named : Text → File → Bool
is_named n f = is_str (get f.source "release_name") n

unfoldable pub check_asset : Assets → List Text → List File → Text → Result (Unit {0})
unfolding asset_named text_in py_eq is_str
check_asset assets seen files name = do
  item ←
      expect (find (is_named name) files)
        (record { class = ExnClass.other; message = codes "StopIteration" })
  asset ← expect (asset_named name assets) unmatched
  guard (not (text_in name seen)) unmatched
  guard (py_eq (get item.source "url") (get asset "browser_download_url")) unmatched
  guard (py_eq (get item.source "size") (get asset "size")) unmatched

-- The loop over a record's `names`, a set: the order is not seen, since every failure is the same.
unfoldable pub check_assets : Assets → List File → List Text → List Text → Result (List Text)
unfolding check_asset
check_assets assets files seen [] = ok seen
check_assets assets files seen (n ∷ ns) = do
  check_asset assets seen files n
  check_assets assets files (n ∷ seen) ns

-- `coordinates`, `release_names` and the records so far.
pub record Progress : Type 0 where
  pub records : List Record
  pub names : List Text

abbrev pub coordinates_so_far : Progress → List Coordinate
coordinates_so_far p = map (λ (r : Record). r.coordinate) p.records

unfoldable pub check_successful :
    Text → Text → Assets → List Coordinate → Progress → Json → Result Progress
unfolding validate_record coordinate_eq check_assets
check_successful repository tag assets expected p v = do
  r ← validate_record repository tag v
  guard
      (not (
        any (coordinate_eq r.coordinate) (coordinates_so_far p)
        || not (any (coordinate_eq r.coordinate) expected)))
      (raise_value "snapshot contains a duplicate coordinate")
  names ← check_assets assets r.files p.names (release_names r.files)
  ok (record { records = p.records ++ r ∷ []; names = names })

unfoldable pub check_all :
    Text → Text → Assets → List Coordinate → Progress → List Json → Result Progress
unfolding check_successful
check_all repository tag assets expected p [] = ok p
check_all repository tag assets expected p (v ∷ vs) = do
  q ← check_successful repository tag assets expected p v
  check_all repository tag assets expected q vs

-- Equality of sets.
unfoldable pub same_coordinates : List Coordinate → List Coordinate → Bool
unfolding coordinate_eq
same_coordinates cs ds =
    all (λ c. any (coordinate_eq c) ds) cs && all (λ d. any (coordinate_eq d) cs) ds

unfoldable pub same_names : List Text → List Text → Bool
unfolding text_in
same_names ss ts = all (λ s. text_in s ts) ss && all (λ t. text_in t ss) ts

-- `v in {"…", …}`; a value that cannot be hashed raises `TypeError`.
unfoldable pub is_one_of : Json → List Text → Result Bool
unfolding text_in
is_one_of (str s) ts = ok (text_in s ts)
is_one_of (arr _) ts = err (raise_type "unhashable type: 'list'")
is_one_of (obj _) ts = err (raise_type "unhashable type: 'dict'")
is_one_of _ ts = ok false

abbrev pub bad_identity : Exn
bad_identity = raise_value "snapshot workflow identity is invalid"

abbrev pub bad_checksum : Exn
bad_checksum = raise_value "snapshot checksum descriptor is invalid"

abbrev pub events : List Text
events = codes "push" ∷ codes "workflow_dispatch" ∷ []

module _ (platform : Platform) where
  -- `isinstance(v, str) and v.isdigit()`
  abbrev pub is_digits : Json → Bool
  is_digits (str (c ∷ s)) = all platform.is_digit_char (c ∷ s)
  is_digits _ = false

  -- The UTC minute of a time with a timezone.
  unfoldable pub minute_of : Text → Result Text
  minute_of s = elim (platform.from_iso s) [
    | none ↦ err (raise_value "snapshot run start time is invalid")
    | some naive ↦ err (raise_value "snapshot run start time has no timezone")
    | some (aware minute) ↦ ok minute
  ]

  -- The part about `snapshot["run"]`.
  unfoldable pub check_run : Policy → Text → Json → Result (Unit {0})
  unfolding is_one_of is_str workflow_ref minute_of text_eq get
  check_run policy tag v = do
    run ← expect (as_dict v) bad_identity
    known ← is_one_of (get run "event") events
    guard known bad_identity
    guard (is_str (get run "workflow_ref") (workflow_ref policy)) bad_identity
    guard (is_digits (get run "id")) bad_identity
    guard (is_digits (get run "attempt")) bad_identity
    started_at ← expect (as_str (get run "started_at")) bad_identity
    minute ← minute_of started_at
    guard (text_eq tag minute) (raise_value "snapshot tag does not match its workflow run")

-- The descriptor of SHA256SUMS.
pub record Checksum : Type 0 where
  pub url : Text
  pub sha256 : Text
  pub size : ℤ

-- The part about `snapshot["checksum"]`.
unfoldable pub check_checksum : Text → Text → Assets → Json → Result Checksum
unfolding is_str release_url digest asset_named py_eq get
check_checksum repository tag assets v = do
  checksum ← expect (as_dict v) bad_checksum
  guard (is_str (get checksum "release_name") (codes checksum_name)) bad_checksum
  url ← release_url repository tag (codes checksum_name)
  guard (is_str (get checksum "url") url) bad_checksum
  guard (is_str (get checksum "media_type") (codes "text/plain")) bad_checksum
  sha256 ← expect (digest (get checksum "sha256")) bad_checksum
  size ← expect (as_int (get checksum "size")) bad_checksum
  guard (not (is_negative size)) bad_checksum
  asset ← expect (asset_named (codes checksum_name) assets) bad_checksum
  guard (py_eq (get asset "browser_download_url") (get checksum "url")) bad_checksum
  guard (py_eq (get asset "size") (get checksum "size")) bad_checksum
  ok (record { url = url; sha256 = sha256; size = size })

-- A snapshot that has passed: the dict, and what later code reads of it.
pub record Manifest : Type 0 where
  pub source : Fields
  pub expected : List Coordinate
  pub successful : List Record
  pub checksum : Checksum

abbrev pub wrong_format : Exn
wrong_format = raise_value "snapshot has the wrong format"

-- The names that a release with these archives has.
abbrev pub with_documents : List Text → List Text
with_documents names = codes checksum_name ∷ codes snapshot_name ∷ names

-- `validate_snapshot`
unfoldable pub validate_snapshot : Platform → Policy → Text → Assets → Json → Result Manifest
unfolding is_str is_hex coordinate is_canonical check_all coordinate_le same_coordinates check_run
    check_checksum same_names get
validate_snapshot platform policy tag assets v = do
  m ← expect (as_dict v) wrong_format
  guard (is_str (get m "format") (codes "ggbuild-snapshot-v1")) wrong_format
  guard (is_str (get m "repository") policy.repository && is_str (get m "tag") tag)
      (raise_value "snapshot repository or tag does not match release")
  source_commit ←
      expect (as_str (get m "source_commit")) (raise_type "snapshot source commit is invalid")
  guard (length source_commit == 40 && is_hex source_commit)
      (raise_type "snapshot source commit is invalid")
  successful ←
      expect (as_list (get m "successful")) (raise_type "snapshot coordinate sets are invalid")
  listed ←
      expect (as_list (get m "expected_coordinates"))
        (raise_type "snapshot coordinate sets are invalid")
  expected ← traverse coordinate (items listed)
  guard (is_canonical expected) (raise_value "snapshot expected coordinates are not canonical")
  p ←
      check_all policy.repository tag assets expected (record { records = []; names = [] })
        (items successful)
  guard (coordinates_eq (coordinates_so_far p) (sort coordinate_le (coordinates_so_far p)))
      (raise_value "snapshot successful records are not canonical")
  guard (same_coordinates (coordinates_so_far p) expected)
      (raise_value "snapshot successful coordinates do not match expected coordinates")
  check_run platform policy tag (get m "run")
  checksum ← check_checksum policy.repository tag assets (get m "checksum")
  guard (same_names (asset_names assets) (with_documents p.names))
      (raise_value "release has assets not declared by its snapshot")
  ok (record { source = m; expected = expected; successful = p.records; checksum = checksum })
