-- ===== src/Publication/Fragment.antt =====
-- publication.py: `fragment` and `validate_fragment`.
pub mod Valid
use postgresbuild.Prelude.{
  ℕ, ◌+◌, ◌-◌, ◌*◌, ◌%◌, Bool, true, false, ◌&&◌, ◌||◌, not, Option, none, some, List, [], ◌∷◌,
  ◌==◌, leb, ltb, map, length, all, String, if◌then◌else◌, Exn, ExnClass, key_error, Result, ok,
  err, guard, expect, traverse, ◌>>=◌, ◌>>◌,
}
use postgresbuild.Prelude.Text.{Text, codes, is_hex}
use postgresbuild.Json.{
  Json, str, Fields, end, field, items, lookup, get, as_dict, as_list, as_str, is_str,
}
use postgresbuild.Publication.Platform.{Platform, Moment, naive, aware}
use postgresbuild.Publication.Record.{Coordinate, Record, validate_record, raise_value}
use postgresbuild.Publication.Coordinates.{is_canonical}

-- `d["…"]`
unfoldable pub at : Fields → String → Result Json
unfolding lookup
at m k = expect (lookup (codes k) m) (record { class = key_error; message = codes k })

-- `fragment`
unfoldable pub fragment : Fields → Text → Result Fields
unfolding at
fragment snapshot published_at = do
  repository ← at snapshot "repository"
  source_commit ← at snapshot "source_commit"
  successful ← at snapshot "successful"
  tag ← at snapshot "tag"
  ok (
      field (codes "format") (str (codes "postgresbuild-snapshot-fragment-v1")) (
        field (codes "published_at") (str published_at) (
          field (codes "repository") repository (
            field (codes "source_commit") source_commit
              (field (codes "successful") successful (field (codes "tag") tag end))))))

-- The days of a month.
unfoldable pub days_in_month : ℕ → ℕ → ℕ
days_in_month year month =
    if month == 2
    then (if year % 4 == 0 && (not (year % 100 == 0) || year % 400 == 0) then 29 else 28)
    else if month == 4 || month == 6 || month == 9 || month == 11
    then 30
    else 31

module _ (platform : Platform) where
  abbrev is_decimal : ℕ → Bool
  is_decimal c = elim (platform.decimal c) [ none ↦ false | some n ↦ true ]

  abbrev value_of : ℕ → ℕ
  value_of c = elim (platform.decimal c) [ none ↦ 0 | some n ↦ n ]

  -- `SNAPSHOT_TAG.fullmatch`
  unfoldable pub is_tag : Text → Bool
  is_tag s = length s == 12 && all is_decimal s

  -- `datetime.strptime(tag, "%Y%m%d%H%M")` on twelve decimal digits: each field takes its two
  -- digits, `%d`, `%H` and `%M` admitting a digit of any script in the second place, and the date
  -- exists.
  unfoldable pub is_minute : Text → Bool
  unfolding days_in_month
  is_minute (y1 ∷ y2 ∷ y3 ∷ y4 ∷ m1 ∷ m2 ∷ d1 ∷ d2 ∷ h1 ∷ h2 ∷ n1 ∷ n2 ∷ []) =
      let year = value_of y1 * 1000 + value_of y2 * 100 + value_of y3 * 10 + value_of y4 in
      let month = (m1 - 48) * 10 + (m2 - 48) in
      let day = (d1 - 48) * 10 + value_of d2 in
      (m1 == 48 && leb 49 m2 && leb m2 57 || m1 == 49 && leb 48 m2 && leb m2 50)
      && (d1 == 48 && leb 49 d2 && leb d2 57
          || leb 49 d1 && leb d1 50
          || d1 == 51 && leb 48 d2 && leb d2 49)
      && (leb 48 h1 && leb h1 49 || h1 == 50 && leb 48 h2 && leb h2 51)
      && (leb 48 n1 && leb n1 53)
      && (leb 1 year && leb day (days_in_month year month))
  is_minute _ = false

-- A fragment that has passed: the dict, and what later code reads of it.
pub record Fragment : Type 0 where
  pub source : Fields
  pub tag : Text
  pub published_at : Text
  pub source_commit : Text
  pub successful : List Record

abbrev pub coordinates_of : List Record → List Coordinate
coordinates_of = map (λ (r : Record). r.coordinate)

abbrev malformed : Exn
malformed = raise_value "snapshot fragment is malformed"

module _ (platform : Platform) where
  -- `datetime.fromisoformat(published_at)` with a timezone.
  unfoldable pub has_timezone : Text → Result (Unit {0})
  has_timezone s = elim (platform.from_iso s) [
    | none ↦ err (raise_value "snapshot fragment publication time is malformed")
    | some naive ↦ err (raise_value "snapshot fragment publication time has no timezone")
    | some (aware minute) ↦ ok tt
  ]

  -- `validate_fragment`
  unfoldable pub validate_fragment : Text → Json → Result Fragment
  unfolding is_str is_tag is_minute has_timezone is_hex is_canonical validate_record get
  validate_fragment repository v = do
    m ← expect (as_dict v) malformed
    guard (is_str (get m "format") (codes "postgresbuild-snapshot-fragment-v1")) malformed
    tag ← expect (as_str (get m "tag")) malformed
    published_at ← expect (as_str (get m "published_at")) malformed
    guard (is_str (get m "repository") repository) malformed
    source_commit ← expect (as_str (get m "source_commit")) malformed
    successful ← expect (as_list (get m "successful")) malformed
    guard (is_tag platform tag) (raise_value "snapshot fragment tag is malformed")
    guard (is_minute platform tag) (raise_value "snapshot fragment tag is not a UTC minute")
    has_timezone published_at
    guard (length source_commit == 40 && is_hex source_commit)
        (raise_value "snapshot fragment source commit is malformed")
    records ← traverse (validate_record repository tag) (items successful)
    guard (is_canonical (coordinates_of records))
        (raise_value "snapshot fragment records are not canonical")
    ok (record {
      source = m;
      tag = tag;
      published_at = published_at;
      source_commit = source_commit;
      successful = records;
    })
