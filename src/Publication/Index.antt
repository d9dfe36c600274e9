-- ===== src/Publication/Index.antt =====
-- publication.py: `project_index`, the index made of all fragments, and `validate_index`.
pub mod Independence
pub mod Newest
use postgresbuild.Prelude.{
  ℕ, Bool, true, false, ◌&&◌, not, Option, none, some, List, [], ◌∷◌, ◌++◌, ◌==◌, map, length, any,
  String, if◌then◌else◌, Exn, Result, ok, err, guard, expect, traverse, ◌>>=◌, ◌>>◌,
}
use postgresbuild.Prelude.Text.{Text, codes, text_order, text_eq, distinct}
use postgresbuild.Prelude.Order.{Order, lex_order}
use postgresbuild.Prelude.Sort.{sort}
use postgresbuild.Json.{
  Json, obj, arr, str, Fields, end, field, Items, items, from_items, lookup, insert, get, as_dict,
  as_list, is_str, py_eq,
}
use postgresbuild.Publication.Platform.{Platform}
use postgresbuild.Publication.Record.{
  Coordinate, coordinate_le, coordinate_eq, Record, raise_value, raise_type,
}
use postgresbuild.Publication.Fragment.{Fragment, validate_fragment, at}

-- `{**record, "tag": tag}`
pub record Latest : Type 0 where
  pub built : Record
  pub tag : Text

pub record Snapshot : Type 0 where
  pub published_at : Text
  pub source_commit : Text
  pub successful : List Record
  pub tag : Text

pub record Index : Type 0 where
  pub latest : List Latest
  pub snapshots : List Snapshot

-- `operator.itemgetter("published_at", "tag")`
abbrev pub age : Fragment → List Text
age f = f.published_at ∷ f.tag ∷ []

-- The order of the tuples, and `reverse=True`.
unfoldable pub newer : Fragment → Fragment → Bool
unfolding lex_order text_order
newer f g = (lex_order text_order).le (age g) (age f)

unfoldable pub record_le : Record → Record → Bool
unfolding coordinate_le
record_le r s = coordinate_le r.coordinate s.coordinate

unfoldable pub latest_le : Latest → Latest → Bool
unfolding coordinate_le
latest_le a b = coordinate_le a.built.coordinate b.built.coordinate

-- `key in latest`
unfoldable pub covered : Coordinate → List Latest → Bool
unfolding coordinate_eq
covered c = any (λ (e : Latest). coordinate_eq c e.built.coordinate)

-- `latest.setdefault(key, ...)`, the entries in the order of insertion.
unfoldable pub set_default : Latest → List Latest → List Latest
unfolding covered
set_default e es = if covered e.built.coordinate es then es else es ++ e ∷ []

-- The inner loop, over the records of one snapshot.
unfoldable pub add_records : Text → List Record → List Latest → List Latest
unfolding set_default
add_records tag [] es = es
add_records tag (r ∷ rs) es = add_records tag rs (set_default (record { built = r; tag = tag }) es)

-- The outer loop.
unfoldable pub add_snapshots : List Snapshot → List Latest → List Latest
unfolding add_records
add_snapshots [] es = es
add_snapshots (s ∷ ss) es = add_snapshots ss (add_records s.tag s.successful es)

unfoldable pub snapshot_of : Fragment → Snapshot
unfolding record_le
snapshot_of f = record {
  published_at = f.published_at;
  source_commit = f.source_commit;
  successful = sort record_le f.successful;
  tag = f.tag;
}

-- `project_index`
unfoldable pub project_index : List Fragment → Index
unfolding newer snapshot_of add_snapshots latest_le
project_index fragments =
    let snapshots = map snapshot_of (sort newer fragments) in
    record { latest = sort latest_le (add_snapshots snapshots []); snapshots = snapshots }

-- The index as the dict that is stored and served.
abbrev pub json_list {ℓ} : {A : Type ℓ} → (A → Json) → List A → Json
json_list f xs = arr (from_items (map f xs))

abbrev pub record_json : Record → Json
record_json r = obj r.source

unfoldable pub latest_json : Latest → Json
unfolding insert
latest_json e = obj (insert (codes "tag") (str e.tag) e.built.source)

unfoldable pub snapshot_json : Snapshot → Json
unfolding from_items
snapshot_json s = obj (
    field (codes "published_at") (str s.published_at) (
      field (codes "source_commit") (str s.source_commit) (
        field (codes "successful") (json_list record_json s.successful)
          (field (codes "tag") (str s.tag) end))))

unfoldable pub index_json : Index → Json
unfolding latest_json snapshot_json
index_json i = obj (
    field (codes "format") (str (codes "postgresbuild-index-v1")) (
      field (codes "latest") (json_list latest_json i.latest)
        (field (codes "snapshots") (json_list snapshot_json i.snapshots) end)))

-- `item["…"]` for the entries of `value["snapshots"]`, and the fragment that they are made into,
-- with the repository that `validate_fragment` is given.
unfoldable pub stored_fragment : Text → Json → Result Fields
unfolding at
stored_fragment repository v = do
  m ← expect (as_dict v) (raise_type "snapshot is not subscriptable by a string")
  published_at ← at m "published_at"
  source_commit ← at m "source_commit"
  successful ← at m "successful"
  tag ← at m "tag"
  ok (
      field (codes "format") (str (codes "postgresbuild-snapshot-fragment-v1")) (
        field (codes "published_at") published_at (
          field (codes "source_commit") source_commit (
            field (codes "successful") successful
              (field (codes "tag") tag (field (codes "repository") (str repository) end))))))

-- A member of a Python set must be hashable.
abbrev hashable : Json → Result (Unit {0})
hashable (arr vs) = err (raise_type "unhashable type: 'list'")
hashable (obj m) = err (raise_type "unhashable type: 'dict'")
hashable _ = ok tt

abbrev all_hashable : List Json → Result (Unit {0})
all_hashable [] = ok tt
all_hashable (v ∷ vs) = hashable v >> all_hashable vs

-- `len(set(vs)) == len(vs)`
abbrev all_different : List Json → Bool
all_different [] = true
all_different (v ∷ vs) = not (any (py_eq v) vs) && all_different vs

-- `validate_index`. The dict that it returns equals the index that is projected from its own
-- snapshots, and is given by it.
module _ (platform : Platform) where
  unfoldable pub validate_index : Text → Json → Result Index
  unfolding is_str stored_fragment validate_fragment project_index index_json py_eq get
  validate_index repository v = do
    m ← expect (as_dict v) (raise_value "stored index is malformed")
    guard (is_str (get m "format") (codes "postgresbuild-index-v1"))
        (raise_value "stored index is malformed")
    snapshots ←
        expect (as_list (get m "snapshots")) (raise_type "stored index collections are malformed")
    latest ← expect (as_list (get m "latest")) (raise_type "stored index collections are malformed")
    stored ← traverse (stored_fragment repository) (items snapshots)
    let tags = map (λ (f : Fields). get f "tag") stored
    all_hashable tags
    guard (all_different tags) (raise_value "stored index contains duplicate snapshot tags")
    fragments ← traverse (λ (f : Fields). validate_fragment platform repository (obj f)) stored
    let projected = project_index fragments
    guard (py_eq (index_json projected) v) (raise_value "stored index is not canonical")
    ok projected
