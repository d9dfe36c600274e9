-- ===== src/Publication/Fetch.antt =====
-- publication.py: `fetch_valid_snapshot`, from a release on GitHub to its checked snapshot. Each
-- archive is downloaded and compared before it is handed to `publish_artifact`.
pub mod Verified
pub mod Published
use postgresbuild.Prelude.{
  ℕ, ◌≡◌, Bool, true, false, ◌&&◌, ◌||◌, not, Option, none, some, List, [], ◌∷◌, ◌++◌, ◌==◌, map,
  length, keep, String, if◌then◌else◌, Exn, ExnClass, key_error, Result, ok, err, guard, expect,
  ◌>>=◌, ◌>>◌,
}
use postgresbuild.Prelude.Text.{
  Text, codes, text_eq, text_in, text_order, utf8, is_surrogate, encode_error,
}
use postgresbuild.Prelude.Int.{ℤ, pos, int_eq}
use postgresbuild.Prelude.Sort.{sort}
use postgresbuild.Json.{
  Json, null, bool, int, str, arr, obj, Fields, end, field, items, lookup, get, as_dict, as_str,
  is_str, py_eq, truthy,
}
use postgresbuild.Publication.Platform.{Platform}
use postgresbuild.Publication.Policy.{Policy}
use postgresbuild.Publication.Record.{
  Role, primary_archive, role_eq, is_public, File, Record, release_url, raise_value, raise_type,
}
use postgresbuild.Publication.Fragment.{is_tag}
use postgresbuild.Publication.Snapshot.{
  Assets, asset_named, asset_names, snapshot_name, Manifest, validate_snapshot,
}
use postgresbuild.Publication.Materialize.Encoding.{Bytes, Codec}

-- `ReleaseReader`, by its answers.
pub record Reader : Type 0 where
  pub release_by_tag : Text → Text → Result (Option Fields)
  pub get_bytes : Text → Result Bytes

-- A call of `publish_artifact`.
pub record Artifact : Type 0 where
  pub tag : Text
  pub name : Text
  pub content : Bytes

-- `s.encode()`
unfoldable pub encode : Text → Result Bytes
unfolding utf8 is_surrogate
encode [] = ok []
encode (c ∷ s) = do rest ← encode s; guard (not (is_surrogate c)) encode_error; ok (utf8 c ++ rest)

keys : Fields → List Json
keys end = []
keys (field k v m) = str k ∷ keys m

-- `for asset in v`
unfoldable pub iterate : Json → Result (List Json)
unfolding keys
iterate (arr vs) = ok (items vs)
iterate (obj m) = ok (keys m)
iterate (str s) = ok (map (λ c. str (c ∷ [])) s)
iterate null = err (raise_type "object is not iterable")
iterate (bool b) = err (raise_type "object is not iterable")
iterate (int n) = err (raise_type "object is not iterable")

-- `release.get("assets", [])`
abbrev assets_or_empty : Option Json → Result (List Json)
assets_or_empty none = ok []
assets_or_empty (some v) = iterate v

-- The loop that makes `assets`.
unfoldable pub collect_assets : Assets → List Json → Result Assets
unfolding text_in
collect_assets assets [] = ok assets
collect_assets assets (v ∷ vs) = do
  asset ← expect (as_dict v) (raise_type "matching release has a malformed asset")
  name ← expect (as_str (get asset "name")) (raise_type "matching release has a malformed asset")
  guard (not (text_in name (asset_names assets)))
      (raise_value "matching release has duplicate asset names")
  collect_assets (assets ++ (name, asset) ∷ []) vs

-- `item["release_name"]` of a public file.
abbrev pub name_of : File → Text
name_of f = elim f.release_name [ none ↦ [] | some n ↦ n ]

unfoldable pub name_le : File → File → Bool
unfolding text_order
name_le f g = text_order.le (name_of f) (name_of g)

abbrev pub files_of : List Record → List File
files_of [] = []
files_of (r ∷ rs) = r.files ++ files_of rs

unfoldable pub public_items : List Record → List File
unfolding name_le
public_items rs = sort name_le (keep (λ (f : File). is_public f.role) (files_of rs))

-- The text of SHA256SUMS.
unfoldable pub checksum_lines : List File → Text
checksum_lines [] = []
checksum_lines (f ∷ fs) = f.sha256 ++ codes "  " ++ name_of f ++ codes "\n" ++ checksum_lines fs

abbrev pub mismatch : File → Exn
mismatch f = record {
  class = ExnClass.value_error;
  message = codes "release distribution does not match snapshot: " ++ name_of f;
}

abbrev pub bad_sums : Exn
bad_sums = raise_value "SHA256SUMS content does not match snapshot distributions"

abbrev pub no_manifest : Exn
no_manifest = raise_value "matching release has no snapshot manifest"

-- A release that is not a published one of this tag is left alone.
abbrev pub is_published : Text → Fields → Bool
is_published tag release =
    is_str (get release "tag_name") tag
    && is_str (get release "name") tag
    && not (truthy (get release "draft"))
    && not (truthy (get release "prerelease"))

module _ (platform : Platform) (codec : Codec) (hexdigest : Bytes → Text) (reader : Reader)
    (policy : Policy) where
  -- From the release's dict to its snapshot, the archives aside.
  unfoldable pub read_manifest : Text → Text → Fields → Result Manifest
  unfolding collect_assets iterate asset_named release_url py_eq validate_snapshot public_items
      checksum_lines encode text_eq int_eq lookup get
  read_manifest repository tag release = do
    listed ← assets_or_empty (lookup (codes "assets") release)
    assets ← collect_assets [] listed
    manifest ← expect (asset_named (codes snapshot_name) assets) no_manifest
    address ← expect (as_str (get manifest "browser_download_url")) no_manifest
    url ← release_url repository tag (codes snapshot_name)
    guard (text_eq address url) (raise_value "snapshot manifest URL is not canonical")
    raw ← reader.get_bytes address
    guard (py_eq (get manifest "size") (int (pos (length raw))))
        (raise_value "snapshot manifest size does not match release asset")
    value ← expect (codec.loads raw) (raise_value "matching release snapshot is malformed")
    snapshot ← validate_snapshot platform policy tag assets value
    expected ← encode (checksum_lines (public_items snapshot.successful))
    sums ← reader.get_bytes snapshot.checksum.url
    guard (int_eq (pos (length sums)) snapshot.checksum.size) bad_sums
    guard (text_eq (hexdigest sums) snapshot.checksum.sha256) bad_sums
    guard (text_eq sums expected) bad_sums
    ok snapshot

module _ (hexdigest : Bytes → Text) (reader : Reader) where
  -- The download of one archive.
  unfoldable pub download : File → Result Bytes
  unfolding int_eq text_eq get
  download f = do
    url ← expect (as_str (get f.source "url")) (record { class = key_error; message = codes "url" })
    content ← reader.get_bytes url
    guard (int_eq (pos (length content)) f.size) (mismatch f)
    guard (text_eq (hexdigest content) f.sha256) (mismatch f)
    ok content

-- A run that publishes: the calls of `publish_artifact` in order, and what it returns.
abbrev pub Calls : Type 0 → Type 0
Calls A = List Artifact × Result A

abbrev pub then_call : {A : Type 0} → Calls (Unit {0}) → Calls A → Calls A
then_call (calls, ok u) (more, r) = (calls ++ more, r)
then_call (calls, err e) later = (calls, err e)

abbrev pub if_read : Result Bytes → (Bytes → Calls (Unit {0})) → Calls (Unit {0})
if_read (ok content) k = k content
if_read (err e) k = ([], err e)

abbrev pub Publisher : Type 0
Publisher = Option (Artifact → Result (Unit {0}))

module _ (tag : Text) where
  abbrev pub artifact : File → Bytes → Artifact
  artifact f content = record { tag = tag; name = name_of f; content = content }

  -- `if publish_artifact is not None and item["role"] == "primary-archive"`
  unfoldable pub offer : Publisher → File → Bytes → Calls (Unit {0})
  offer none f content = ([], ok tt)
  offer (some p) f content =
      if role_eq primary_archive f.role
      then (artifact f content ∷ [], p (artifact f content))
      else ([], ok tt)

-- `release.get("published_at")`
unfoldable pub publication_time : Fields → Result Text
unfolding get
publication_time release =
    expect (as_str (get release "published_at"))
      (raise_type "published release has no publication time")

abbrev pub Fetched : Type 0
Fetched = Option (Manifest × Text)

unfoldable pub with_time : Fields → Manifest → Result Fetched
unfolding publication_time
with_time release m = do t ← publication_time release; ok (some (m, t))

module _ (hexdigest : Bytes → Text) (reader : Reader) (publish : Publisher) (tag : Text) where
  -- The loop over `public_items`.
  unfoldable pub fetch_items : List File → Calls (Unit {0})
  unfolding download offer
  fetch_items [] = ([], ok tt)
  fetch_items (f ∷ fs) =
      let rest = fetch_items fs in
      if_read (download hexdigest reader f)
        (λ content. then_call (offer tag publish f content) rest)

  unfoldable pub fetch_archives : Fields → Result Manifest → Calls Fetched
  unfolding fetch_items public_items with_time
  fetch_archives release (err e) = ([], err e)
  fetch_archives release (ok m) =
      then_call (fetch_items (public_items m.successful)) ([], with_time release m)

module _ (platform : Platform) (codec : Codec) (hexdigest : Bytes → Text) (reader : Reader)
    (policy : Policy) (publish : Publisher) (tag : Text) where
  unfoldable pub fetch_release : Text → Result (Option Fields) → Calls Fetched
  unfolding is_str read_manifest fetch_archives get
  fetch_release repository (err e) = ([], err e)
  fetch_release repository (ok none) = ([], ok none)
  fetch_release repository (ok (some release)) =
      if is_published tag release
      then fetch_archives hexdigest reader publish tag release
          (read_manifest platform codec hexdigest reader policy repository tag release)
      else ([], ok none)

  -- `fetch_valid_snapshot`
  unfoldable pub fetch_valid_snapshot : Text → Calls Fetched
  unfolding text_eq is_tag fetch_release
  fetch_valid_snapshot repository =
      if text_eq repository policy.repository && is_tag platform tag
      then fetch_release repository (reader.release_by_tag repository tag)
      else ([], ok none)
