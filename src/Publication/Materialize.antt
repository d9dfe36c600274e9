-- ===== src/Publication/Materialize.antt =====
-- publication.py: `materialize`, which stores a snapshot's fragment and brings the index up to date
-- by compare-and-swap. The function is a program of store requests, so that runs of several
-- writers can interleave.
pub mod Encoding
pub mod Store
pub mod Tags
pub mod Plan
pub mod Knowledge
pub mod Moves
pub mod NoLostUpdate
use postgresbuild.Prelude.{
  ℕ, zero, suc, Bool, true, false, not, ◌&&◌, Option, none, some, List, [], ◌∷◌, ◌++◌,
  if◌then◌else◌, any, find, Exn, ExnClass, runtime_error, decode_error, Result, ok, err, guard,
  expect, traverse, ◌>>=◌, ◌>>◌,
}
use postgresbuild.Prelude.Text.{Text, codes, text_eq}
use postgresbuild.Json.{Json, obj, Fields}
use postgresbuild.Publication.Platform.{Platform}
use postgresbuild.Publication.Record.{raise_value}
use postgresbuild.Publication.Fragment.{Fragment, fragment, validate_fragment}
use postgresbuild.Publication.Index.{Index, project_index, index_json, validate_index}
use postgresbuild.Publication.Materialize.Encoding.{Codec, Bytes}

abbrev pub Etag : Type 0
Etag = Text

-- The requests that the function makes of a `BlobStore`, each with what is done with the answer.
pub data Program : Type 0 where
  done : Result Index → Program
  put_immutable : (path : Text) (content : Bytes) → Program → Program
  get : (Option (Bytes × Etag) → Program) → Program
  list_fragments : (List Bytes → Program) → Program
  put_cas : (content : Bytes) (etag : Option Etag) → (Bool → Program) → Program

-- `by_tag[f["tag"]] = f`, where a key that is there keeps its place.
unfoldable pub set_tag : Fragment → List Fragment → List Fragment
unfolding text_eq
set_tag f [] = f ∷ []
set_tag f (g ∷ gs) = let rest = set_tag f gs in if text_eq g.tag f.tag then f ∷ gs else g ∷ rest

-- `{f["tag"]: f for f in fragments}`, continued.
unfoldable pub by_tag : List Fragment → List Fragment → List Fragment
unfolding set_tag
by_tag [] acc = acc
by_tag (f ∷ fs) acc = by_tag fs (set_tag f acc)

abbrev pub not_json : Exn
not_json = record { class = decode_error; message = codes "Expecting value" }

abbrev pub etag_of : Option (Bytes × Etag) → Option Etag
etag_of none = none
etag_of (some (c, t)) = some t

-- `existing is not None and existing[0] == content`
abbrev pub is_current : Option (Bytes × Etag) → Bytes → Bool
is_current none content = false
is_current (some (c, t)) content = text_eq c content

module _ (platform : Platform) (codec : Codec) (repository : Text) where
  -- `validate_fragment(json.loads(raw), repository)`
  unfoldable pub decode : Bytes → Result Fragment
  decode raw = do v ← expect (codec.loads raw) not_json; validate_fragment platform repository v

  -- `canonical_json(item)`
  abbrev pub payload : Fragment → Bytes
  payload item = codec.dumps (obj item.source)

  -- `validate_index(json.loads(existing[0]), repository)`, if there is an index.
  unfoldable pub check_existing : Option (Bytes × Etag) → Result (Unit {0})
  check_existing none = ok tt
  check_existing (some (c, t)) = do
    v ← expect (codec.loads c) not_json
    index ← validate_index platform repository v
    ok tt

  -- The stored fragment of the same tag has other content.
  unfoldable pub conflicts : Fragment → List Fragment → Bool
  unfolding text_eq
  conflicts item gs =
      any (λ (g : Fragment). text_eq g.tag item.tag && not (text_eq (payload g) (payload item))) gs

  -- From the listing to the new index.
  unfoldable pub plan : Fragment → List Bytes → Result Index
  unfolding decode by_tag conflicts
  plan item raws = do
    fragments ← traverse decode raws
    let gs = by_tag fragments []
    guard (not (conflicts item gs)) (raise_value "immutable snapshot fragment conflicts")
    ok (project_index (set_tag item gs))

  -- The end of the loop's body: done, or the swap, which is tried again if it is lost.
  unfoldable pub after_plan : Program → Option (Bytes × Etag) → Result Index → Program
  unfolding text_eq
  after_plan retry existing (err e) = done (err e)
  after_plan retry existing (ok index) =
      let content = codec.dumps (index_json index) in
      if is_current existing content
      then done (ok index)
      else put_cas content (etag_of existing) (λ won. if won then done (ok index) else retry)

  unfoldable pub after_list : Program → Fragment → Option (Bytes × Etag) → List Bytes → Program
  unfolding plan after_plan
  after_list retry item existing raws = after_plan retry existing (plan item raws)

  unfoldable pub after_check :
      Program → Fragment → Option (Bytes × Etag) → Result (Unit {0}) → Program
  unfolding after_list
  after_check retry item existing (err e) = done (err e)
  after_check retry item existing (ok u) = list_fragments (after_list retry item existing)

  unfoldable pub after_get : Program → Fragment → Option (Bytes × Etag) → Program
  unfolding check_existing after_check
  after_get retry item existing = after_check retry item existing (check_existing existing)

  -- `for _ in range(n)`
  unfoldable pub attempt : ℕ → Fragment → Program
  unfolding after_get
  attempt zero item = done (
      err (record {
        class = runtime_error;
        message = codes "Blob index compare-and-swap did not converge";
      }))
  attempt (suc n) item = get (after_get (attempt n item) item)

  unfoldable pub start : Fragment → Program
  unfolding attempt
  start item =
      put_immutable (codes "snapshots/" ++ item.tag ++ codes ".json") (payload item)
        (attempt 8 item)

  unfoldable pub prepare : Fields → Text → Result Fragment
  prepare snapshot published_at = do
    m ← fragment snapshot published_at
    validate_fragment platform repository (obj m)

  unfoldable pub after_prepare : Result Fragment → Program
  unfolding start
  after_prepare (err e) = done (err e)
  after_prepare (ok item) = start item

  -- `materialize`
  unfoldable pub materialize : Fields → Text → Program
  unfolding prepare after_prepare
  materialize snapshot published_at = after_prepare (prepare snapshot published_at)
