-- ===== src/Publication/Materialize/Store.antt =====
-- publication.py: the interface `BlobStore`, with what `materialize` relies on, and how programs
-- run on a store: one request at a time, those of several writers in any order.
use postgresbuild.Prelude.{
  ℕ, zero, suc, ◌≡◌, Bool, true, false, Option, none, some, List, [], ◌∷◌, ◌++◌, In, Exn, other,
  err,
}
use postgresbuild.Prelude.Text.{Text, codes}
use postgresbuild.Json.{Fields}
use postgresbuild.Publication.Platform.{Platform}
use postgresbuild.Publication.Materialize.{
  Program, done, put_immutable, get, list_fragments, put_cas, Etag, etag_of, materialize,
}
use postgresbuild.Publication.Materialize.Encoding.{Codec, Bytes}

abbrev pub fragment_path : Text → Text
fragment_path tag = codes "snapshots/" ++ tag ++ codes ".json"

abbrev pub content_of : Option (Bytes × Etag) → Option Bytes
content_of none = none
content_of (some (c, e)) = some c

-- The store is a parameter: its operations, `none` where one raises, and their documented
-- behaviour.
pub record BlobStore : Type 1 where
  pub State : Type 0
  -- `get("index.json")`
  pub read_index : State → Option (Bytes × Etag)
  pub stored : State → List Bytes
  pub write_fragment : Text → Bytes → State → Option State
  -- `put_cas("index.json", content, etag)`
  pub swap_index : Bytes → Option Etag → State → Bool × State
  -- A new fragment is listed, those that were there stay, and the index is not touched.
  pub write_adds :
      (tag : Text) (content : Bytes) (s : State) {s' : State}
      → write_fragment (fragment_path tag) content s ≡ some s'
      → In content (stored s')
  pub write_keeps :
      (path : Text) (content : Bytes) (s : State) {s' : State} {raw : Bytes}
      → write_fragment path content s ≡ some s'
      → In raw (stored s)
      → In raw (stored s')
  pub write_index :
      (path : Text) (content : Bytes) (s : State) {s' : State}
      → write_fragment path content s ≡ some s'
      → read_index s' ≡ read_index s
  -- The swap is won only against the version that the caller names, and then sets the content.
  pub swap_match :
      (content : Bytes) (etag : Option Etag) (s : State)
      → (swap_index content etag s).0 ≡ true
      → etag_of (read_index s) ≡ etag
  pub swap_won :
      (content : Bytes) (etag : Option Etag) (s : State)
      → (swap_index content etag s).0 ≡ true
      → content_of (read_index (swap_index content etag s).1) ≡ some content
  pub swap_lost :
      (content : Bytes) (etag : Option Etag) (s : State)
      → (swap_index content etag s).0 ≡ false
      → read_index (swap_index content etag s).1 ≡ read_index s
  pub swap_stored :
      (content : Bytes) (etag : Option Etag) (s : State)
      → stored (swap_index content etag s).1 ≡ stored s
  -- An entity tag is strong: it stands for one content.
  pub content_by_etag : Etag → Bytes
  pub etag_strong :
      (s : State) {c : Bytes} {e : Etag} → read_index s ≡ some (c, e) → content_by_etag e ≡ c

abbrev pub blob_error : Exn
blob_error = record { class = other; message = codes "" }

module _ (store : BlobStore) where
  abbrev pub written : Program → store.State → Option store.State → Program × store.State
  written k s none = (done (err blob_error), s)
  written k s (some s') = (k, s')

  -- One request and its answer.
  unfoldable pub step : Program → store.State → Program × store.State
  step (done r) s = (done r, s)
  step (put_immutable path content k) s = written k s (store.write_fragment path content s)
  step (get k) s = (k (store.read_index s), s)
  step (list_fragments k) s = (k (store.stored s), s)
  step (put_cas content etag k) s =
      let answer = store.swap_index content etag s in (k answer.0, answer.1)

-- A call of `materialize` and where it is.
pub record Writer : Type 0 where
  pub snapshot : Fields
  pub published_at : Text
  pub program : Program

module _ (platform : Platform) (codec : Codec) (repository : Text) where
  unfoldable pub writer : Fields × Text → Writer
  unfolding materialize
  writer (snapshot, published_at) = record {
    snapshot = snapshot;
    published_at = published_at;
    program = materialize platform codec repository snapshot published_at;
  }

module _ (store : BlobStore) where
  abbrev pub with_program : Writer → Program → Writer
  with_program w p = record { snapshot = w.snapshot; published_at = w.published_at; program = p }

  -- The writer at a place makes its next request.
  unfoldable pub step_at : ℕ → List Writer → store.State → List Writer × store.State
  unfolding step
  step_at n [] s = ([], s)
  step_at zero (w ∷ ws) s =
      let next = step store w.program s in (with_program w next.0 ∷ ws, next.1)
  step_at (suc n) (w ∷ ws) s = let rest = step_at n ws s in (w ∷ rest.0, rest.1)

  -- A schedule says which writer moves next; one that has crashed is no longer named.
  unfoldable pub run : List ℕ → List Writer → store.State → List Writer × store.State
  unfolding step_at
  run [] ws s = (ws, s)
  run (n ∷ ns) ws s = let next = step_at n ws s in run ns next.0 next.1
