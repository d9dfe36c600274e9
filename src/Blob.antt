-- ===== src/Blob.antt =====
-- src/postgresbuild/blob.py: `VercelBlobStore`, its reads and writes. The listing is in Fragments;
-- the query that keeps caches from answering a read is part of the service's request.
pub mod Immutable
pub mod Fragments
pub mod Listing
use postgresbuild.Prelude.{
  ℕ, ◌≡◌, Bool, true, false, ◌&&◌, ◌||◌, not, ◌==◌, ltb, leb, Option, none, some, List, [], ◌∷◌,
  ◌++◌, Exn, Result, ok, err, guard, expect, ◌>>=◌, ◌>>◌, if◌then◌else◌,
}
use postgresbuild.Prelude.Text.{Text, codes, text_eq, is_empty, after_prefix}
use postgresbuild.Json.{Json, Fields, get, as_dict, as_str}
use postgresbuild.Publication.Record.{raise_value, raise_type}
use postgresbuild.Publication.Materialize.Encoding.{Bytes}

-- The Blob service and httpx. `is_success` tells of which status `raise_for_status` raises nothing
-- and `status_error` what it raises else. `read` is `get_blob`, `none` its `BlobNotFoundError`; `put` is the request
-- with an `if-match` tag or none, and with `x-allow-overwrite` set or not. A successful `put`
-- stores the content, and without leave to overwrite no `put` changes a stored blob.
pub record Service : Type 1 where
  pub State : Type 0
  pub public_url : Text → Text
  pub is_success : ℕ → Bool
  pub read : Text → State → Result (Option Bytes)
  pub metadata : Text → State → Result Json
  pub put : Text → Bytes → Option Text → Bool → State → Result ℕ × State
  pub status_error : ℕ → Exn
  pub put-stores :
      (path : Text) (content : Bytes) (tag : Option Text) (overwrite : Bool) (s : State)
      (status : ℕ)
      → (put path content tag overwrite s).0 ≡ ok status
      → is_success status ≡ true
      → read (public_url path) (put path content tag overwrite s).1 ≡ ok (some content)
  pub put-keeps :
      (path : Text) (content : Bytes) (tag : Option Text) (s : State) (url : Text) (old : Bytes)
      → read url s ≡ ok (some old)
      → read url (put path content tag false s).1 ≡ ok (some old)

-- `isinstance(etag, str) and etag and not etag.startswith("W/")`
abbrev pub strong_text : Option Text → Option Text
strong_text none = none
strong_text (some s) =
    if is_empty s
    then none
    else elim (after_prefix (codes "W/") s) [ none ↦ some s | some rest ↦ none ]

abbrev pub etag_of : Json → Option Text
etag_of v = elim (as_dict v) [ none ↦ none | some m ↦ strong_text (as_str (get m "etag")) ]

module _ (service : Service) where
  open service use {State, public_url, read, metadata, put, is_success, status_error}

  -- A result with the state that is left.
  abbrev pub Stored : Type 0 → Type 0
  Stored A = Result A × State

  -- `_strong_etag`
  unfoldable pub strong_etag : Text → State → Result Text
  unfolding after_prefix get
  strong_etag url s = do
    v ← metadata url s
    expect (etag_of v) (raise_type "Vercel Blob metadata response has no strong ETag")

  abbrev pub with_etag : Text → State → Option Bytes → Result (Option (Bytes × Text))
  with_etag url s none = ok none
  with_etag url s (some content) = do tag ← strong_etag url s; ok (some (content, tag))

  -- `get`
  unfoldable pub get_blob : Text → State → Result (Option (Bytes × Text))
  unfolding strong_etag
  get_blob path s = do found ← read (public_url path) s; with_etag (public_url path) s found

  -- `existing is None or existing[0] != content` raises what was caught.
  abbrev pub or_raise : Bytes → Exn → Option (Bytes × Text) → Result (Unit {0})
  or_raise content e none = err e
  or_raise content e (some (old, tag)) = guard (text_eq old content) e

  abbrev pub unless_stored : Text → Bytes → Exn → State → Result (Unit {0})
  unless_stored path content e s = do existing ← get_blob path s; or_raise content e existing

  -- `response.raise_for_status()` in its `try` statement.
  abbrev pub after_put : Text → Bytes → Stored ℕ → Stored (Unit {0})
  after_put path content (err e, s) = (err e, s)
  after_put path content (ok status, s) =
      if is_success status
      then (ok tt, s)
      else (unless_stored path content (status_error status) s, s)

  abbrev pub unless_existing :
      Text → Bytes → State → Result (Option (Bytes × Text)) → Stored (Unit {0})
  unless_existing path content s (err e) = (err e, s)
  unless_existing path content s (ok none) = after_put path content (put path content none false s)
  unless_existing path content s (ok (some (old, tag))) =
      (guard (text_eq old content) (raise_value "immutable Blob fragment conflicts"), s)

  -- `put_immutable`
  unfoldable pub put_immutable : Text → Bytes → State → Stored (Unit {0})
  unfolding get_blob text_eq
  put_immutable path content s = unless_existing path content s (get_blob path s)

  -- `publish_artifact`
  unfoldable pub publish_artifact : Text → Text → Bytes → State → Stored (Unit {0})
  unfolding put_immutable
  publish_artifact tag name content =
      put_immutable (codes "releases/" ++ tag ++ codes "/" ++ name) content

  abbrev pub is_some : Option Text → Bool
  is_some none = false
  is_some (some s) = true

  abbrev pub swapped : Result ℕ → Result Bool
  swapped (err e) = err e
  swapped (ok status) =
      if status == 409 || status == 412
      then ok false
      else if is_success status
      then ok true
      else err (status_error status)

  -- `put_cas`
  unfoldable pub put_cas : Text → Bytes → Option Text → State → Stored Bool
  put_cas path content tag s =
      let answer = put path content tag (is_some tag) s in (swapped answer.0, answer.1)
