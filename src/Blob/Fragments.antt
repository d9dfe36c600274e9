-- ===== src/Blob/Fragments.antt =====
-- src/postgresbuild/blob.py: `list_fragments`. A page of the service's listing is its answer to a
-- cursor, or to none; the pages are read on fuel.
use postgresbuild.Prelude.{
  ℕ, zero, suc, Bool, Option, none, some, List, [], ◌∷◌, ◌++◌, Exn, decode_error, other, Result, ok,
  err, guard, expect, ◌>>=◌, ◌>>◌, if◌then◌else◌,
}
use postgresbuild.Prelude.Text.{Text, codes, is_empty, ends_with}
use postgresbuild.Json.{Json, Fields, get, as_dict, as_list, as_str, items, truthy}
use postgresbuild.Publication.Record.{raise_type}
use postgresbuild.Publication.Materialize.Encoding.{Bytes}
use postgresbuild.Blob.{Service}

-- The address of an item that is a fragment.
abbrev pub json_url : Option Text → Option Text → Option Text
json_url (some pathname) (some url) = if ends_with pathname (codes ".json") then some url else none
json_url (some pathname) none = none
json_url none url = none

unfoldable pub fragment_url : Json → Option Text
unfolding get ends_with
fragment_url item = elim (as_dict item) [
  | none ↦ none
  | some m ↦ json_url (as_str (get m "pathname")) (as_str (get m "url"))
]

abbrev pub malformed : Exn
malformed = raise_type "Vercel Blob list response is malformed"

abbrev pub cursor_of : Option Text → Result (Option Text)
cursor_of none = err (raise_type "Vercel Blob list cursor is malformed")
cursor_of (some c) =
    if is_empty c then err (raise_type "Vercel Blob list cursor is malformed") else ok (some c)

-- Where the listing goes on, if it does.
unfoldable pub next_cursor : Fields → Result (Option Text)
unfolding get
next_cursor page =
    if truthy (get page "hasMore") then cursor_of (as_str (get page "cursor")) else ok none

-- `BlobNotFoundError`, and what `json.loads` raises.
abbrev pub not_found : Exn
not_found = record { class = other; message = [] }

abbrev pub bad_json : Exn
bad_json = record { class = decode_error; message = [] }

abbrev pub out_of_pages : Exn
out_of_pages = record { class = other; message = codes "" }

module _ (service : Service) (list_page : Option Text → service.State → Result Json)
    (is_json : Bytes → Bool) (s : service.State) where
  -- `_get` and `json.loads`
  unfoldable pub read_fragment : Text → Result Bytes
  read_fragment url = do
    found ← service.read url s
    content ← expect found not_found
    guard (is_json content) bad_json
    ok content

  abbrev pub read_item : Option Text → Result (List Bytes)
  read_item none = ok []
  read_item (some url) = do content ← read_fragment url; ok (content ∷ [])

  -- The loop over the items of a page.
  unfoldable pub read_items : List Json → Result (List Bytes)
  unfolding fragment_url read_fragment
  read_items [] = ok []
  read_items (item ∷ more) = do
    first ← read_item (fragment_url item)
    rest ← read_items more
    ok (first ++ rest)

  -- A page: its fragments, and the next cursor.
  unfoldable pub read_page : Option Text → Result (List Bytes × Option Text)
  unfolding get read_items next_cursor
  read_page cursor = do
    answer ← list_page cursor s
    page ← expect (as_dict answer) malformed
    blobs ← expect (as_list (get page "blobs")) malformed
    contents ← read_items (items blobs)
    cursor ← next_cursor page
    ok (contents, cursor)

  -- The loop over the pages.
  unfoldable pub list_pages : ℕ → Option Text → Result (List Bytes)
  unfolding read_page
  list_pages zero cursor = err out_of_pages
  list_pages (suc fuel) cursor = do
    (contents, next) ← read_page cursor
    elim next [
      | none ↦ ok contents
      | some c ↦ do rest ← list_pages fuel (some c); ok (contents ++ rest)
    ]

  -- `list_fragments`
  unfoldable pub list_fragments : ℕ → Result (List Bytes)
  unfolding list_pages
  list_fragments fuel = list_pages fuel none
