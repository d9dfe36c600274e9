-- ===== src/Blob/Listing.antt =====
-- src/postgresbuild/blob.py: `list_fragments` returns the fragments of all pages.
use postgresbuild.Prelude.{
  ℕ, zero, suc, ◌≤◌, ◌≡◌, refl, Bool, Option, none, some, List, ◌++◌, Result, ok, arith, ◌>>=◌,
}
use postgresbuild.Prelude.Text.{Text}
use postgresbuild.Json.{Json}
use postgresbuild.Publication.Materialize.Encoding.{Bytes}
use postgresbuild.Blob.{Service}
use postgresbuild.Blob.Fragments.{read_page, list_pages, list_fragments}

module _ (service : Service) (list_page : Option Text → service.State → Result Json)
    (is_json : Bytes → Bool) (s : service.State) where
  -- The pages from a cursor on, up to the one without a next cursor: what they hold, and how many
  -- they are.
  pub data IsListing : Option Text → List Bytes → ℕ → Type 0 where
    last :
        {cursor : Option Text} {contents : List Bytes}
        → read_page service list_page is_json s cursor ≡ ok (contents, none)
        → IsListing cursor contents 1
    next :
        {cursor : Option Text} {c : Text} {contents rest : List Bytes} {n : ℕ}
        → read_page service list_page is_json s cursor ≡ ok (contents, some c)
        → IsListing (some c) rest n
        → IsListing cursor (contents ++ rest) (suc n)

  list_pages-ok :
      {cursor : Option Text} {contents : List Bytes} {n : ℕ} (fuel : ℕ)
      → IsListing cursor contents n
      → n ≤ fuel
      → list_pages service list_page is_json s fuel cursor ≡ ok contents
  unfolding list_pages ◌>>=◌
  list_pages-ok zero (last e) h = absurd (omega arith)
  list_pages-ok zero (next e l) h = absurd (omega arith)
  list_pages-ok (suc fuel) (last e) h = rw e refl
  list_pages-ok (suc fuel) (next e l) h = rw e (rw (list_pages-ok fuel l (omega arith)) refl)

  -- Whenever the pages of the listing end, and can all be read, `list_fragments` returns what they
  -- hold, page after page, given as many steps as there are pages or more.
  pub list_fragments-ok :
      {contents : List Bytes} {n : ℕ} (fuel : ℕ)
      → IsListing none contents n
      → n ≤ fuel
      → list_fragments service list_page is_json s fuel ≡ ok contents
  unfolding list_fragments
  list_fragments-ok fuel l h = list_pages-ok fuel l h
