-- ===== src/Watch/Feedback.antt =====
-- scripts/babysit-pr.py: `author` and `read_feedback`.
use postgresbuild.Prelude.{
  ℕ, Bool, none, some, List, [], ◌∷◌, ◌++◌, map, keep, String, if◌then◌else◌, Result, ok, ◌>>=◌,
}
use postgresbuild.Prelude.Text.{Text, codes, is, is_empty, text_in, text_order}
use postgresbuild.Prelude.Order.{lex_order}
use postgresbuild.Prelude.Sort.{sort}
use postgresbuild.Json.{Json, Fields, get, as_dict, truthy}
use postgresbuild.Publication.Fragment.{at}
use postgresbuild.Watch.{Python, Gh, to_text, text_or_empty, or_text, repo_from_pr, api_records}

pub record Item : Type 0 where
  pub kind : Text
  pub id : Text
  pub author : Text
  pub body : Text
  pub url : Text
  pub time : Text

-- `itemgetter("time", "kind", "id")` and the order of such tuples.
abbrev pub item_key : Item → List Text
item_key i = i.time ∷ i.kind ∷ i.id ∷ []

abbrev pub item_le : Item → Item → Bool
item_le i j = (lex_order text_order).le (item_key i) (item_key j)

-- `v or w`
abbrev pub or_json : Json → Json → Json
or_json v w = if truthy v then v else w

module _ (python : Python) where
  -- `author`
  unfoldable pub author : Fields → Text
  unfolding get
  author item = elim (as_dict (get item "user")) [
    | none ↦ []
    | some user ↦ text_or_empty python (get user "login")
  ]

  -- `add`, what it appends.
  unfoldable pub add : String → Text → Fields → List Item
  unfolding author get
  add kind body item =
      if is_empty body
      then []
      else record {
        kind = codes kind;
        id = text_or_empty python (get item "id");
        author = author item;
        body = body;
        url = text_or_empty python (get item "html_url");
        time = text_or_empty python (or_json (get item "submitted_at") (get item "created_at"));
      }
        ∷ []

  abbrev pub each : (Fields → List Item) → List Fields → List Item
  each f [] = []
  each f (m ∷ ms) = f m ++ each f ms

  abbrev pub review_state : Fields → Text
  review_state item = python.upper (text_or_empty python (get item "state"))

  unfoldable pub is_pending_review : Fields → Bool
  unfolding is get
  is_pending_review item = is (review_state item) "PENDING"

  -- `pending_reviews`
  unfoldable pub pending_reviews : List Fields → List Text
  unfolding is_pending_review get
  pending_reviews reviews =
      map (λ item. to_text python (get item "id")) (keep is_pending_review reviews)

  -- The three loops.
  unfoldable pub comment_items : List Fields → List Item
  unfolding add get
  comment_items = each (λ item. add "comment" (text_or_empty python (get item "body")) item)

  unfoldable pub review_items : List Fields → List Item
  unfolding add is_pending_review get
  review_items = each (λ item.
      if is_pending_review item
      then []
      else add "review" (or_text (text_or_empty python (get item "body")) (review_state item)) item)

  unfoldable pub inline_items : List Text → List Fields → List Item
  unfolding add text_in get
  inline_items pending = each (λ item.
      if text_in (text_or_empty python (get item "pull_request_review_id")) pending
      then []
      else add "inline" (text_or_empty python (get item "body")) item)

  -- `read_feedback`
  unfoldable pub read_feedback : Gh → ℕ → Fields → Result (List Item)
  unfolding at repo_from_pr api_records pending_reviews comment_items review_items inline_items
      lex_order text_order
  read_feedback gh fuel pr = do
    repository ← repo_from_pr python pr
    let base = codes "repos/" ++ repository
    number_value ← at pr "number"
    let number = to_text python number_value
    reviews ← api_records python gh fuel (base ++ codes "/pulls/" ++ number ++ codes "/reviews")
    comments ← api_records python gh fuel (base ++ codes "/issues/" ++ number ++ codes "/comments")
    inline ← api_records python gh fuel (base ++ codes "/pulls/" ++ number ++ codes "/comments")
    ok (
        sort item_le (
          comment_items comments
          ++ (review_items reviews ++ inline_items (pending_reviews reviews) inline)))
