-- ===== src/Tests/Watches.antt =====
-- A watch on a small pull request.
use postgresbuild.Prelude.{
  ◌≡◌, refl, false, Option, some, [], ◌∷◌, ok, ◌>>=◌, ◌>>◌, guard, expect, traverse, if◌then◌else◌,
}
use postgresbuild.Prelude.Text.{
  joined, Text, codes, is, text_eq, text_in, contains_text, text_order,
}
use postgresbuild.Prelude.Order.{lex_order}
use postgresbuild.Prelude.Decimal.{show}
use postgresbuild.Prelude.Sort.{sort, insert}
use postgresbuild.Prelude.Int.{pos}
use postgresbuild.Json.{Json, str, int, arr, obj, nil, cons, end, field, Fields, items, get, lookup}
use postgresbuild.Publication.Policy.{split_slash}
use postgresbuild.Publication.Fragment.{at}
use postgresbuild.Watch.{
  Python, Gh, mapping, records, strip_left, strip_right, repo_from_pr, gh_json, read_pr,
  read_checks, read_runs, api_pages, api_records,
}
use postgresbuild.Watch.Checks.{
  classify_checks, is_pending, is_passed, is_skipped, add_check, add_checks,
}
use postgresbuild.Watch.Classified.{IsClassified, classify_checks-IsClassified}
use postgresbuild.Watch.Feedback.{
  Item, author, add, is_pending_review, pending_reviews, comment_items, review_items, inline_items,
  read_feedback,
}
use postgresbuild.Watch.Loop.{Snapshot, start, Round, read_snapshot, watch}
use postgresbuild.Watch.Reported.{IsReported, watch-IsReported}

abbrev entry : Text → Json → Fields
entry k v = field k v end

abbrev check : Fields
check = field (codes "bucket") (str (codes "pass")) (entry (codes "name") (str (codes "test")))

abbrev late_check : Fields
late_check = entry (codes "bucket") (str (codes "pending"))

abbrev comment : Fields
comment =
    field (codes "id") (int (pos 5))
      (field (codes "body") (str (codes "nice")) (entry (codes "created_at") (str (codes "1"))))

abbrev pull : Fields
pull = field (codes "number") (int (pos 7)) (
    field (codes "url") (str (codes "u")) (
      field (codes "state") (str (codes "OPEN")) (
        field (codes "headRefOid") (str (codes "abc"))
          (entry (codes "mergeable") (str (codes "MERGEABLE"))))))

-- The documents, by the text that stands for them.
unfoldable document : Text → Option Json
unfolding is text_eq
document s =
    if is s "pull"
    then some (obj pull)
    else if is s "checks"
    then some (arr (cons (obj check) nil))
    else if is s "comments"
    then some (arr (cons (obj comment) nil))
    else some (arr nil)

abbrev python : Python
python = record {
  show_value = λ v. codes "7";
  loads = document;
  lower = λ s. s;
  upper = λ s. s;
  strip = λ s. s;
  words = λ s. s ∷ [];
  urlsplit = λ s.
      ok (record { hostname = some (codes "github.com"); path = codes "/o/r/pull/7"; whole = s });
}

unfoldable answer : Text → Text → Text
unfolding is text_eq contains_text
answer a b =
    if is b "view"
    then codes "pull"
    else if is b "checks"
    then codes "checks"
    else if contains_text (codes "issues") b
    then codes "comments"
    else codes "none"

abbrev gh : Gh
gh (a ∷ b ∷ more) = ok (record { returncode = 0; stdout = answer a b; stderr = [] })
gh _ = ok (record { returncode = 1; stdout = []; stderr = [] })

abbrev quiet : Round
quiet = record { gh = gh; confirm = gh; late = false }

classify_checks-IsClassified_example :
    IsClassified python (check ∷ late_check ∷ []) (classify_checks python (check ∷ late_check ∷ []))
classify_checks-IsClassified_example = classify_checks-IsClassified python (check ∷ late_check ∷ [])

watch-IsReported_example :
    IsReported (watch python false (codes "auto") 2 (quiet ∷ quiet ∷ []) start).0
watch-IsReported_example = watch-IsReported python false (codes "auto") 2 (quiet ∷ quiet ∷ [])

abbrev item : Item
item = record {
  kind = codes "comment";
  id = codes "7";
  author = [];
  body = codes "nice";
  url = [];
  time = codes "1";
}

abbrev snapshot : Snapshot
snapshot = record {
  pr = pull;
  checks = record { total = 1; passed = 1; skipped = 0; pending = []; failed = [] };
  feedback = item ∷ [];
  runs = [];
}

read : read_snapshot python gh 2 (codes "auto") ≡ ok snapshot
unfolding document answer ◌>>=◌ ◌>>◌ guard expect traverse is text_eq text_in contains_text
    text_order lex_order show sort items get lookup split_slash at joined mapping records strip_left
    strip_right repo_from_pr gh_json read_pr read_checks read_runs api_pages api_records
    classify_checks is_pending is_passed is_skipped add_check add_checks author add
    is_pending_review pending_reviews comment_items review_items inline_items read_feedback
    read_snapshot insert
read = refl
