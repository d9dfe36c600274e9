-- ===== src/Watch.antt =====
-- scripts/babysit-pr.py: a watch on a pull request's checks and review feedback. What the GitHub CLI
-- answers is a parameter, as are Python's `str` of other values, its letter cases, `split()` and
-- `urlsplit`. Messages are kept where they tell more than which test failed.
pub mod Checks
pub mod Feedback
pub mod Loop
pub mod Command
pub mod Green
pub mod Items
pub mod Classified
pub mod Confirmed
pub mod Reported
use postgresbuild.Prelude.{
  ℕ, zero, suc, ◌+◌, ◌&&◌, Bool, true, false, not, Option, none, some, List, [], ◌∷◌, ◌++◌, ◌==◌,
  length, ltb, String, if◌then◌else◌, Exn, ExnClass, runtime_error, type_error, other, Result, ok,
  err, guard, expect, traverse, ◌>>=◌, ◌>>◌,
}
use postgresbuild.Prelude.Text.{joined, Text, codes, text_eq, is, is_empty, contains_text}
use postgresbuild.Prelude.Decimal.{show}
use postgresbuild.Json.{Json, str, Fields, items, get, as_dict, as_list, truthy}
use postgresbuild.Publication.Policy.{split_slash}
use postgresbuild.Publication.Fragment.{at}

-- `urlsplit(url)`: `hostname`, `path` and `geturl()`.
pub record Url : Type 0 where
  pub hostname : Option Text
  pub path : Text
  pub whole : Text

pub record Python : Type 0 where
  -- `str(value)` of a value that is no text, `json.loads`, and the methods of texts.
  pub show_value : Json → Text
  pub loads : Text → Option Json
  pub lower : Text → Text
  pub upper : Text → Text
  pub strip : Text → Text
  pub words : Text → List Text
  pub urlsplit : Text → Result Url

-- `subprocess.CompletedProcess`
pub record Completed : Type 0 where
  pub returncode : ℕ
  pub stdout : Text
  pub stderr : Text

-- `run_gh`, which raises where the CLI is missing.
abbrev pub Gh : Type 0
Gh = List Text → Result Completed

abbrev pub raise_runtime : Text → Exn
raise_runtime s = record { class = runtime_error; message = s }

abbrev pub raise_type : Text → Exn
raise_type s = record { class = type_error; message = s }

-- `s or t`
abbrev pub or_text : Text → Text → Text
or_text [] t = t
or_text (c ∷ s) t = c ∷ s

-- `mapping`
unfoldable pub mapping : Json → Text → Result Fields
mapping v source = expect (as_dict v) (raise_type (codes "expected an object from " ++ source))

-- `records`
unfoldable pub records : Json → Text → Result (List Fields)
unfolding mapping
records v source = do
  vs ← expect (as_list v) (raise_type (codes "expected a list from " ++ source))
  traverse (λ item. mapping item source) (items vs)

-- `s.strip("/")`
unfoldable pub strip_left : Text → Text
strip_left [] = []
strip_left (c ∷ s) = let rest = strip_left s in if c == b'/' then rest else c ∷ s

unfoldable pub strip_right : Text → Text
strip_right [] = []
strip_right (c ∷ s) =
    let rest = strip_right s in if is_empty rest && c == b'/' then [] else c ∷ rest

module _ (python : Python) where
  -- `str(value)`
  abbrev pub to_text : Json → Text
  to_text (str s) = s
  to_text v = python.show_value v

  -- `str(value or "")`
  abbrev pub text_or_empty : Json → Text
  text_or_empty v = if truthy v then to_text v else []

  abbrev pub is_github : Option Text → Bool
  is_github none = false
  is_github (some s) = is s "github.com"

  abbrev pub repository_of : Url → List Text → Result Text
  repository_of url (owner ∷ name ∷ kind ∷ number ∷ []) =
      if is_github url.hostname && is kind "pull"
      then ok (owner ++ codes "/" ++ name)
      else err (raise_runtime (codes "unexpected pull request URL: " ++ url.whole))
  repository_of url _ = err (raise_runtime (codes "unexpected pull request URL: " ++ url.whole))

  -- `repo_from_pr`
  unfoldable pub repo_from_pr : Fields → Result Text
  unfolding get split_slash strip_left strip_right is
  repo_from_pr pr = do
    url ← python.urlsplit (text_or_empty (get pr "url"))
    repository_of url (split_slash (strip_right (strip_left url.path)))

  module _ (gh : Gh) where
    -- `gh_json`
    unfoldable pub gh_json : List Text → Result Json
    unfolding joined
    gh_json args = do
      result ← gh args
      guard (result.returncode == 0) (
          raise_runtime
            (or_text (python.strip result.stderr) (codes "gh " ++ joined args ++ codes " failed")))
      expect (python.loads result.stdout)
          (raise_runtime (codes "invalid JSON from gh " ++ joined args))

    abbrev pub pr_target : Text → List Text
    pr_target spec = if is spec "auto" then [] else spec ∷ []

    -- `read_pr`
    unfoldable pub read_pr : Text → Result Fields
    unfolding gh_json mapping is
    read_pr spec = do
      v ← gh_json (
          codes "pr"
          ∷ codes "view"
          ∷ (pr_target spec
              ++ codes "--json"
                ∷ codes "number,url,state,headRefOid,mergeable,reviewDecision"
                ∷ []))
      mapping v (codes "pr view")

    abbrev pub checks_of : Completed → Result (List Fields)
    checks_of result =
        if is_empty (python.strip result.stdout)
        then (if contains_text (codes "no checks reported") (python.lower result.stderr)
            then ok []
            else err (
                raise_runtime (or_text (python.strip result.stderr) (codes "gh pr checks failed"))))
        else (do
          v ←
              expect (python.loads result.stdout)
                (raise_runtime (codes "invalid JSON from gh pr checks"))
          records v (codes "pr checks"))

    -- `read_checks`
    unfoldable pub read_checks : Fields → Result (List Fields)
    unfolding at repo_from_pr contains_text records
    read_checks pr = do
      number ← at pr "number"
      repository ← repo_from_pr pr
      result ← gh (
          codes "pr"
          ∷ codes "checks"
          ∷ to_text number
          ∷ codes "-R"
          ∷ repository
          ∷ codes "--json"
          ∷ codes "name,state,bucket,link,workflow"
          ∷ [])
      checks_of result

    -- `read_runs`
    unfoldable pub read_runs : Fields → Result (List Fields)
    unfolding at repo_from_pr gh_json records
    read_runs pr = do
      repository ← repo_from_pr pr
      sha ← at pr "headRefOid"
      v ← gh_json (
          codes "run"
          ∷ codes "list"
          ∷ codes "-R"
          ∷ repository
          ∷ codes "--commit"
          ∷ to_text sha
          ∷ codes "--event"
          ∷ codes "pull_request"
          ∷ codes "--json"
          ∷ codes "databaseId,status,conclusion,workflowName,url"
          ∷ codes "--limit"
          ∷ codes "100"
          ∷ [])
      records v (codes "run list")

    abbrev pub page_endpoint : Text → ℕ → Text
    page_endpoint endpoint page = endpoint ++ codes "?per_page=100&page=" ++ show page

    abbrev pub out_of_pages : Exn
    out_of_pages = record { class = ExnClass.other; message = codes "" }

    -- The loop of `api_records`, for as many pages as the fuel says.
    unfoldable pub api_pages : ℕ → ℕ → Text → List Fields → Result (List Fields)
    unfolding gh_json records
    api_pages zero page endpoint result = err out_of_pages
    api_pages (suc fuel) page endpoint result = do
      v ← gh_json (codes "api" ∷ page_endpoint endpoint page ∷ [])
      found ← records v endpoint
      let later = api_pages fuel (suc page) endpoint (result ++ found)
      if ltb (length found) 100 then ok (result ++ found) else later

    -- `api_records`
    unfoldable pub api_records : ℕ → Text → Result (List Fields)
    unfolding api_pages
    api_records fuel endpoint = api_pages fuel 1 endpoint []
