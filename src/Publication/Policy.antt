-- ===== src/Publication/Policy.antt =====
-- publication.py: `PublicationPolicy`, who may publish.

use postgresbuild.Prelude.{
  true, false, ◌&&◌, ◌||◌, not, Option, none, some, List, [], ◌∷◌, ◌++◌, ◌==◌, all, any, count,
  String, if◌then◌else◌, Result, ok, guard, ◌>>◌,
}
use postgresbuild.Prelude.Text.{Text, codes, is_empty}
use postgresbuild.Json.{Json, str, Fields, get}
use postgresbuild.Publication.Platform.{Platform}
use postgresbuild.Publication.Record.{raise_value}

pub record Policy : Type 0 where
  pub repository : Text
  pub ref : Text
  pub workflow_path : Text
  pub environment : Text

-- `s.split("/")`
unfoldable pub split_slash : Text → List Text
split_slash [] = [] ∷ []
split_slash (c ∷ s) =
    let rest = split_slash s in
    if c == b'/' then [] ∷ rest else elim rest [ [] ↦ (c ∷ []) ∷ [] | p ∷ ps ↦ (c ∷ p) ∷ ps ]

-- `s.partition("/")`, the parts before and behind the first slash.
unfoldable pub partition_slash : Text → Text × Text
partition_slash [] = ([], [])
partition_slash (c ∷ s) =
    let rest = partition_slash s in if c == b'/' then ([], s) else (c ∷ rest.0, rest.1)

abbrev or_default : Option Text → String → Text
or_default none d = codes d
or_default (some s) d = s

-- `PublicationPolicy.from_environment`, the environment as a function.
unfoldable pub from_environment : (Text → Option Text) → Result Policy
unfolding split_slash
from_environment values = do
  let repository = or_default (values (codes "PUBLICATION_REPOSITORY")) ""
  guard (count (λ c. c == b'/') repository == 1 && not (any is_empty (split_slash repository)))
      (raise_value "PUBLICATION_REPOSITORY must use non-empty owner/name form")
  let ref = or_default (values (codes "PUBLICATION_REF")) "refs/heads/main"
  let workflow_path =
      or_default (values (codes "PUBLICATION_WORKFLOW_PATH")) ".github/workflows/postgresbuild.yml"
  let environment = or_default (values (codes "PUBLICATION_ENVIRONMENT")) "release"
  guard (not (is_empty ref || is_empty workflow_path || is_empty environment))
      (raise_value "publication policy values must not be empty")
  ok (record {
    repository = repository;
    ref = ref;
    workflow_path = workflow_path;
    environment = environment;
  })

unfoldable pub owner : Policy → Text
unfolding partition_slash
owner p = (partition_slash p.repository).0

unfoldable pub workflow_ref : Policy → Text
workflow_ref p = p.repository ++ codes "/" ++ p.workflow_path ++ codes "@" ++ p.ref

unfoldable pub subject : Policy → Text
subject p = codes "repo:" ++ p.repository ++ codes ":environment:" ++ p.environment

module _ (platform : Platform) where
  -- `isinstance(value, str) and value.isdecimal()`, with the text.
  abbrev pub decimal_text : Json → Option Text
  decimal_text (str (c ∷ s)) =
      if all (λ d. elim (platform.decimal d) [ none ↦ false | some n ↦ true ]) (c ∷ s)
      then some (c ∷ s)
      else none
  decimal_text _ = none

  abbrev subject_with_ids : Policy → Option Text → Option Text → Option Text
  subject_with_ids p (some owner_id) (some repository_id) =
      let parts = partition_slash p.repository in
      some (
        codes "repo:"
        ++ parts.0
        ++ codes "@"
        ++ owner_id
        ++ codes "/"
        ++ parts.1
        ++ codes "@"
        ++ repository_id
        ++ codes ":environment:"
        ++ p.environment)
  subject_with_ids p _ _ = none

  -- `immutable_subject`
  unfoldable pub immutable_subject : Policy → Fields → Option Text
  unfolding partition_slash
  immutable_subject p claims =
      subject_with_ids p (decimal_text (get claims "repository_owner_id"))
        (decimal_text (get claims "repository_id"))
