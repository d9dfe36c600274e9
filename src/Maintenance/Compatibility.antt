-- ===== src/Maintenance/Compatibility.antt =====
-- src/postgresbuild/maintenance.py, `compatibility`: why the desired releases of a recipe may not
-- be applied, or `none` where Python returns `""`.
use postgresbuild.Prelude.{
  is_nil, Bool, true, false, ◌&&◌, not, Option, none, some, List, [], ◌∷◌, ◌++◌, ◌==◌, keep, Result,
  ok, err, traverse, ◌>>=◌, if◌then◌else◌,
}
use postgresbuild.Prelude.Text.{Text, codes, text_eq, text_in, contains_text}
use postgresbuild.Github.{Versions}
use postgresbuild.Maintenance.{Requirements, listed, bounded, Recipe, Upstream}

-- The reason that ends the search, if there is one.
abbrev pub Reason : Type 0
Reason = Option Text

abbrev pub or_else : Result Reason → Result Reason → Result Reason
or_else (err e) later = err e
or_else (ok (some reason)) later = ok (some reason)
or_else (ok none) later = later

-- The first reason that a loop returns.
unfoldable pub first_reason : {A : Type 0} → (A → Result Reason) → List A → Result Reason
first_reason f [] = ok none
first_reason f (x ∷ xs) = or_else (f x) (first_reason f xs)

-- `\(([^)]+)\)` at the end, what is between the parentheses; `seen` tells that it is not empty.
unfoldable pub bound_text : Bool → Text → Option Text
bound_text seen [] = none
bound_text seen (c ∷ s) =
    let rest = bound_text true s in
    if c == b')'
    then (elim s [ [] ↦ if seen then some [] else none | d ∷ t ↦ none ])
    else elim rest [ none ↦ none | some b ↦ some (c ∷ b) ]

abbrev pub flat : List (Text × List Text) → List Text
flat [] = []
flat ((bound, group) ∷ groups) = group ++ flat groups

abbrev pub bounds_of : List (Text × List Text) → List Text
bounds_of [] = []
bounds_of ((bound, group) ∷ groups) = bound ∷ bounds_of groups

module _ (upstream : Upstream) where
  -- `\s+`, of which one is there, and the text in parentheses.
  unfoldable pub spaced_bound : Text → Option Text
  unfolding bound_text
  spaced_bound [] = none
  spaced_bound (c ∷ s) =
      if upstream.is_space c then spaced_bound s else if c == b'(' then bound_text false s else none

  -- `(\S+)\s+\(([^)]+)\)`, its two groups; `seen` tells that the first is not empty.
  unfoldable pub split_requirement : Bool → Text → Option (Text × Text)
  unfolding spaced_bound
  split_requirement seen [] = none
  split_requirement seen (c ∷ s) =
      let rest = split_requirement true s in
      if upstream.is_space c
      then (if seen then elim (spaced_bound s) [ none ↦ none | some b ↦ some ([], b) ] else none)
      else elim rest [ none ↦ none | some (name, b) ↦ some (c ∷ name, b) ]

  -- `any(SpecifierSet(bound).contains(version) for bound in bounds)`
  unfoldable pub any_contains : List Text → Text → Result Bool
  any_contains [] version = ok false
  any_contains (bound ∷ bounds) version = do
    inside ← upstream.contains bound version
    let later = any_contains bounds version
    if inside then ok true else later

  -- `all(SpecifierSet(bound).contains(v) for v in desired)`
  unfoldable pub contains_all : Text → List Text → Result Bool
  contains_all bound [] = ok true
  contains_all bound (v ∷ vs) = do
    inside ← upstream.contains bound v
    let later = contains_all bound vs
    if inside then later else ok false

  abbrev pub outside_bounds : List Text → Text → Result Reason
  outside_bounds bounds version = do
    inside ← any_contains bounds version
    ok (if inside then none else some (version ++ codes " is outside recipe bounds"))

  abbrev pub names_of : Recipe → List Text
  names_of r = r.ident ∷ r.aliases

  abbrev pub outside_bound : Recipe → List Text → Text → Text → Text → Result Reason
  outside_bound consumer desired requirement name bound = do
    inside ← contains_all bound desired
    ok (
        if inside
        then none
        else some (codes "outside " ++ consumer.ident ++ codes ": " ++ requirement))

  -- A requirement of a consumer, if it is a range of versions of the recipe.
  abbrev pub outside_split :
      Recipe → Recipe → List Text → Text → Option (Text × Text) → Result Reason
  outside_split r consumer desired requirement none = ok none
  outside_split r consumer desired requirement (some (name, bound)) =
      if text_in name (names_of r) && not (contains_text (codes "==") bound)
      then outside_bound consumer desired requirement name bound
      else ok none

  unfoldable pub outside_requirement : Recipe → Recipe → List Text → Text → Result Reason
  unfolding text_in contains_text split_requirement contains_all
  outside_requirement r consumer desired requirement =
      outside_split r consumer desired requirement (split_requirement false requirement)

  -- One of the two attributes of a consumer.
  unfoldable pub outside_requirements : Recipe → Recipe → List Text → Requirements → Result Reason
  unfolding first_reason outside_requirement any_contains text_eq
  outside_requirements r consumer desired (listed requirements) =
      first_reason (outside_requirement r consumer desired) requirements
  outside_requirements r consumer desired (bounded groups) =
      or_else
        (if text_eq r.ident consumer.ident
          then first_reason (outside_bounds (bounds_of groups)) desired
          else ok none)
        (first_reason (outside_requirement r consumer desired) (flat groups))

  unfoldable pub outside_consumer : Recipe → List Text → Recipe → Result Reason
  unfolding outside_requirements
  outside_consumer r desired consumer =
      or_else (outside_requirements r consumer desired consumer.artifact_requirements)
        (outside_requirements r consumer desired consumer.artifact_build_requirements)

  module _ (versions : Versions) where
    open versions use {Version, parse, le, major}

    -- `min`
    unfoldable pub least : Version → List Version → Version
    least v [] = v
    least v (w ∷ ws) = if le v w then least v ws else least w ws

    abbrev pub against_bases : Version → List Version → Reason
    against_bases v [] = some (codes "new major requires a reviewed compatibility baseline")
    against_bases v (b ∷ bs) =
        if not (le (least b bs) v)
        then some (codes "upstream discovery would downgrade a registered release")
        else none

    unfoldable pub downgrade : List Version → Text → Result Reason
    unfolding least
    downgrade old version = do
      v ← parse version
      ok (against_bases v (keep (λ b. major b == major v) old))

    -- `compatibility`
    unfoldable pub compatibility : Recipe → List Text → List Recipe → Result Reason
    unfolding first_reason downgrade outside_consumer
    compatibility r desired grouped = do
      old ← traverse parse r.source_versions
      let checks =
          or_else (first_reason (downgrade old) desired)
            (first_reason (outside_consumer r desired) grouped)
      if is_nil desired then ok (some (codes "upstream discovery returned no releases")) else checks
