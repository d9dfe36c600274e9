-- ===== src/Recipe/Releases.antt =====
-- src/postgresbuild/postgresql/__init__.py: `discover_releases`. What `fetch` returns is given, with
-- the decoded list of versions.json; a release is kept with its parsed version, as `Version` is a
-- function of the text.
use postgresbuild.Prelude.{
  ℕ, ◌==◌, leb, ltb, Bool, true, false, not, is_nil, map, Option, none, some, List, [], ◌∷◌, ◌++◌,
  if◌then◌else◌, Result, ok, guard, expect, traverse, ◌>>=◌, ◌>>◌,
}
use postgresbuild.Prelude.Text.{Text, codes, text_in, after_prefix}
use postgresbuild.Prelude.Sort.{sort}
use postgresbuild.Json.{Json, as_dict, as_list, items, truthy}
use postgresbuild.Publication.Fragment.{at}
use postgresbuild.Publication.Record.{raise_type, raise_value}
use postgresbuild.Github.{Versions}

-- `\d+`, as long as it goes, and what follows.
unfoldable pub digits : (ℕ → Bool) → Text → Text × Text
digits is_digit [] = ([], [])
digits is_digit (c ∷ s) =
    let rest = digits is_digit s in if is_digit c then (c ∷ rest.0, rest.1) else ([], c ∷ s)

-- The first of the prefixes that the text has, and what follows.
unfoldable pub one_of : List Text → Text → Option (Text × Text)
unfolding after_prefix
one_of [] s = none
one_of (p ∷ ps) s = elim (after_prefix p s) [ some rest ↦ some (p, rest) | none ↦ one_of ps s ]

abbrev pub phases : List Text
phases = codes "alpha" ∷ codes "beta" ∷ codes "rc" ∷ []

module _ (is_digit : ℕ → Bool) where
  -- A match of `href="v(\d+(?:alpha|beta|rc)\d+)/"` at the start of a text: its group.
  unfoldable pub link_at : Text → List Text
  unfolding after_prefix digits one_of
  link_at s = elim (after_prefix (codes "href=\"v") s) [
    | none ↦ []
    | some s ↦
        let (major, s) = digits is_digit s in
        elim (one_of phases s) [
          | none ↦ []
          | some (phase, s) ↦
              let (number, s) = digits is_digit s in
              elim (after_prefix (codes "/\"") s) [
                | none ↦ []
                | some s ↦
                    if is_nil major
                    then []
                    else if is_nil number
                    then []
                    else (major ++ phase ++ number) ∷ []
              ]
        ]
  ]

  -- `re.findall`: no match begins inside another.
  unfoldable pub links : Text → List Text
  unfolding link_at
  links [] = []
  links (c ∷ s) = link_at (c ∷ s) ++ links s

-- `releases.update`: what is new, in order.
unfoldable pub add_releases : List Text → List Text → List Text
unfolding text_in
add_releases releases [] = releases
add_releases releases (r ∷ rs) =
    add_releases (if text_in r releases then releases else releases ++ r ∷ []) rs

module _ (is_digit : ℕ → Bool) (show : Json → Text) (isdigit : Text → Bool)
    (versions : Versions) where
  open versions use {Version, parse, le, major}

  -- The release of an item, if it is supported and has a number.
  unfoldable pub stable_release : Json → Result (List Text)
  unfolding at
  stable_release value = do
    item ← expect (as_dict value) (raise_type "indices must be integers or slices")
    supported ← at item "supported"
    elim (truthy supported) [
      | false ↦ ok []
      | true ↦ do
        number ← at item "major"
        elim (isdigit (show number)) [
          | false ↦ ok []
          | true ↦ do
            minor ← at item "latestMinor"
            ok ((show number ++ codes "." ++ show minor) ∷ [])
        ]
    ]

  abbrev pub greatest_major : ℕ → List Version → ℕ
  greatest_major n [] = n
  greatest_major n (v ∷ vs) = greatest_major (if ltb n (major v) then major v else n) vs

  -- `prereleases`, by the major version, with the parsed versions.
  abbrev pub Prereleases : Type 0
  Prereleases = List (ℕ × (Text × Version))

  unfoldable pub set_prerelease : Text → Version → Prereleases → Prereleases
  set_prerelease text v [] = (major v, (text, v)) ∷ []
  set_prerelease text v ((n, (old, w)) ∷ more) =
      let rest = set_prerelease text v more in
      if n == major v
      then (n, (if le v w then (old, w) else (text, v))) ∷ more
      else (n, (old, w)) ∷ rest

  -- The loop over the links.
  unfoldable pub add_prereleases : ℕ → List (Text × Version) → Prereleases → Prereleases
  unfolding set_prerelease
  add_prereleases latest [] found = found
  add_prereleases latest ((text, v) ∷ more) found =
      add_prereleases latest more
        (if leb (major v) latest then found else set_prerelease text v found)

  abbrev pub parsed : Text → Result (Text × Version)
  parsed text = do v ← parse text; ok (text, v)

  abbrev pub flat : List (List Text) → List Text
  flat [] = []
  flat (s ∷ ss) = s ++ flat ss

  abbrev pub version_le : Text × Version → Text × Version → Bool
  version_le (s, v) (t, w) = le v w

  -- `discover_releases`, of the decoded versions.json and the text of the index.
  unfoldable pub discover_releases : Json → Text → Result (List Text)
  unfolding stable_release links add_releases add_prereleases
  discover_releases payload index = do
    listed ← expect (as_list payload) (raise_type "indices must be integers or slices")
    stable ← traverse stable_release (items listed)
    let releases = add_releases [] (flat stable)
    current ← traverse parse releases
    guard (not (is_nil current)) (raise_value "max() iterable argument is empty")
    found ← traverse parsed (links is_digit index)
    let prereleases = add_prereleases (greatest_major 0 current) found []
    all_parsed ← traverse parsed (add_releases releases (map (λ p. p.1.0) prereleases))
    ok (map (λ p. p.0) (sort version_le all_parsed))
