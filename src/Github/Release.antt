-- ===== src/Github/Release.antt =====
-- src/postgresbuild/github.py: `ReleasePage` and `latest_release`. The address that a message ends
-- with is left out.
use postgresbuild.Prelude.{
  is_nil, ℕ, suc, zero, Bool, false, ◌&&◌, ◌||◌, not, Option, none, some, List, [], ◌∷◌, ◌++◌, any,
  length, take, leb, if◌then◌else◌, Result, ok, err, guard, expect, ◌>>=◌, ◌>>◌,
}
use postgresbuild.Prelude.Text.{Text, codes, text_eq, is_empty, after_prefix, text_in}
use postgresbuild.Github.{
  Versions, StartTag, Web, UpdatePolicy, Page, attribute, add_tag, redirect_tag, listed_repository,
  match_version, raise_value,
}

abbrev pub empty_page : Page
empty_page = record { tags = []; has_next = false }

abbrev pub or_empty : Option Text → Text
or_empty none = []
or_empty (some s) = s

abbrev pub releases_url : Text → Text
releases_url repository = codes "https://github.com/" ++ repository ++ codes "/releases"

module _ (web : Web) where
  -- A link to a release of the list.
  abbrev pub link_tag : Text → List (Text × Option Text) → Option Text
  link_tag repository attrs =
      elim (after_prefix (codes "/" ++ repository ++ codes "/releases/tag/")
        (attribute "href" attrs [])) [
          | none ↦ none
          | some rest ↦
              if text_in (codes "Link--primary") (web.words (attribute "class" attrs []))
              then some (web.unquote rest)
              else none
        ]

  abbrev pub add_link : Option Text → List Text → List Text
  add_link none tags = tags
  add_link (some tag) tags = add_tag tag tags

  -- `handle_starttag`
  unfoldable pub handle_starttag : Text → StartTag → Page → Page
  unfolding text_eq text_in after_prefix attribute add_tag
  handle_starttag repository t p =
      if text_eq t.name (codes "a")
      then record {
        tags = add_link (link_tag repository t.attrs) p.tags;
        has_next = p.has_next || text_in (codes "next") (web.words (attribute "rel" t.attrs []));
      }
      else p

  -- `parsed.feed`
  unfoldable pub feed : Text → List StartTag → Page → Page
  unfolding handle_starttag
  feed repository [] p = p
  feed repository (t ∷ ts) p = feed repository ts (handle_starttag repository t p)

  -- One page of the listing.
  unfoldable pub read_page : Text → ℕ → Result Page
  unfolding text_eq listed_repository feed
  read_page url page = do
    answer ← web.page url page
    guard (text_eq answer.host (codes "github.com")) (raise_value "unexpected release listing at ")
    repository ←
        expect (listed_repository answer.path) (raise_value "unexpected release listing at ")
    ok (feed repository (web.start_tags answer.text) empty_page)

  -- `set(tags).intersection(parsed.tags)`
  abbrev pub meets : List Text → List Text → Bool
  meets tags new = any (λ t. text_in t tags) new

  -- The loop over the pages, with the number of pages that it may still ask for.
  unfoldable pub collect : Text → ℕ → ℕ → List Text → Result (List Text)
  unfolding read_page text_in
  collect url zero page tags = err (raise_value "incomplete release listing at ")
  collect url (suc n) page tags = do
    p ← read_page url page
    guard (not (is_nil p.tags || meets tags p.tags)) (raise_value "incomplete release listing at ")
    let all_tags = tags ++ p.tags
    let later = collect url n (suc page) all_tags
    if leb 100 (length all_tags) || not p.has_next then ok all_tags else later

  module _ (versions : Versions) where
    open versions use {Version, parse, is_prerelease, print, le}

    -- `match` and its version, if that is stable.
    unfoldable pub stable_version : Text → Text → Text → Result (Option Version)
    unfolding match_version
    stable_version template major tag = do
      found ← match_version template major tag
      elim found [
        | none ↦ ok none
        | some s ↦ do v ← parse s; ok (if is_prerelease v then none else some v)
      ]

    -- Equal versions, of which a set keeps the first.
    abbrev pub same : Version → Version → Bool
    same v w = le v w && le w v

    abbrev pub add_version : Option Version → List Version → List Version
    add_version none vs = vs
    add_version (some v) vs = if any (same v) vs then vs else vs ++ v ∷ []

    -- The set comprehension.
    unfoldable pub stable_versions : Text → Text → List Text → List Version → Result (List Version)
    unfolding stable_version
    stable_versions template major [] vs = ok vs
    stable_versions template major (tag ∷ tags) vs = do
      found ← stable_version template major tag
      stable_versions template major tags (add_version found vs)

    -- `max` of a nonempty set
    unfoldable pub greatest : Version → List Version → Version
    greatest v [] = v
    greatest v (w ∷ ws) = if le w v then greatest v ws else greatest w ws

    abbrev pub printed_greatest : List Version → Result Text
    printed_greatest [] = err (raise_value "no major releases found at ")
    printed_greatest (v ∷ vs) = ok (print (greatest v vs))

    -- Of the listing.
    unfoldable pub latest_of_major : Text → Text → Text → Result Text
    unfolding collect stable_versions greatest
    latest_of_major url template major = do
      tags ← collect url 10 1 []
      vs ← stable_versions template major (take 100 tags) []
      printed_greatest vs

    abbrev pub unexpected : Option Version → Result Text
    unexpected none = err (raise_value "unexpected latest release ")
    unexpected (some v) = ok (print v)

    -- GitHub's own choice.
    unfoldable pub designated : Text → Text → Result Text
    unfolding redirect_tag stable_version text_eq
    designated url template = do
      answer ← web.latest (url ++ codes "/latest")
      tag ← expect (redirect_tag answer.path) (raise_value "missing latest release redirect at ")
      guard (text_eq answer.host (codes "github.com"))
          (raise_value "missing latest release redirect at ")
      found ← stable_version template [] (web.unquote tag)
      unexpected found

    -- `latest_release`
    unfoldable pub latest_release : UpdatePolicy → Result Text
    unfolding latest_of_major designated
    latest_release policy =
        let repository = or_empty policy.repository in
        let template = or_empty policy.tag in
        let major = or_empty policy.major in
        let url = releases_url repository in
        if is_empty repository || is_empty template
        then err (raise_value "github-release policy needs repository and tag")
        else if is_empty major
        then designated url template
        else latest_of_major url template major
