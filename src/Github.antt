-- ===== src/Github.antt =====
-- src/postgresbuild/github.py: the newest upstream release, read from GitHub's release pages.
pub mod Release
pub mod Listing
pub mod Form
pub mod Greatest
pub mod StableVersions
use postgresbuild.Prelude.{
  ℕ, suc, zero, ◌+◌, ◌≡◌, Bool, true, false, ◌&&◌, ◌||◌, not, Option, none, some, List, [], ◌∷◌,
  ◌++◌, ◌==◌, all, any, length, leb, String, if◌then◌else◌, Exn, ExnClass, value_error, other,
  Result, ok, err, guard, expect, traverse, ◌>>=◌, ◌>>◌,
}
use postgresbuild.Prelude.Text.{Text, codes, text_eq, is_empty, after_prefix, text_in}

-- `packaging.version`, whose order is total.
pub record Versions : Type 1 where
  pub Version : Type 0
  pub parse : Text → Result Version
  pub is_prerelease : Version → Bool
  pub major : Version → ℕ
  pub print : Version → Text
  pub le : Version → Version → Bool
  pub total : (v w : Version) → le v w ≡ false → le w v ≡ true
  pub trans : (u v w : Version) → le u v ≡ true → le v w ≡ true → le u w ≡ true

pub record StartTag : Type 0 where
  pub name : Text
  pub attrs : List (Text × Option Text)

pub record Answer : Type 0 where
  pub host : Text
  pub path : Text
  pub text : Text

-- What is left to Python and to the server: `unquote`, `split()`, the start tags that `HTMLParser`
-- finds, and the answers to `HEAD` of an address and to `GET` of a page, redirects followed.
pub record Web : Type 0 where
  pub unquote : Text → Text
  pub words : Text → List Text
  pub start_tags : Text → List StartTag
  pub latest : Text → Result Answer
  pub page : Text → ℕ → Result Answer

pub record UpdatePolicy : Type 0 where
  pub repository : Option Text
  pub tag : Option Text
  pub major : Option Text

-- The attribute of that name that `dict(attrs)` keeps, the last one, or `""`.
unfoldable pub attribute : String → List (Text × Option Text) → Text → Text
unfolding text_eq
attribute name [] value = value
attribute name ((key, none) ∷ rest) value =
    attribute name rest (if text_eq key (codes name) then [] else value)
attribute name ((key, some s) ∷ rest) value =
    attribute name rest (if text_eq key (codes name) then s else value)

-- `ReleasePage`, its two results.
pub record Page : Type 0 where
  pub tags : List Text
  pub has_next : Bool

-- `if release_tag not in self.tags: self.tags.append(release_tag)`
unfoldable pub add_tag : Text → List Text → List Text
unfolding text_in
add_tag tag tags = if text_in tag tags then tags else tags ++ tag ∷ []

infixr 2 ◌and_then◌
abbrev pub ◌and_then◌ {ℓ κ} : {A : Type ℓ} {B : Type κ} → Option A → (A → Option B) → Option B
none and_then f = none
some a and_then f = f a

-- `.+`, which no line break is part of.
abbrev pub is_line : Text → Bool
is_line [] = false
is_line (c ∷ s) = all (λ d. not (d == 10)) (c ∷ s)

-- `[^/]+/`, with what follows.
unfoldable pub segment : Text → Option (Text × Text)
segment [] = none
segment (c ∷ s) =
    let rest = segment s in
    if c == b'/' then none else elim s [
      | [] ↦ none
      | d ∷ t ↦
          if d == b'/'
          then some (c ∷ [], t)
          else elim rest [ none ↦ none | some (p, q) ↦ some (c ∷ p, q) ]
    ]

-- `/[^/]+/[^/]+/releases/tag/(.+)`
unfoldable pub redirect_tag : Text → Option Text
unfolding segment after_prefix
redirect_tag path = after_prefix (codes "/") path and_then λ s. segment s and_then λ (owner, t).
    segment t and_then λ (name, u).
    after_prefix (codes "releases/tag/") u and_then λ tag. if is_line tag then some tag else none

-- `/([^/]+/[^/]+)/releases`
unfoldable pub listed_repository : Text → Option Text
unfolding segment after_prefix text_eq
listed_repository path = after_prefix (codes "/") path and_then λ s.
    segment s and_then λ (owner, t). segment t and_then λ (name, u).
    if text_eq u (codes "releases") then some (owner ++ codes "/" ++ name) else none

-- The parts of a template around its first `{version}`.
unfoldable pub cut_template : Text → Option (Text × Text)
unfolding after_prefix
cut_template [] = none
cut_template (c ∷ s) =
    let later = cut_template s in
    elim (after_prefix (codes "{version}") (c ∷ s)) [
      | some rest ↦ some ([], rest)
      | none ↦ elim later [ none ↦ none | some (p, q) ↦ some (c ∷ p, q) ]
    ]

-- `s` without the suffix `t`.
unfoldable pub before_suffix : Text → Text → Option Text
unfolding text_eq
before_suffix t [] = if text_eq [] t then some [] else none
before_suffix t (c ∷ s) =
    let rest = before_suffix t s in
    if text_eq (c ∷ s) t then some [] else elim rest [ none ↦ none | some v ↦ some (c ∷ v) ]

-- `version_pattern`
unfoldable pub is_version_of : Text → Text → Bool
unfolding after_prefix
is_version_of [] v = is_line v
is_version_of (c ∷ major) v = elim (after_prefix ((c ∷ major) ++ codes ".") v) [
  | none ↦ false
  | some rest ↦ is_line rest
]

abbrev pub raise_other : String → Exn
raise_other s = record { class = ExnClass.other; message = codes s }

abbrev pub raise_value : String → Exn
raise_value s = record { class = value_error; message = codes s }

abbrev pub version_between : Text → Text → Text → Text → Option Text
version_between major p q tag = after_prefix p tag and_then λ rest.
    before_suffix q rest and_then λ v. if is_version_of major v then some v else none

abbrev pub match_parts : Text → Text → Text → Option (Text × Text) → Result (Option Text)
match_parts template major tag none =
    if text_eq tag template then err (raise_other "no such group") else ok none
match_parts template major tag (some (p, q)) = elim (cut_template q) [
  | none ↦ ok (version_between major p q tag)
  | some _ ↦ err (raise_other "redefinition of group name 'version'")
]

-- `match["version"]` of `re.fullmatch(pattern, tag)`, if the tag has the form of the template.
unfoldable pub match_version : Text → Text → Text → Result (Option Text)
unfolding cut_template before_suffix is_version_of after_prefix text_eq
match_version template major tag = match_parts template major tag (cut_template template)
