-- ===== src/Maintenance.antt =====
-- src/postgresbuild/maintenance.py: newer upstream releases, found and checked before they are
-- applied. The package ggbuild, `packaging` and the upstream servers are parameters.
pub mod Compatibility
pub mod Discover
pub mod Compatible
pub mod Fresh
use postgresbuild.Prelude.{
  ℕ, ◌≡◌, Bool, true, false, ◌&&◌, Option, none, some, List, [], ◌∷◌, ◌++◌, map, ◌==◌, Exn,
  ExnClass, value_error, type_error, key_error, decode_error, io_error, Result, ok, err, traverse,
  ◌>>=◌, String, if◌then◌else◌,
}
use postgresbuild.Prelude.Text.{Text, codes, texts_eq, text_order}
use postgresbuild.Prelude.Sort.{sort}
use postgresbuild.Github.{Versions, UpdatePolicy}

-- `artifact_requirements` is a list, or a dict from bounds of the recipe's own version to lists.
pub data Requirements : Type 0 where
  listed : List Text → Requirements
  bounded : List (Text × List Text) → Requirements

-- A recipe, the class of `instances[-1]`, with the versions of the instances in their order.
-- `update_policy` is kept if it is a `github-release` policy.
pub record Recipe : Type 0 where
  pub ident : Text
  pub aliases : List Text
  pub artifact_requirements : Requirements
  pub artifact_build_requirements : Requirements
  pub update_policy : Option UpdatePolicy
  pub source_versions : List Text

-- What the module calls: `SpecifierSet(bound).contains(version, prereleases=True)`,
-- `latest_release`, `set(recipe.discover_releases())`, `updater.source_url`, the SHA-256 of a text
-- and `json.dumps` without spaces of a name and a list of texts.
pub record Upstream : Type 0 where
  pub contains : Text → Text → Result Bool
  pub latest_release : UpdatePolicy → Result Text
  pub discover_releases : Recipe → Result (List Text)
  pub source_url : Recipe → Text → Result Text
  pub sha256 : Text → Text
  pub dumps : Text → List Text → Text
  -- `\s`
  pub is_space : ℕ → Bool

pub record Evidence : Type 0 where
  pub url : Text
  pub text : Text

pub record Candidate : Type 0 where
  pub package_name : Text
  pub previous : List Text
  pub current : List Text
  pub classification : Text
  pub evidence : List Evidence
  pub blocked : Text

-- `sorted(texts)`
unfoldable pub sorted_texts : List Text → List Text
unfolding text_order
sorted_texts = sort text_order.le

abbrev pub raise_value : Text → Exn
raise_value s = record { class = value_error; message = s }

module _ (versions : Versions) where
  open versions use {Version, parse, le}

  -- `sorted(texts, key=Version)`
  abbrev pub keyed : Text → Result (Version × Text)
  keyed s = do v ← parse s; ok (v, s)

  abbrev pub key_le : Version × Text → Version × Text → Bool
  key_le (v, s) (w, t) = le v w

  abbrev pub keyed_text : Version × Text → Text
  keyed_text (v, s) = s

  unfoldable pub sort_versions : List Text → Result (List Text)
  sort_versions texts = do pairs ← traverse keyed texts; ok (map keyed_text (sort key_le pairs))

module _ (upstream : Upstream) where
  -- `digest`
  unfoldable pub digest : Candidate → Text
  unfolding sorted_texts
  digest c = upstream.sha256 (upstream.dumps c.package_name (sorted_texts c.current))

  module _ (versions : Versions) where
    abbrev pub of_policy : Recipe → Option UpdatePolicy → Result (List Text)
    of_policy r (some policy) = do version ← upstream.latest_release policy; ok (version ∷ [])
    of_policy r none = do found ← upstream.discover_releases r; sort_versions versions found

    -- `desired_releases`
    unfoldable pub desired_releases : Recipe → Result (List Text)
    unfolding sort_versions
    desired_releases r = of_policy r r.update_policy
