-- ===== src/Recipe/Inventory.antt =====
-- src/postgresbuild/postgresql/__init__.py: `validate_install_inventory`. The entries of the
-- installation list, the installation's prefix and the files are given.
use postgresbuild.Prelude.{
  ℕ, ◌==◌, Bool, true, false, not, ◌&&◌, ◌||◌, is_nil, Option, none, some, List, [], ◌∷◌, ◌++◌, map,
  keep, String, if◌then◌else◌, Exn, value_error, Result, guard,
}
use postgresbuild.Prelude.Text.{Text, codes, text_eq, text_in, texts_eq, after_prefix, ends_with}
use postgresbuild.Publication.Policy.{split_slash}
use postgresbuild.Paths.{PurePath, as_posix, last_part, relative_to}
use postgresbuild.Recipe.{Python}

abbrev pub is_some {ℓ} : {A : Type ℓ} → Option A → Bool
is_some none = false
is_some (some a) = true

-- `s.startswith("…")`
abbrev pub starts : Text → String → Bool
starts s p = is_some (after_prefix (codes p) s)

-- `s.removesuffix(t)`
unfoldable pub remove_suffix : Text → Text → Text
unfolding text_eq
remove_suffix t [] = []
remove_suffix t (c ∷ s) = let rest = remove_suffix t s in if text_eq (c ∷ s) t then [] else c ∷ rest

-- `p.parent`, of the parts.
unfoldable pub parent : List Text → List Text
parent [] = []
parent (p ∷ []) = []
parent (p ∷ q ∷ ps) = p ∷ parent (q ∷ ps)

abbrev dot : ℕ
dot = 46

-- `s.lstrip(".")`
unfoldable pub strip_dots : Text → Text
strip_dots [] = []
strip_dots (c ∷ s) = let rest = strip_dots s in if c == dot then rest else c ∷ s

-- `p.suffix == "…"` of a suffix with one dot, its first character: the dots that the name begins
-- with are no part of a suffix.
abbrev pub has_suffix : Text → Text → Bool
has_suffix name suffix = ends_with (strip_dots name) suffix

module _ (python : Python) where
  abbrev pub command_name : Text → Text
  command_name line =
      remove_suffix (codes "{exesuffix}") (last_part (split_slash (python.strip line)))

  -- `commands`
  unfoldable pub commands : List Text → List Text
  unfolding after_prefix remove_suffix split_slash last_part
  commands lines = map command_name (keep (λ line. starts (python.strip line) "{bindir}/") lines)

-- A shared library, by its name.
unfoldable pub is_shared : Text → Bool
unfolding after_prefix ends_with
is_shared name =
    starts name "lib"
    && (not (starts name "libecpg" || starts name "libpgtypes")
        && not (ends_with name (codes ".a") || ends_with name (codes ".la")))

-- The four tests of `allowed`, of the parts of the path behind the prefix; `names` are `commands`.
unfoldable pub is_command : List Text → List Text → Bool
unfolding texts_eq parent text_in last_part
is_command names ps = texts_eq (parent ps) (codes "bin" ∷ []) && text_in (last_part ps) names

unfoldable pub is_loadable : List Text → Bool
unfolding texts_eq parent ends_with strip_dots last_part
is_loadable ps =
    texts_eq (parent ps) (codes "lib" ∷ codes "postgresql" ∷ [])
    && (has_suffix (last_part ps) (codes ".dylib") || has_suffix (last_part ps) (codes ".so"))

unfoldable pub is_data : List Text → Bool
unfolding as_posix after_prefix
is_data ps =
    let value = as_posix (record { absolute = false; parts = ps }) in
    starts value "share/postgresql/"
    || (starts value "licenses/" || starts value "lib/ossl-modules/")

unfoldable pub is_library : List Text → Bool
unfolding texts_eq parent is_shared last_part
is_library ps = texts_eq (parent ps) (codes "lib" ∷ []) && is_shared (last_part ps)

module _ (names : List Text) where
  unfoldable pub is_allowed : List Text → Bool
  unfolding is_command is_loadable is_data is_library
  is_allowed ps = is_command names ps || (is_loadable ps || (is_data ps || is_library ps))

  -- What the loop appends to `unexpected` for a file, by its parts behind the prefix.
  abbrev pub unexpected_of : PurePath → Option (List Text) → List Text
  unexpected_of file none = as_posix file ∷ []
  unexpected_of file (some ps) =
      if is_allowed ps then [] else as_posix (record { absolute = false; parts = ps }) ∷ []

  -- `unexpected`
  unfoldable pub unexpected : PurePath → List PurePath → List Text
  unfolding relative_to as_posix is_allowed
  unexpected prefix [] = []
  unexpected prefix (file ∷ files) =
      unexpected_of file (relative_to file prefix) ++ unexpected prefix files

unfoldable pub comma_separated : List Text → Text
comma_separated [] = []
comma_separated (s ∷ []) = s
comma_separated (s ∷ t ∷ ts) = s ++ codes ", " ++ comma_separated (t ∷ ts)

abbrev pub unexpected_paths : List Text → Exn
unexpected_paths paths = record {
  class = value_error;
  message = codes "unexpected PostgreSQL production paths: " ++ comma_separated paths;
}

-- `validate_install_inventory`
unfoldable pub validate_install_inventory :
    Python → List Text → PurePath → List PurePath → Result (Unit {0})
unfolding commands unexpected comma_separated
validate_install_inventory python lines prefix files =
    let paths = unexpected (commands python lines) prefix files in
    guard (is_nil paths) (unexpected_paths paths)
