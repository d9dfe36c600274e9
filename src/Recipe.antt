-- ===== src/Recipe.antt =====
-- src/postgresbuild/postgresql/__init__.py: the recipe of PostgreSQL, what it says of tags, of the
-- test cluster, of the target systems and of the files that may be installed. ggbuild is a
-- parameter, as are Python's letter cases, digits and `strip`.
pub mod Inventory
pub mod Production
pub mod Installed
pub mod Releases
use postgresbuild.Prelude.{
  ℕ, ◌==◌, leb, Bool, true, false, not, ◌&&◌, ◌||◌, is_nil, any, Option, none, some, List, [], ◌∷◌,
  ◌++◌, map, keep, String, if◌then◌else◌, Exn, ExnClass, value_error, runtime_error, Result, ok,
  err,
}
use postgresbuild.Prelude.Text.{
  Text, codes, is, is_empty, text_eq, text_in, texts_eq, after_prefix, ends_with,
}

pub record Python : Type 0 where
  pub upper : Text → Text
  pub strip : Text → Text
  pub is_digit : ℕ → Bool

abbrev is_letter : ℕ → Bool
is_letter c = leb b'A' c && leb c b'Z' || leb b'a' c && leb c b'z'

module _ (python : Python) where
  -- `re.sub(r"(?<=\d)(?=[A-Za-z])", "_", s)`; the Boolean says whether a digit stands before.
  unfoldable pub separated : Bool → Text → Text
  separated after [] = []
  separated after (c ∷ s) =
      let rest = separated (python.is_digit c) s in
      if after && is_letter c then b'_' ∷ c ∷ rest else c ∷ rest

  abbrev pub underscored : Text → Text
  underscored = map (λ c. if c == b'.' then b'_' else c)

  -- `canonical_ref`
  unfoldable pub canonical_ref : Text → Text
  unfolding separated
  canonical_ref source_version =
      codes "REL_" ++ python.upper (underscored (separated false source_version))

-- `initdb_options` of `get_test_script`, by the major version.
abbrev pub is_file_locked : ℕ → Bool
is_file_locked major = leb 16 major && leb major 19

abbrev pub initdb_options : ℕ → List Text
initdb_options major =
    codes "--no-sync"
    ∷ codes "--locale=C"
    ∷ codes "--encoding=UTF8"
    ∷ (if is_file_locked major
        then codes "--set=data_directory_lock_type=file"
          ∷ codes "--set=shared_memory_type=mmap"
          ∷ codes "--set=dynamic_shared_memory_type=mmap"
          ∷ []
        else [])

-- A flag with its value, where it has one.
abbrev pub Args : Type 0
Args = List (Text × Option Text)

abbrev pub flags : List Text → Args
flags = map (λ name. (name, none))

-- The flags of `get_configure_args` that depend on the target; `NotImplementedError` is a subclass of
-- `RuntimeError`.
unfoldable pub system_args : Text → Result Args
unfolding ends_with
system_args triple =
    if ends_with triple (codes "-apple-darwin")
    then ok (flags (codes "--with-bonjour" ∷ codes "--with-gssapi" ∷ codes "--without-ldap" ∷ []))
    else if ends_with triple (codes "-unknown-linux-musl")
        || ends_with triple (codes "-unknown-linux-gnu")
    then ok (flags (codes "--with-gssapi" ∷ codes "--with-ldap" ∷ []))
    else err
        (record { class = runtime_error; message = codes "unsupported target system: " ++ triple })

abbrev pub common_args : Args
common_args =
    (codes "--with-extra-version", some [])
      ∷ flags (
          codes "--enable-nls"
          ∷ codes "--with-icu"
          ∷ codes "--with-libxml"
          ∷ codes "--with-libxslt"
          ∷ codes "--with-lz4"
          ∷ codes "--with-openssl"
          ∷ codes "--with-readline"
          ∷ [])
    ++ (codes "--with-uuid", some (codes "e2fs"))
      ∷ flags (
          codes "--with-zstd"
          ∷ codes "--without-llvm"
          ∷ codes "--without-perl"
          ∷ codes "--without-python"
          ∷ codes "--without-pam"
          ∷ codes "--without-selinux"
          ∷ codes "--without-systemd"
          ∷ codes "--without-tcl"
          ∷ [])

-- `d | e` of dicts: the value of a key that both have is that of the second, at the first's place.
unfoldable pub set_arg : Text × Option Text → Args → Args
unfolding text_eq
set_arg (k, v) [] = (k, v) ∷ []
set_arg (k, v) ((j, w) ∷ args) =
    let rest = set_arg (k, v) args in if text_eq j k then (j, v) ∷ args else (j, w) ∷ rest

unfoldable pub merge_args : Args → Args → Args
unfolding set_arg
merge_args args [] = args
merge_args args (a ∷ more) = merge_args (set_arg a args) more

-- `get_configure_args`, from those of ggbuild.
unfoldable pub get_configure_args : Args → Text → Result Args
unfolding merge_args system_args
get_configure_args inherited triple = elim (system_args triple) [
  | ok system ↦ ok (merge_args (merge_args inherited common_args) system)
  | err e ↦ err e
]
