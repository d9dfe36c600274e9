-- ===== src/Recipe/Production.antt =====
-- src/postgresbuild/postgresql/__init__.py: which files `validate_install_inventory` lets pass.
use mathlib.Core.List.{append_assoc}
use postgresbuild.Prelude.{
  ℕ, ◌==◌, ◌≡◌, refl, sym, ap, subst, ◌∙◌, Bool, true, false, not, ◌&&◌, ◌||◌, any, all, Bool-cases,
  &&-eq-true, inl, inr, Option, none, some, List, [], ◌∷◌, ◌++◌, arith,
}
use postgresbuild.Prelude.Text.{
  Text, codes, text_in, texts_eq, texts_eq-eq, after_prefix, ends_with,
}
use postgresbuild.Paths.{as_posix, with_slashes, last_part}
use postgresbuild.Recipe.Inventory.{
  is_some, starts, parent, has_suffix, is_command, is_loadable, is_data, is_shared, is_library,
  is_allowed,
}

-- The places of the production files, by the parts of a path.
pub data IsProduction (names : List Text) : List Text → Type 0 where
  command : {name : Text} → text_in name names ≡ true → IsProduction names (codes "bin" ∷ name ∷ [])
  loadable :
      {name : Text}
      → (has_suffix name (codes ".dylib") || has_suffix name (codes ".so")) ≡ true
      → IsProduction names (codes "lib" ∷ codes "postgresql" ∷ name ∷ [])
  library :
      {name : Text}
      → starts name "lib" ≡ true
      → starts name "libecpg" ≡ false
      → starts name "libpgtypes" ≡ false
      → ends_with name (codes ".a") ≡ false
      → ends_with name (codes ".la") ≡ false
      → IsProduction names (codes "lib" ∷ name ∷ [])
  share :
      {p : Text} {ps : List Text} → IsProduction names (codes "share" ∷ codes "postgresql" ∷ p ∷ ps)
  license : {p : Text} {ps : List Text} → IsProduction names (codes "licenses" ∷ p ∷ ps)
  provider :
      {p : Text} {ps : List Text} → IsProduction names (codes "lib" ∷ codes "ossl-modules" ∷ p ∷ ps)

-- A part of a path holds no slash.
abbrev pub is_part : Text → Bool
is_part s = not (any (λ c. c == b'/') s)

after_directory :
    {P : Type 0} (a t p s : Text) {rest : Text}
    → is_part a ≡ true
    → is_part p ≡ true
    → after_prefix (a ++ b'/' ∷ t) (p ++ b'/' ∷ s) ≡ some rest
    → (a ≡ p → after_prefix t s ≡ some rest → P)
    → P
unfolding after_prefix
after_directory [] t [] s i j h f = f refl h
after_directory [] t (d ∷ p) s i j h f = absurd (ground arith)
after_directory (c ∷ a) t [] s i j h f = absurd (ground arith)
after_directory (c ∷ a) t (d ∷ p) s i j h f = elim (Bool-cases (c == d)) [
  | inl e ↦
      after_directory a t p s (ground arith) (ground arith) (ground arith)
        (λ q r. f (cc (q, same-eq c d e)) r)
  | inr e ↦ absurd (ground arith)
]
  where
    same-eq : (c d : ℕ) → (c == d) ≡ true → c ≡ d
    same-eq c d h = ground arith

no_directory :
    {P : Type 0} (a t p : Text) {rest : Text}
    → is_part p ≡ true
    → after_prefix (a ++ b'/' ∷ t) p ≡ some rest
    → P
unfolding after_prefix
no_directory [] t [] j h = cc
no_directory (c ∷ a) t [] j h = cc
no_directory [] t (d ∷ p) j h = absurd (ground arith)
no_directory (c ∷ a) t (d ∷ p) {rest} j h = elim (Bool-cases (c == d)) [
  | inl e ↦ no_directory a t p {rest = rest} (ground arith) (ground arith)
  | inr e ↦ absurd (ground arith)
]

in_some :
    {P : Type 0} {A : Type 0} (o : Option A) → is_some o ≡ true → ((a : A) → o ≡ some a → P) → P
in_some none h f = cc
in_some (some a) h f = f a refl

first_directory :
    {P : Type 0} (a t : Text) (ps : List Text)
    → is_part a ≡ true
    → all is_part ps ≡ true
    → is_some (after_prefix (a ++ b'/' ∷ t) (with_slashes ps)) ≡ true
    → ((q : Text) (qs : List Text)
        → ps ≡ a ∷ q ∷ qs
        → is_some (after_prefix t (with_slashes (q ∷ qs))) ≡ true
        → P)
    → P
unfolding with_slashes
first_directory a t [] i j h f = in_some _ h (λ r e. no_directory a t [] refl e)
first_directory a t (p ∷ []) i j h f = in_some _ h (λ r e. no_directory a t p (ground arith) e)
first_directory a t (p ∷ q ∷ qs) i j h f = in_some _ h (λ r e.
    after_directory a t p (with_slashes (q ∷ qs)) i (ground arith)
      (ap (after_prefix (a ++ b'/' ∷ t)) (sym (append_assoc p (codes "/") (with_slashes (q ∷ qs))))
        ∙ e)
      (λ g w. f q qs (cc g) (cc w)))

-- The last part, behind its parent.
parent-last : (p : Text) (ps : List Text) → p ∷ ps ≡ parent (p ∷ ps) ++ last_part (p ∷ ps) ∷ []
unfolding parent last_part
parent-last p [] = refl
parent-last p (q ∷ ps) = ap (◌∷◌ p) (parent-last q ps)

in_parent :
    (P : List Text → Type 0) (ps : List Text) (q : Text) (qs : List Text)
    → texts_eq (parent ps) (q ∷ qs) ≡ true
    → P ((q ∷ qs) ++ last_part ps ∷ [])
    → P ps
unfolding parent texts_eq
in_parent P [] q qs h x = cc
in_parent P (p ∷ ps) q qs h x =
    subst P (sym (parent-last p ps ∙ ap (λ r. r ++ last_part (p ∷ ps) ∷ []) (texts_eq-eq _ _ h))) x

in_both : {P : Type 0} (a b : Bool) → (a && b) ≡ true → (a ≡ true → b ≡ true → P) → P
in_both true b h f = f refl h
in_both false b h f = cc

in_either : {P : Type 0} (a b : Bool) → (a || b) ≡ true → (a ≡ true → P) → (b ≡ true → P) → P
in_either true b h f g = f refl
in_either false b h f g = g h

parts_after :
    {a q : Text} {ps qs : List Text}
    → ps ≡ a ∷ q ∷ qs
    → all is_part ps ≡ true
    → all is_part (q ∷ qs) ≡ true
parts_after e j = (&&-eq-true _ _ (subst (λ r. all is_part r ≡ true) e j)).1

-- The tests of a library's name, one by one.
in_shared :
    {P : Type 0} (a b c d e : Bool)
    → (a && (not (b || c) && not (d || e))) ≡ true
    → (a ≡ true → b ≡ false → c ≡ false → d ≡ false → e ≡ false → P)
    → P
in_shared false b c d e h f = cc
in_shared true true c d e h f = cc
in_shared true false true d e h f = cc
in_shared true false false true e h f = cc
in_shared true false false false true h f = cc
in_shared true false false false false h f = f refl refl refl refl refl

to_shared :
    (a b c d e : Bool)
    → a ≡ true
    → b ≡ false
    → c ≡ false
    → d ≡ false
    → e ≡ false
    → (a && (not (b || c) && not (d || e))) ≡ true
to_shared a b c d e p q r s t = cc

or_right : (a : Bool) {b : Bool} → b ≡ true → (a || b) ≡ true
or_right true h = refl
or_right false h = h

module _ (names : List Text) where
  abbrev Production : List Text → Type 0
  Production = IsProduction names

  is_command-Production : (ps : List Text) → is_command names ps ≡ true → Production ps
  unfolding is_command
  is_command-Production ps h =
      in_both _ _ h (λ e t. in_parent Production ps (codes "bin") [] e (command t))

  is_loadable-Production : (ps : List Text) → is_loadable ps ≡ true → Production ps
  unfolding is_loadable
  is_loadable-Production ps h =
      in_both _ _ h
        (λ e t. in_parent Production ps (codes "lib") (codes "postgresql" ∷ []) e (loadable t))

  is_library-Production : (ps : List Text) → is_library ps ≡ true → Production ps
  unfolding is_library is_shared
  is_library-Production ps h = in_both _ _ h (λ e t.
      in_shared (starts (last_part ps) "lib") (starts (last_part ps) "libecpg")
        (starts (last_part ps) "libpgtypes") (ends_with (last_part ps) (codes ".a"))
        (ends_with (last_part ps) (codes ".la")) t
        (λ a b c d e'. in_parent Production ps (codes "lib") [] e (library a b c d e')))

  share-Production :
      (ps : List Text)
      → all is_part ps ≡ true
      → is_some (after_prefix (codes "share/postgresql/") (with_slashes ps)) ≡ true
      → Production ps
  share-Production ps j h =
      first_directory (codes "share") (codes "postgresql/") ps refl j h (λ q qs e h.
        first_directory (codes "postgresql") [] (q ∷ qs) refl (parts_after e j) h
          (λ r rs d _. subst Production (sym (e ∙ ap (◌∷◌ (codes "share")) d)) share))

  license-Production :
      (ps : List Text)
      → all is_part ps ≡ true
      → is_some (after_prefix (codes "licenses/") (with_slashes ps)) ≡ true
      → Production ps
  license-Production ps j h =
      first_directory (codes "licenses") [] ps refl j h
        (λ q qs e _. subst Production (sym e) license)

  provider-Production :
      (ps : List Text)
      → all is_part ps ≡ true
      → is_some (after_prefix (codes "lib/ossl-modules/") (with_slashes ps)) ≡ true
      → Production ps
  provider-Production ps j h =
      first_directory (codes "lib") (codes "ossl-modules/") ps refl j h (λ q qs e h.
        first_directory (codes "ossl-modules") [] (q ∷ qs) refl (parts_after e j) h
          (λ r rs d _. subst Production (sym (e ∙ ap (◌∷◌ (codes "lib")) d)) provider))

  is_data-Production : (ps : List Text) → all is_part ps ≡ true → is_data ps ≡ true → Production ps
  unfolding is_data as_posix
  is_data-Production [] j h = cc
  is_data-Production (p ∷ ps) j h =
      in_either _ _ h (share-Production (p ∷ ps) j)
        (λ h. in_either _ _ h (license-Production (p ∷ ps) j) (provider-Production (p ∷ ps) j))

  pub is_allowed-Production :
      (ps : List Text) → all is_part ps ≡ true → is_allowed names ps ≡ true → IsProduction names ps
  unfolding is_allowed
  is_allowed-Production ps j h = in_either _ _ h (is_command-Production ps) (λ h.
      in_either _ _ h (is_loadable-Production ps)
        (λ h. in_either _ _ h (is_data-Production ps j) (is_library-Production ps)))

  pub Production-is_allowed : {ps : List Text} → IsProduction names ps → is_allowed names ps ≡ true
  unfolding is_allowed is_command is_loadable is_data is_library is_shared parent texts_eq last_part
      as_posix with_slashes after_prefix
  Production-is_allowed (command t) = ground arith
  Production-is_allowed (loadable t) = ground arith
  Production-is_allowed (library {name = name} a b c d e) = or_right _ (
      to_shared (starts name "lib") (starts name "libecpg") (starts name "libpgtypes")
        (ends_with name (codes ".a")) (ends_with name (codes ".la")) a b c d e)
  Production-is_allowed share = refl
  Production-is_allowed license = refl
  Production-is_allowed provider = refl
