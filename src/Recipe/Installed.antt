-- ===== src/Recipe/Installed.antt =====
-- src/postgresbuild/postgresql/__init__.py: when `validate_install_inventory` raises nothing.
use postgresbuild.Prelude.{
  ◌≡◌, refl, Bool, true, false, not, is_nil, all, if_elim, &&-eq-true, Option, none, some, List, [],
  ◌∷◌, ◌++◌, ◌↔◌, if◌then◌else◌, ok, guard,
}
use postgresbuild.Prelude.Text.{Text, text_eq}
use postgresbuild.Paths.{PurePath, after_parts, relative_to}
use postgresbuild.Recipe.{Python}
use postgresbuild.Recipe.Inventory.{
  commands, is_allowed, unexpected_of, unexpected, validate_install_inventory,
}
use postgresbuild.Recipe.Production.{
  IsProduction, is_part, is_allowed-Production, Production-is_allowed,
}

abbrev pub has_parts : PurePath → Bool
has_parts file = all is_part file.parts

-- The file is in the installation, at a place of a production file.
pub record IsInstalled (names : List Text) (prefix file : PurePath) : Type 0 where
  pub parts : List Text
  pub under : relative_to file prefix ≡ some parts
  pub production : IsProduction names parts

pub data AreInstalled (names : List Text) (prefix : PurePath) : List PurePath → Type 0 where
  none_left : AreInstalled names prefix []
  and_file :
      {file : PurePath} {files : List PurePath}
      → IsInstalled names prefix file
      → AreInstalled names prefix files
      → AreInstalled names prefix (file ∷ files)

after_parts-parts :
    (roots ps : List Text) {rest : List Text}
    → after_parts roots ps ≡ some rest
    → all is_part ps ≡ true
    → all is_part rest ≡ true
unfolding after_parts
after_parts-parts [] ps h j = cc
after_parts-parts (r ∷ roots) [] h j = cc
after_parts-parts (r ∷ roots) (p ∷ ps) {rest} h j =
    if_elim (λ o. o ≡ some rest → all is_part rest ≡ true) (text_eq r p)
      (λ _ h. after_parts-parts roots ps h (&&-eq-true _ _ j).1) (λ _ h. cc) h

relative_to-parts :
    (file prefix : PurePath) {rest : List Text}
    → relative_to file prefix ≡ some rest
    → has_parts file ≡ true
    → all is_part rest ≡ true
unfolding relative_to
relative_to-parts file prefix {rest} h j =
    if_elim (λ o. o ≡ some rest → all is_part rest ≡ true)
      (if file.absolute then prefix.absolute else not prefix.absolute)
      (λ _ h. after_parts-parts prefix.parts file.parts h j) (λ _ h. cc) h

module _ (names : List Text) (prefix : PurePath) where
  of_unexpected :
      (file : PurePath) (o : Option (List Text))
      → has_parts file ≡ true
      → relative_to file prefix ≡ o
      → is_nil (unexpected_of names file o) ≡ true
      → IsInstalled names prefix file
  of_unexpected file none j e h = cc
  of_unexpected file (some ps) j e h =
      if_elim (λ xs. is_nil xs ≡ true → IsInstalled names prefix file) (is_allowed names ps)
        (λ a _. record {
          parts = ps;
          under = e;
          production = is_allowed-Production names ps (relative_to-parts file prefix e j) a;
        })
        (λ _ h. cc) h

  to_unexpected :
      (file : PurePath)
      → IsInstalled names prefix file
      → unexpected_of names file (relative_to file prefix) ≡ []
  to_unexpected file i = rw i.under (rw (Production-is_allowed names i.production) refl)

  nil-append :
      {A : Type 0} (xs ys : List A)
      → is_nil (xs ++ ys) ≡ true
      → (is_nil xs ≡ true) × (is_nil ys ≡ true)
  nil-append [] ys h = (refl, h)
  nil-append (x ∷ xs) ys h = cc

  unexpected-AreInstalled :
      (files : List PurePath)
      → all has_parts files ≡ true
      → is_nil (unexpected names prefix files) ≡ true
      → AreInstalled names prefix files
  unfolding unexpected
  unexpected-AreInstalled [] j h = none_left
  unexpected-AreInstalled (file ∷ files) j h =
      let (a, b) =
        nil-append (unexpected_of names file (relative_to file prefix))
          (unexpected names prefix files) h in
      let (c, d) = &&-eq-true _ _ j in
      and_file (of_unexpected file _ c refl a) (unexpected-AreInstalled files d b)

  AreInstalled-unexpected :
      {files : List PurePath} → AreInstalled names prefix files → unexpected names prefix files ≡ []
  unfolding unexpected
  AreInstalled-unexpected none_left = refl
  AreInstalled-unexpected (and_file {file = file} i is) =
      rw (to_unexpected file i) (AreInstalled-unexpected is)

guard-true : (c : Bool) (e : _) → guard c e ≡ ok tt → c ≡ true
unfolding guard
guard-true true e h = refl
guard-true false e h = cc

-- `validate_install_inventory` raises nothing exactly when every file lies under the prefix at the
-- place of a production file: a command of the installation list in bin, a loadable module in
-- lib/postgresql, a shared library in lib that is neither a static one nor one of ECPG, or anything
-- below share/postgresql, licenses or lib/ossl-modules. The parts of the paths hold no slash.
pub validate_install_inventory_iff :
    (python : Python) (lines : List Text) (prefix : PurePath) (files : List PurePath)
    → all has_parts files ≡ true
    → (validate_install_inventory python lines prefix files ≡ ok tt)
      ↔ AreInstalled (commands python lines) prefix files
unfolding validate_install_inventory guard
validate_install_inventory_iff python lines prefix files j = (
  λ h. unexpected-AreInstalled (commands python lines) prefix files j (guard-true _ _ h),
  λ i. rw (AreInstalled-unexpected (commands python lines) prefix i) refl,
)
