-- ===== src/Tests/Recipes.antt =====
-- An installation of a few files.
use postgresbuild.Prelude.{◌≡◌, ◌↔◌, refl, leb, ◌&&◌, false, List, [], ◌∷◌, ok}
use postgresbuild.Prelude.Text.{Text, codes, after_prefix}
use postgresbuild.Paths.{PurePath}
use postgresbuild.Recipe.{Python, separated, canonical_ref}
use postgresbuild.Recipe.Inventory.{commands, validate_install_inventory}
use postgresbuild.Recipe.Releases.{digits, one_of, link_at, links}
use postgresbuild.Recipe.Installed.{AreInstalled, validate_install_inventory_iff}

abbrev python : Python
python = record { upper = λ s. s; strip = λ s. s; is_digit = λ c. leb b'0' c && leb c b'9' }

abbrev prefix : PurePath
prefix = record { absolute = false; parts = codes "opt" ∷ [] }

abbrev installed : List Text → PurePath
installed ps = record { absolute = false; parts = codes "opt" ∷ ps }

abbrev files : List PurePath
files =
    installed (codes "bin" ∷ codes "psql" ∷ [])
    ∷ installed (codes "lib" ∷ codes "libpq.so.5" ∷ [])
    ∷ installed (codes "share" ∷ codes "postgresql" ∷ codes "errcodes.txt" ∷ [])
    ∷ []

abbrev entries : List Text
entries = codes "{bindir}/psql{exesuffix}" ∷ codes "{libdir}/*" ∷ []

tag : canonical_ref python (codes "19rc1") ≡ codes "REL_19_rc1"
unfolding canonical_ref separated
tag = refl

validate_install_inventory_iff_example :
    (validate_install_inventory python entries prefix files ≡ ok tt)
    ↔ AreInstalled (commands python entries) prefix files
validate_install_inventory_iff_example =
    validate_install_inventory_iff python entries prefix files refl

found :
    links python.is_digit (codes "<a href=\"v19beta1/\">v19</a> <a href=\"v18.1/\">")
    ≡ codes "19beta1" ∷ []
unfolding links link_at digits one_of after_prefix
found = refl
