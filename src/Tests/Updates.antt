-- ===== src/Tests/Updates.antt =====
-- `discover` and `compatibility` on two recipes, and the selection of what was found.
use postgresbuild.Prelude.{
  ℕ, ◌≡◌, refl, false, none, List, [], ◌∷◌, ◌++◌, In, here, leb, if◌then◌else◌, Result, ok, ◌>>=◌,
  ◌>>◌, guard, expect, traverse,
}
use postgresbuild.Prelude.Order.{leb_total, leb_trans, lex}
use postgresbuild.Prelude.Text.{Text, codes, text_eq, text_in}
use postgresbuild.Prelude.Sort.{sort, insert}
use postgresbuild.Github.{Versions}
use postgresbuild.Maintenance.{listed, bounded, Recipe, Upstream, Candidate}
use postgresbuild.Maintenance.Compatibility.{compatibility}
use postgresbuild.Maintenance.Discover.{Report, discover, revalidate}
use postgresbuild.Maintenance.Fresh.{IsFound, candidates-IsFound, revalidate_of_discover}
use postgresbuild.Maintenance.Compatible.{IsBased, compatibility-IsBased}

-- A version is one character, of major 1.
abbrev code_of : Text → Result ℕ
code_of [] = ok 0
code_of (c ∷ s) = ok c

abbrev versions : Versions
versions = record {
  Version = ℕ;
  parse = code_of;
  is_prerelease = λ v. false;
  major = λ v. 1;
  print = λ v. v ∷ [];
  le = leb;
  total = leb_total;
  trans = leb_trans;
}

abbrev zlib : Recipe
zlib = record {
  ident = codes "zlib";
  aliases = [];
  artifact_requirements = listed [];
  artifact_build_requirements = listed [];
  update_policy = none;
  source_versions = codes "3" ∷ [];
}

abbrev requirement : Text
requirement = codes "zlib (<9)"

abbrev libxml2 : Recipe
libxml2 = record {
  ident = codes "libxml2";
  aliases = [];
  artifact_requirements = listed (requirement ∷ []);
  artifact_build_requirements = bounded [];
  update_policy = none;
  source_versions = codes "2" ∷ [];
}

abbrev grouped : List Recipe
grouped = zlib ∷ libxml2 ∷ []

-- There is a new zlib.
abbrev releases_of : Recipe → Result (List Text)
releases_of r = if text_eq r.ident (codes "zlib") then ok (codes "4" ∷ []) else ok (codes "2" ∷ [])

abbrev upstream : Upstream
upstream = record {
  contains = λ bound version. ok (text_eq bound (codes "<9"));
  latest_release = λ policy. ok [];
  discover_releases = releases_of;
  source_url = λ r version. ok (codes "https://example.org/" ++ version);
  sha256 = λ s. s;
  dumps = λ name texts. name;
  is_space = λ c. text_eq (c ∷ []) (codes " ");
}

abbrev update : Candidate
update = record {
  package_name = codes "zlib";
  previous = codes "3" ∷ [];
  current = codes "4" ∷ [];
  classification = codes "upstream";
  evidence =
      record { url = codes "https://example.org/4"; text = codes "Upstream version 4 discovered" }
      ∷ [];
  blocked = [];
}

abbrev report : Report
report = record { candidates = update ∷ []; blocked = []; errors = []; suppressed = [] }

reported : discover upstream versions grouped [] ≡ ok report
unfolding discover ◌>>=◌ ◌>>◌ guard expect traverse text_eq sort insert lex
reported = refl

fits : compatibility upstream versions zlib (codes "4" ∷ []) grouped ≡ ok none
unfolding compatibility ◌>>=◌ ◌>>◌ guard expect traverse text_eq
fits = refl

candidates-IsFound_example :
    (r : Recipe) × In r grouped × IsFound upstream versions grouped [] r update
candidates-IsFound_example = candidates-IsFound upstream versions grouped [] reported (here refl)

revalidate_of_discover_example : revalidate upstream versions grouped (update ∷ []) ≡ ok tt
unfolding text_eq text_in
revalidate_of_discover_example =
    revalidate_of_discover upstream versions grouped [] (update ∷ []) refl reported (λ c m. m) refl
      refl

compatibility-IsBased_example : IsBased upstream versions zlib (codes "4")
compatibility-IsBased_example =
    compatibility-IsBased upstream versions zlib (codes "4" ∷ []) grouped fits (here refl)
