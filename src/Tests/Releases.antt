-- ===== src/Tests/Releases.antt =====
-- `latest_release` on two pages of releases.
use postgresbuild.Prelude.{
  ℕ, ◌≡◌, refl, Option, none, some, List, [], ◌∷◌, ◌++◌, ◌==◌, leb, take, if◌then◌else◌, Result, ok,
  err, ◌>>=◌, ◌>>◌, guard, expect,
}
use postgresbuild.Prelude.Text.{Text, codes, text_eq}
use postgresbuild.Prelude.Order.{leb_total, leb_trans}
use postgresbuild.Prelude.Decimal.{number, show}
use postgresbuild.Github.{Versions, StartTag, Web, UpdatePolicy, raise_value}
use postgresbuild.Github.Release.{latest_release, collect, releases_url}
use postgresbuild.Github.Listing.{IsComplete, listing-IsComplete}
use postgresbuild.Github.Greatest.{IsGreatest, latest_release-IsGreatest}

-- Versions of the form `18.4`, by their second number.
abbrev minor_of : Option (ℕ × Text) → Result ℕ
minor_of (some (major, dot ∷ rest)) = elim (number rest) [
  | none ↦ err (raise_value "version")
  | some (minor, end) ↦ ok minor
]
minor_of _ = err (raise_value "version")

abbrev versions : Versions
versions = record {
  Version = ℕ;
  parse = λ s. minor_of (number s);
  is_prerelease = λ v. v == 99;
  major = λ v. 18;
  print = λ v. codes "18." ++ show v;
  le = leb;
  total = leb_total;
  trans = leb_trans;
}

abbrev link : Text → StartTag
link tag = record {
  name = codes "a";
  attrs =
      (codes "href", some (codes "/o/r/releases/tag/" ++ tag))
      ∷ (codes "class", some (codes "Link--primary"))
      ∷ [];
}

abbrev next_link : StartTag
next_link = record { name = codes "a"; attrs = (codes "rel", some (codes "next")) ∷ [] }

abbrev tags_of : Text → List StartTag
tags_of s =
    if text_eq s (codes "first")
    then link (codes "v18.3") ∷ link (codes "v17.9") ∷ link (codes "v18.99") ∷ next_link ∷ []
    else link (codes "v18.4") ∷ link (codes "v18.2") ∷ []

abbrev text_of : ℕ → Text
text_of n = if n == 1 then codes "first" else codes "second"

abbrev web : Web
web = record {
  unquote = λ s. s;
  words = λ s. s ∷ [];
  start_tags = tags_of;
  latest = λ url. err (raise_value "offline");
  page = λ url n.
      ok (record { host = codes "github.com"; path = codes "/o/r/releases"; text = text_of n });
}

abbrev policy : UpdatePolicy
policy = record {
  repository = some (codes "o/r");
  tag = some (codes "v{version}");
  major = some (codes "18");
}

abbrev listed : List Text
listed = codes "v18.3" ∷ codes "v17.9" ∷ codes "v18.99" ∷ codes "v18.4" ∷ codes "v18.2" ∷ []

all_listed : collect web (releases_url (codes "o/r")) 10 1 [] ≡ ok listed
unfolding collect ◌>>=◌ ◌>>◌ guard expect text_eq
all_listed = refl

newest : latest_release web versions policy ≡ ok (codes "18.4")
unfolding latest_release ◌>>=◌ ◌>>◌ guard expect text_eq number show
newest = refl

listing-IsComplete_example : IsComplete web (releases_url (codes "o/r")) 1 11 [] listed
listing-IsComplete_example = listing-IsComplete web (releases_url (codes "o/r")) all_listed

latest_release-IsGreatest_example :
    (tags : List Text) × (collect web (releases_url (codes "o/r")) 10 1 [] ≡ ok tags)
    × IsGreatest web versions (codes "v{version}") (codes "18") (take 100 tags) (codes "18.4")
latest_release-IsGreatest_example = latest_release-IsGreatest web versions policy refl newest
