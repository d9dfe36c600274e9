-- ===== src/Maintenance/Discover.antt =====
-- src/postgresbuild/maintenance.py: `discover`, and the checks that `apply_batch` makes again. The
-- time and the version number of the report are left out.
use postgresbuild.Prelude.{
  is_nil, Bool, true, false, ◌&&◌, not, none, some, List, [], ◌∷◌, ◌++◌, map, keep, find, Exn,
  ExnClass, value_error, type_error, key_error, decode_error, io_error, Result, ok, err, guard,
  expect, traverse, ◌>>=◌, ◌>>◌, if◌then◌else◌,
}
use postgresbuild.Prelude.Text.{
  Text, codes, text_eq, text_in, texts_eq, is_empty, text_order, distinct,
}
use postgresbuild.Prelude.Sort.{sort}
use postgresbuild.Github.{Versions}
use postgresbuild.Maintenance.{
  Recipe, Upstream, Evidence, Candidate, sort_versions, digest, desired_releases, raise_value,
}
use postgresbuild.Maintenance.Compatibility.{Reason, compatibility}

-- What a recipe gives to the report; `unchanged` is `continue`.
pub data Finding : Type 0 where
  unchanged : Finding
  suppressed : Text → Finding
  blocked candidate : Candidate → Finding

pub record Report : Type 0 where
  pub candidates : List Candidate
  pub blocked : List Candidate
  pub errors : List (Text × Text)
  pub suppressed : List Text

-- `except (httpx2.HTTPError, OSError, ValueError, KeyError, TypeError)`
unfoldable pub is_caught : ExnClass → Bool
is_caught value_error = true
is_caught type_error = true
is_caught key_error = true
is_caught decode_error = true
is_caught io_error = true
is_caught _ = false

-- The reason as the text that Python keeps.
abbrev pub reason_text : Reason → Text
reason_text none = []
reason_text (some s) = s

abbrev pub empty_report : Report
empty_report = record { candidates = []; blocked = []; errors = []; suppressed = [] }

unfoldable pub add_finding : Report → Finding → Report
add_finding p unchanged = p
add_finding p (suppressed d) = record p { suppressed = p.suppressed ++ d ∷ [] }
add_finding p (blocked c) = record p { blocked = p.blocked ++ c ∷ [] }
add_finding p (candidate c) = record p { candidates = p.candidates ++ c ∷ [] }

-- `report["status"]`
abbrev pub is_failed : Report → Bool
is_failed p = elim p.errors [ [] ↦ false | e ∷ es ↦ true ]

abbrev pub ident_le : Recipe → Recipe → Bool
ident_le r s = text_order.le r.ident s.ident

abbrev pub stale : Exn
stale = raise_value (codes "candidate is stale; rediscover against current main")

module _ (upstream : Upstream) (versions : Versions) where
  abbrev pub evidence_of : Recipe → Text → Result Evidence
  evidence_of r version = do
    url ← upstream.source_url r version
    ok (record { url = url; text = codes "Upstream version " ++ version ++ codes " discovered" })

  abbrev pub found : List Text → Reason → Candidate → Finding
  found covered reason c =
      if text_in (digest upstream c) covered
      then Finding.suppressed (digest upstream c)
      else elim reason [ none ↦ candidate c | some s ↦ Finding.blocked (record c { blocked = s }) ]

  -- Behind the test that something has changed.
  unfoldable pub changed : List Recipe → List Text → Recipe → List Text → List Text → Result Finding
  unfolding compatibility text_in digest
  changed grouped covered r previous desired = do
    reason ← compatibility upstream versions r desired grouped
    evidence ← traverse (evidence_of r) (keep (λ v. not (text_in v previous)) desired)
    ok (
        found covered reason (record {
          package_name = r.ident;
          previous = previous;
          current = desired;
          classification = codes "upstream";
          evidence = evidence;
          blocked = [];
        }))

  -- The body of the `try` statement.
  unfoldable pub examine : List Recipe → List Text → Recipe → Result Finding
  unfolding sort_versions desired_releases changed texts_eq
  examine grouped covered r = do
    previous ← sort_versions versions r.source_versions
    desired ← desired_releases upstream versions r
    let later = changed grouped covered r previous desired
    if texts_eq previous desired then ok unchanged else later

  -- The handler, and the next recipe.
  abbrev pub add_result : Report → Text → Result Finding → Result Report
  add_result p ident (ok f) = ok (add_finding p f)
  add_result p ident (err e) =
      if is_caught e.class
      then ok (record p { errors = p.errors ++ (ident, e.message) ∷ [] })
      else err e

  unfoldable pub examine_all : List Recipe → List Text → List Recipe → Report → Result Report
  unfolding examine add_finding is_caught
  examine_all grouped covered [] p = ok p
  examine_all grouped covered (r ∷ rs) p = do
    q ← add_result p r.ident (examine grouped covered r)
    examine_all grouped covered rs q

  -- `discover`, on the result of `recipes()`
  unfoldable pub discover : List Recipe → List Text → Result Report
  unfolding examine_all text_order
  discover grouped covered = examine_all grouped covered (sort ident_le grouped) empty_report

  -- The first loop of `apply_batch`.
  unfoldable pub check_candidate : List Recipe → Candidate → Result (Unit {0})
  unfolding sort_versions desired_releases compatibility texts_eq text_eq
  check_candidate grouped c = do
    r ←
        expect (find (λ (r : Recipe). text_eq r.ident c.package_name) grouped)
          (record { class = key_error; message = c.package_name })
    previous ← sort_versions versions r.source_versions
    desired ← desired_releases upstream versions r
    guard (texts_eq previous c.previous && texts_eq desired c.current) stale
    reason ← compatibility upstream versions r desired grouped
    guard (is_empty (reason_text reason) && is_empty c.blocked)
        (raise_value (if is_empty (reason_text reason) then c.blocked else reason_text reason))

  unfoldable pub check_candidates : List Recipe → List Candidate → Result (Unit {0})
  unfolding check_candidate
  check_candidates grouped [] = ok tt
  check_candidates grouped (c ∷ cs) = check_candidate grouped c >> check_candidates grouped cs

  abbrev pub packages_of : List Candidate → List Text
  packages_of cs = map (λ (c : Candidate). c.package_name) cs

  -- `apply_batch` up to the staging of the changes.
  unfoldable pub revalidate : List Recipe → List Candidate → Result (Unit {0})
  unfolding check_candidates text_in
  revalidate grouped cs = do
    guard (not (is_nil cs)) (raise_value (codes "no candidates selected"))
    guard (distinct (packages_of cs))
        (raise_value (codes "select at most one candidate per package"))
    check_candidates grouped cs
