-- ===== src/Github/Greatest.antt =====
-- src/postgresbuild/github.py: `latest_release` takes the greatest stable version.
use mathlib.Core.Option.{some-injective}
use postgresbuild.Prelude.{
  ◌>>=◌, ◌++◌, if_elim, if◌then◌else◌, ◌≡◌, refl, sym, ap, subst, ◌∙◌, true, false, Bool-cases, ◌⊎◌,
  inl, inr, Option, none, some, List, [], ◌∷◌, In, here, there, take, Exn, ◌||◌, Result, ok, err,
  ok-eq, in-result,
}
use postgresbuild.Prelude.Text.{Text, codes, is_empty}
use postgresbuild.Github.{Versions, Web, UpdatePolicy, match_version}
use postgresbuild.Github.Form.{
  HasForm, IsTemplate, cut_template-eq, match_version-IsTemplate, match_version-HasForm,
  HasForm-match_version,
}
use postgresbuild.Github.Release.{
  collect, stable_version, stable_versions, greatest, printed_greatest, latest_of_major,
  latest_release, or_empty, releases_url,
}
use postgresbuild.Github.StableVersions.{
  stable_versions-In, greatest-In, greatest-le, stable_versions-found, In-stable_versions,
}

err-neq : {A P : Type 0} {e : Exn} {a : A} → err e ≡ ok a → P
err-neq h = cc

none-neq : {P : Type 0} {s : Text} → ◌≡◌ {A = Result (Option Text)} (ok none) (ok (some s)) → P
none-neq h = cc

module _ (web : Web) (versions : Versions) where
  open versions use {Version, le, print, parse, is_prerelease}

  -- Of a tag without the form of the template there is nothing to say. Otherwise the release in it
  -- is a version, which is a prerelease or not above `w`.
  pub data IsBelow (major before after : Text) (w : Version) (tag : Text) : Type 0 where
    other :
        ((release : Text) → ¬ HasForm major before after tag release)
        → IsBelow major before after w tag
    release_of :
        (release : Text) (v : Version)
        → HasForm major before after tag release
        → parse release ≡ ok v
        → (is_prerelease v ≡ true) ⊎ (le v w ≡ true)
        → IsBelow major before after w tag

  abbrev pub AreBelow : Text → Text → Text → Version → List Text → Type 0
  AreBelow major before after w [] = Unit {0}
  AreBelow major before after w (tag ∷ tags) =
      IsBelow major before after w tag × AreBelow major before after w tags

  -- The greatest of the releases, without the prereleases, of the tags that have the form of the
  -- template with the major version in it.
  pub record IsGreatest (template major : Text) (tags : List Text) (result : Text) : Type 0 where
    pub before : Text
    pub after : Text
    pub template_of : template ≡ before ++ (codes "{version}" ++ after)
    pub tag : Text
    pub release : Text
    pub version : Version
    pub listed : In tag tags
    pub form : HasForm major before after tag release
    pub parsed : parse release ≡ ok version
    pub stable : is_prerelease version ≡ false
    pub printed : result ≡ print version
    pub upper : AreBelow major before after version tags

  AreBelow-In :
      (major before after : Text) (w : Version) (tags : List Text)
      → ((t : Text) → In t tags → IsBelow major before after w t)
      → AreBelow major before after w tags
  AreBelow-In major before after w [] f = tt
  AreBelow-In major before after w (t ∷ tags) f =
      (f t (here refl), AreBelow-In major before after w tags (λ u m. f u (there m)))

  -- What a stable version is the version of.
  record IsStable (template major tag : Text) (v : Version) : Type 0 where
    release : Text
    found : match_version template major tag ≡ ok (some release)
    parsed : parse release ≡ ok v
    stable : is_prerelease v ≡ false

  parsed-IsStable :
      (template major tag release : Text) (u : Version) {v : Version}
      → match_version template major tag ≡ ok (some release)
      → parse release ≡ ok u
      → ok (if is_prerelease u then none else some u) ≡ ok (some v)
      → IsStable template major tag v
  parsed-IsStable template major tag release u {v} e p h =
      if_elim (λ o. o ≡ some v → IsStable template major tag v) (is_prerelease u) (λ _ q. cc)
        (λ n q.
          subst (IsStable template major tag) (some-injective _ _ q)
            (record { release = release; found = e; parsed = p; stable = n }))
        (ok-eq h)

  -- `stable_version` behind its match.
  abbrev version_of : Option Text → Result (Option Version)
  version_of found = elim found [
    | none ↦ ok none
    | some s ↦ do v ← parse s; ok (if is_prerelease v then none else some v)
  ]

  version_of-IsStable :
      (template major tag : Text) (found : Option Text) {v : Version}
      → match_version template major tag ≡ ok found
      → version_of found ≡ ok (some v)
      → IsStable template major tag v
  version_of-IsStable template major tag none e h = cc
  version_of-IsStable template major tag (some release) e h =
      in-result _ _ h (λ u p h. parsed-IsStable template major tag release u e p h)

  stable_version-IsStable :
      (template major tag : Text) {v : Version}
      → stable_version web versions template major tag ≡ ok (some v)
      → IsStable template major tag v
  unfolding stable_version
  stable_version-IsStable template major tag h =
      in-result _ _ h (λ found e h. version_of-IsStable template major tag found e h)

  version_of-IsBelow :
      (template major tag : Text) (release : Option Text) (found : Option Version)
      {before after : Text} (w : Version)
      → is_empty major ≡ false
      → IsTemplate template before after
      → match_version template major tag ≡ ok release
      → version_of release ≡ ok found
      → ((v : Version) → found ≡ some v → le v w ≡ true)
      → IsBelow major before after w tag
  version_of-IsBelow template major tag none found {before} {after} w m t e h f = other (λ s form.
      none-neq (sym e ∙ HasForm-match_version template major before after tag m t.cut t.once form))
  version_of-IsBelow template major tag (some s) found {before} {after} w m t e h f =
      in-result _ _ h (λ v p h.
        release_of s v (match_version-HasForm template major before after tag m t.cut e) p
          (elim (Bool-cases (is_prerelease v)) [
            | inl y ↦ inl y
            | inr n ↦ inr (f v (sym (ok-eq (rw n at h))))
          ]))

  stable_version-IsBelow :
      (template major tag : Text) (found : Option Version) {before after : Text} (w : Version)
      → is_empty major ≡ false
      → IsTemplate template before after
      → stable_version web versions template major tag ≡ ok found
      → ((v : Version) → found ≡ some v → le v w ≡ true)
      → IsBelow major before after w tag
  unfolding stable_version
  stable_version-IsBelow template major tag found w m t h f =
      in-result _ _ h
        (λ release e h. version_of-IsBelow template major tag release found w m t e h f)

  printed_greatest-IsGreatest :
      (template major : Text) (tags : List Text) (vs : List Version) {result : Text}
      → is_empty major ≡ false
      → stable_versions web versions template major tags [] ≡ ok vs
      → printed_greatest web versions vs ≡ ok result
      → IsGreatest template major tags result
  printed_greatest-IsGreatest template major tags [] m s h = cc
  printed_greatest-IsGreatest template major tags (v ∷ vs) m s h =
      elim (stable_versions-In web versions template major tags [] s
        (greatest-In web versions v vs)) [
          | inl i ↦ elim i [ ]
          | inr (tag, listed, q) ↦
              let i = stable_version-IsStable template major tag q in
              let (before, after, t) = match_version-IsTemplate template major tag i.found in
              record {
                before = before;
                after = after;
                template_of = cut_template-eq template t.cut;
                tag = tag;
                release = i.release;
                version = greatest web versions v vs;
                listed = listed;
                form = match_version-HasForm template major before after tag m t.cut i.found;
                parsed = i.parsed;
                stable = i.stable;
                printed = sym (ok-eq h);
                upper = AreBelow-In major before after _ tags (λ x i.
                    let (found, e) =
                      stable_versions-found web versions template major tags [] s i in
                    stable_version-IsBelow template major x found _ m t e (λ u q.
                      let (w, m, l) =
                        In-stable_versions web versions template major tags [] s i (e ∙ ap ok q) in
                      versions.trans u w _ l (greatest-le web versions v vs m)));
              }
        ]

  latest_of_major-IsGreatest :
      (url template major : Text) {result : Text}
      → is_empty major ≡ false
      → latest_of_major web versions url template major ≡ ok result
      → (tags : List Text) × (collect web url 10 1 [] ≡ ok tags)
        × IsGreatest template major (take 100 tags) result
  unfolding latest_of_major
  latest_of_major-IsGreatest url template major m h = in-result _ _ h (λ tags c h.
      in-result _ _ h
        (λ vs s h. (tags, c, printed_greatest-IsGreatest template major (take 100 tags) vs m s h)))

  -- Where the policy names a major version and `latest_release` returns a release, the pages of
  -- the policy's repository could be read, and the policy's template is two texts around
  -- `{version}`. Among the first 100 tags listed there is one of these texts around a release that
  -- begins with the major and a dot and ends on its line. It parses to a version that is no
  -- prerelease, and this version is the result. Every one of the 100 tags of that form is one of a
  -- version, and if that is no prerelease it is not above the result.
  pub latest_release-IsGreatest :
      (policy : UpdatePolicy) {result : Text}
      → is_empty (or_empty policy.major) ≡ false
      → latest_release web versions policy ≡ ok result
      → (tags : List Text) × (collect web (releases_url (or_empty policy.repository)) 10 1 []
          ≡ ok tags)
        × IsGreatest (or_empty policy.tag) (or_empty policy.major) (take 100 tags) result
  unfolding latest_release
  latest_release-IsGreatest policy m h =
      elim (Bool-cases (is_empty (or_empty policy.repository) || is_empty (or_empty policy.tag))) [
        | inl e ↦ err-neq (rw e at h)
        | inr e ↦ latest_of_major-IsGreatest _ _ _ m (rw (e, m) at h)
      ]
