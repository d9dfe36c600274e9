-- ===== src/Github/StableVersions.antt =====
-- src/postgresbuild/github.py: the set of stable versions that `latest_release` makes, and its
-- greatest.
use postgresbuild.Prelude.{
  ◌≡◌, refl, sym, ap, subst, ◌∙◌, true, Bool-cases, ◌⊎◌, inl, inr, Option, none, some, List, [],
  ◌∷◌, any, In, here, there, any-In, In-append_left, In-append_right, In-append_cases, ok, ok-eq,
  in-result, arith,
}
use postgresbuild.Prelude.Text.{Text}
use postgresbuild.Github.{Versions, Web}
use postgresbuild.Github.Release.{stable_version, same, add_version, stable_versions, greatest}

module _ (web : Web) (versions : Versions) where
  open versions use {Version, le, print, parse, is_prerelease}

  le_refl : (v : Version) → le v v ≡ true
  le_refl v = elim (Bool-cases (le v v)) [ inl e ↦ e | inr e ↦ versions.total v v e ]

  pub greatest-In : (v : Version) (ws : List Version) → In (greatest web versions v ws) (v ∷ ws)
  unfolding greatest
  greatest-In v [] = here refl
  greatest-In v (w ∷ ws) = elim (Bool-cases (le w v)) [
    | inl e ↦ rw e (elim (greatest-In v ws) [ here p ↦ here p | there n ↦ there (there n) ])
    | inr e ↦ rw e (there (greatest-In w ws))
  ]

  pub greatest-le :
      (v : Version) (ws : List Version) {u : Version}
      → In u (v ∷ ws)
      → le u (greatest web versions v ws) ≡ true
  unfolding greatest
  greatest-le v [] m = elim m [
    | here p ↦ subst (λ x. le x v ≡ true) (sym p) (le_refl v)
    | there n ↦ elim n [ ]
  ]
  greatest-le v (w ∷ ws) {u} m = elim (Bool-cases (le w v)) [
    | inl e ↦ rw e (elim m [
      | here p ↦ greatest-le v ws (here p)
      | there (here p) ↦
          versions.trans u v _ (subst (λ x. le x v ≡ true) (sym p) e) (greatest-le v ws (here refl))
      | there (there n) ↦ greatest-le v ws (there n)
    ])
    | inr e ↦ rw e (elim m [
      | here p ↦
          versions.trans u w _ (subst (λ x. le x w ≡ true) (sym p) (versions.total w v e))
            (greatest-le w ws (here refl))
      | there n ↦ greatest-le w ws n
    ])
  ]

  add_version-In :
      (found : Option Version) (vs : List Version) {v : Version}
      → In v (add_version web versions found vs)
      → In v vs ⊎ (found ≡ some v)
  add_version-In none vs m = inl m
  add_version-In (some w) vs m = elim (Bool-cases (any (same web versions w) vs)) [
    | inl e ↦ inl (rw e at m)
    | inr e ↦ elim (In-append_cases vs (rw e at m)) [
      | inl i ↦ inl i
      | inr i ↦ elim i [ here p ↦ inr (ap some (sym p)) | there n ↦ elim n [ ] ]
    ]
  ]

  In-add_version :
      (found : Option Version) (vs : List Version) {v : Version}
      → In v vs
      → In v (add_version web versions found vs)
  In-add_version none vs m = m
  In-add_version (some w) vs m = elim (Bool-cases (any (same web versions w) vs)) [
    | inl e ↦ rw e m
    | inr e ↦ rw e (In-append_left (w ∷ []) m)
  ]

  -- The version, or one that equals it, is in the set.
  In-add_version_same :
      (v : Version) (vs : List Version)
      → (w : Version) × In w (add_version web versions (some v) vs) × (le v w ≡ true)
  In-add_version_same v vs = elim (Bool-cases (any (same web versions v) vs)) [
    | inl e ↦ let (w, m, s) = any-In (same web versions v) vs e in (w, rw e m, ground arith)
    | inr e ↦ (v, rw e (In-append_right vs (here refl)), le_refl v)
  ]

  -- The versions in the set are those of the tags.
  pub stable_versions-In :
      (template major : Text) (tags : List Text) (vs : List Version) {out : List Version}
      {v : Version}
      → stable_versions web versions template major tags vs ≡ ok out
      → In v out
      → In v vs
        ⊎ ((tag : Text) × In tag tags
            × (stable_version web versions template major tag ≡ ok (some v)))
  unfolding stable_versions
  stable_versions-In template major [] vs {v = v} h m = inl (subst (In v) (sym (ok-eq h)) m)
  stable_versions-In template major (tag ∷ tags) vs h m = in-result _ _ h (λ found e h.
      elim (stable_versions-In template major tags _ h m) [
        | inl i ↦ elim (add_version-In found vs i) [
          | inl j ↦ inl j
          | inr q ↦ inr (tag, here refl, e ∙ ap ok q)
        ]
        | inr (t, i, q) ↦ inr (t, there i, q)
      ])

  stable_versions-keep :
      (template major : Text) (tags : List Text) (vs : List Version) {out : List Version}
      {v : Version}
      → stable_versions web versions template major tags vs ≡ ok out
      → In v vs
      → In v out
  unfolding stable_versions
  stable_versions-keep template major [] vs {v = v} h m = subst (In v) (ok-eq h) m
  stable_versions-keep template major (tag ∷ tags) vs h m =
      in-result _ _ h
        (λ found e h. stable_versions-keep template major tags _ h (In-add_version found vs m))

  pub In-stable_versions :
      (template major : Text) (tags : List Text) (vs : List Version) {out : List Version}
      {tag : Text} {v : Version}
      → stable_versions web versions template major tags vs ≡ ok out
      → In tag tags
      → stable_version web versions template major tag ≡ ok (some v)
      → (w : Version) × In w out × (le v w ≡ true)
  unfolding stable_versions
  In-stable_versions template major [] vs h i s = elim i [ ]
  In-stable_versions template major (tag ∷ tags) vs {v = v} h i s = in-result _ _ h (λ found e h.
      elim i [
        | here p ↦
            let (w, m, l) = In-add_version_same v vs in
            let q : some v ≡ found =
              ok-eq (sym s ∙ ap (stable_version web versions template major) p ∙ e) in
            (
              w,
              stable_versions-keep template major tags _ h
                  (subst (λ o. In w (add_version web versions o vs)) q m),
              l,
            )
        | there n ↦ In-stable_versions template major tags _ h n s
      ])

  -- Every tag was looked at.
  pub stable_versions-found :
      (template major : Text) (tags : List Text) (vs : List Version) {out : List Version}
      {tag : Text}
      → stable_versions web versions template major tags vs ≡ ok out
      → In tag tags
      → (found : Option Version) × (stable_version web versions template major tag ≡ ok found)
  unfolding stable_versions
  stable_versions-found template major [] vs h i = elim i [ ]
  stable_versions-found template major (t ∷ tags) vs h i = in-result _ _ h (λ found e h. elim i [
    | here p ↦ (found, ap (stable_version web versions template major) p ∙ e)
    | there n ↦ stable_versions-found template major tags _ h n
  ])
