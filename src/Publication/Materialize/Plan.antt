-- ===== src/Publication/Materialize/Plan.antt =====
-- What the new index of one round lists: the own tag and those of the fragments that were listed.
use mathlib.Core.Option.{some-injective}
use postgresbuild.Prelude.{
  ◌≡◌, sym, ap, subst, ◌∙◌, some, List, [], In, ◌⊎◌, inl, inr, ok, traverse, in-check, in-value,
  in-result, ok-eq, traverse-In, In-traverse, In-map, map-In,
}
use postgresbuild.Prelude.Text.{Text}
use postgresbuild.Json.{Json, obj, Fields}
use postgresbuild.Publication.Platform.{Platform}
use postgresbuild.Publication.Fragment.{Fragment, validate_fragment}
use postgresbuild.Publication.Fragment.Valid.{validate_fragment-tag}
use postgresbuild.Publication.Index.{Index, project_index, index_json}
use postgresbuild.Publication.Materialize.{set_tag, by_tag, decode, payload, plan, prepare}
use postgresbuild.Publication.Materialize.Encoding.{Codec, Bytes}
use postgresbuild.Publication.Materialize.Tags.{
  tag_field, tags_of, fragment_tag, fragment_tag-dumps, fragment_tags, project_index_tags,
  tags-project_index, fragment_tags-set_tag, set_tag-own, set_tag-keep, fragment_tags-by_tag,
  by_tag-keep,
}

module _ (platform : Platform) (codec : Codec) (repository : Text) where
  -- Some of the listed bytes show the tag.
  abbrev pub Listed : Text → List Bytes → Type 0
  Listed t raws = (raw : Bytes) × In raw raws × (fragment_tag codec raw ≡ some t)

  abbrev pub IsValid : Fragment → Type 0
  IsValid f = (v : Json) × (validate_fragment platform repository v ≡ ok f)

  source-tag : (f : Fragment) → IsValid f → tag_field (obj f.source) ≡ some f.tag
  unfolding tag_field
  source-tag f (v, h) = let (_, e) = validate_fragment-tag platform repository v h in rw e

  -- The bytes that are stored for a fragment show its tag.
  pub payload-tag :
      (f : Fragment)
      → IsValid f
      → fragment_tag codec (payload platform codec repository f) ≡ some f.tag
  payload-tag f v = fragment_tag-dumps codec (obj f.source) ∙ source-tag f v

  pub prepare-IsValid :
      (snapshot : Fields) (published_at : Text) {f : Fragment}
      → prepare platform codec repository snapshot published_at ≡ ok f
      → IsValid f
  unfolding prepare
  prepare-IsValid snapshot published_at h = in-result _ _ h (λ m _ h. (obj m, h))

  pub decode-tag :
      (raw : Bytes) {f : Fragment}
      → decode platform codec repository raw ≡ ok f
      → fragment_tag codec raw ≡ some f.tag
  unfolding decode fragment_tag
  decode-tag raw {f} h = in-value _ _ _ h (λ v e h.
      let (d, _) = validate_fragment-tag platform repository v h in rw (e, d) (source-tag f (v, h)))

  module _ (item : Fragment) (raws : List Bytes) {index : Index}
      (h : plan platform codec repository item raws ≡ ok index) where
    plan-form :
        (fs : List Fragment) × (traverse (decode platform codec repository) raws ≡ ok fs)
        × (project_index (set_tag item (by_tag fs [])) ≡ index)
    unfolding plan
    plan-form = in-result _ _ h (λ fs e h. in-check _ _ _ h (λ _ h. (fs, e, ok-eq h)))

    pub plan-own : In item.tag (tags_of (index_json index))
    plan-own =
        let (fs, _, e) = plan-form in
        subst (λ (i : Index). In item.tag (tags_of (index_json i))) e
          (tags-project_index (set_tag item (by_tag fs [])) (set_tag-own item (by_tag fs [])))

    pub plan-cases : {t : Text} → In t (tags_of (index_json index)) → (t ≡ item.tag) ⊎ Listed t raws
    plan-cases {t} m =
        let (fs, q, e) = plan-form in
        let gs = by_tag fs [] in
        let n =
          project_index_tags (set_tag item gs)
            (subst (λ (i : Index). In t (tags_of (index_json i))) (sym e) m) in
        elim (fragment_tags-set_tag item gs n) [
          | inl p ↦ inl p
          | inr k ↦ elim (fragment_tags-by_tag fs [] k) [
            | inl k ↦
                let (f, i, p) = map-In (λ (f : Fragment). f.tag) fs k in
                let (raw, j, d) = traverse-In (decode platform codec repository) raws q i in
                inr (raw, j, decode-tag raw d ∙ ap some (sym p))
            | inr k ↦ elim k [ ]
          ]
        ]

    pub plan-Listed : {t : Text} → Listed t raws → In t (tags_of (index_json index))
    plan-Listed {t} (raw, j, d) =
        let (fs, q, e) = plan-form in
        let gs = by_tag fs [] in
        let (f, i, p) = In-traverse (decode platform codec repository) raws q j in
        let same : f.tag ≡ t = some-injective f.tag t (sym (decode-tag raw p) ∙ d) in
        subst (λ (i : Index). In t (tags_of (index_json i))) e
          (tags-project_index (set_tag item gs) (
            set_tag-keep item gs (
              by_tag-keep fs []
                (subst (λ x. In x (fragment_tags fs)) same (In-map (λ (f : Fragment). f.tag) i)))))
