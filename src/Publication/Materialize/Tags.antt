-- ===== src/Publication/Materialize/Tags.antt =====
-- The tags that an index in the store lists, and those of the stored fragments.
use mathlib.Core.Path.{ap₂}
use mathlib.Core.List.Permᴰ
use postgresbuild.Prelude.{
  ◌≡◌, refl, sym, ap, subst, ◌∙◌, In-map, map-In, Bool, true, false, Option, none, some, List, [],
  ◌∷◌, map, In, here, there, if◌then◌else◌, ◌⊎◌, inl, inr,
}
use postgresbuild.Prelude.Text.{Text, codes, text_eq, text_eq-eq}
use postgresbuild.Prelude.Sort.{sort, sort-perm, In-perm}
use postgresbuild.Json.{
  Json, null, bool, int, obj, str, arr, items, items-from_items, lookup, as_str,
}
use postgresbuild.Publication.Fragment.{Fragment}
use postgresbuild.Publication.Index.{
  Index, Snapshot, snapshot_of, newer, project_index, index_json, snapshot_json,
}
use postgresbuild.Publication.Materialize.{set_tag, by_tag}
use postgresbuild.Publication.Materialize.Encoding.{
  Codec, Bytes, sorted_option, sort_keys, lookup-sort_fields, items-sort_items,
}

abbrev str_or_none : Option Json → Option Text
str_or_none none = none
str_or_none (some v) = as_str v

-- The text under `"tag"`.
unfoldable pub tag_field : Json → Option Text
unfolding lookup
tag_field (obj m) = str_or_none (lookup (codes "tag") m)
tag_field _ = none

abbrev with_tag : Option Text → List Text → List Text
with_tag none ts = ts
with_tag (some t) ts = t ∷ ts

unfoldable pub tags_in : List Json → List Text
unfolding tag_field
tags_in [] = []
tags_in (v ∷ vs) = with_tag (tag_field v) (tags_in vs)

abbrev items_of : Option Json → List Json
items_of (some (arr vs)) = items vs
items_of _ = []

-- The tags of `index["snapshots"]`.
unfoldable pub tags_of : Json → List Text
unfolding tags_in lookup items
tags_of (obj m) = tags_in (items_of (lookup (codes "snapshots") m))
tags_of _ = []

abbrev pub fragment_tags : List Fragment → List Text
fragment_tags = map (λ (f : Fragment). f.tag)

tag_field-sort_keys : (v : Json) → tag_field (sort_keys v) ≡ tag_field v
unfolding tag_field sort_keys
tag_field-sort_keys (obj m) =
    rw (lookup-sort_fields (codes "tag") m) (str_or_none-map (lookup (codes "tag") m))
  where
    as_str-sort_keys : (v : Json) → as_str (sort_keys v) ≡ as_str v
    as_str-sort_keys (str s) = refl
    as_str-sort_keys (arr vs) = refl
    as_str-sort_keys (obj m) = refl
    as_str-sort_keys null = refl
    as_str-sort_keys (bool b) = refl
    as_str-sort_keys (int n) = refl

    str_or_none-map : (o : Option Json) → str_or_none (sorted_option o) ≡ str_or_none o
    str_or_none-map none = refl
    str_or_none-map (some v) = as_str-sort_keys v
tag_field-sort_keys (arr vs) = refl
tag_field-sort_keys (str s) = refl
tag_field-sort_keys null = refl
tag_field-sort_keys (bool b) = refl
tag_field-sort_keys (int n) = refl

tags_in-sort_keys : (vs : List Json) → tags_in (map sort_keys vs) ≡ tags_in vs
unfolding tags_in
tags_in-sort_keys [] = refl
tags_in-sort_keys (v ∷ vs) = ap₂ with_tag (tag_field-sort_keys v) (tags_in-sort_keys vs)

-- An index lists the same tags after it is sorted.
pub tags_of-sort_keys : (v : Json) → tags_of (sort_keys v) ≡ tags_of v
unfolding tags_of sort_keys tags_in
tags_of-sort_keys (obj m) =
    rw (lookup-sort_fields (codes "snapshots") m) (items_case (lookup (codes "snapshots") m))
  where
    items_case : (o : Option Json) → tags_in (items_of (sorted_option o)) ≡ tags_in (items_of o)
    items_case none = refl
    items_case (some (arr vs)) = rw (items-sort_items vs) (tags_in-sort_keys (items vs))
    items_case (some (str s)) = refl
    items_case (some (obj m)) = refl
    items_case (some null) = refl
    items_case (some (bool b)) = refl
    items_case (some (int n)) = refl
tags_of-sort_keys (arr vs) = refl
tags_of-sort_keys (str s) = refl
tags_of-sort_keys null = refl
tags_of-sort_keys (bool b) = refl
tags_of-sort_keys (int n) = refl

snapshot_tags :
    (ss : List Snapshot) → tags_in (map snapshot_json ss) ≡ map (λ (s : Snapshot). s.tag) ss
unfolding tags_in snapshot_json tag_field lookup text_eq
snapshot_tags [] = refl
snapshot_tags (s ∷ ss) = ap (◌∷◌ s.tag) (snapshot_tags ss)

pub tags_of-index_json :
    (i : Index) → tags_of (index_json i) ≡ map (λ (s : Snapshot). s.tag) i.snapshots
unfolding tags_of index_json lookup text_eq
tags_of-index_json i =
    rw (items-from_items (map snapshot_json i.snapshots)) (snapshot_tags i.snapshots)

abbrev read {ℓ} : {A : Type ℓ} → A → (Json → A) → Option Json → A
read a f none = a
read a f (some v) = f v

-- The tag that bytes in the store show, for an index all of them.
module _ (codec : Codec) where
  unfoldable pub index_tags : Bytes → List Text
  unfolding tags_of
  index_tags c = read [] tags_of (codec.loads c)

  unfoldable pub fragment_tag : Bytes → Option Text
  unfolding tag_field
  fragment_tag c = read none tag_field (codec.loads c)

  pub index_tags-dumps : (v : Json) → index_tags (codec.dumps v) ≡ tags_of v
  unfolding index_tags
  index_tags-dumps v = rw (codec.loads-dumps v) (tags_of-sort_keys v)

  pub fragment_tag-dumps : (v : Json) → fragment_tag (codec.dumps v) ≡ tag_field v
  unfolding fragment_tag
  fragment_tag-dumps v = rw (codec.loads-dumps v) (tag_field-sort_keys v)

-- A listed tag is that of a projected fragment, and the other way round.
tags_of-project_index :
    (fs : List Fragment) → tags_of (index_json (project_index fs)) ≡ fragment_tags (sort newer fs)
unfolding project_index snapshot_of
tags_of-project_index fs = tags_of-index_json (project_index fs) ∙ map_map (sort newer fs)
  where
    map_map :
        (gs : List Fragment) → map (λ (s : Snapshot). s.tag) (map snapshot_of gs) ≡ fragment_tags gs
    map_map [] = refl
    map_map (g ∷ gs) = ap (◌∷◌ g.tag) (map_map gs)

In-sort : {f : Fragment} {fs : List Fragment} → In f fs → In f (sort newer fs)
In-sort m = In-perm (sort-perm newer _) m

sort-In : {f : Fragment} (fs : List Fragment) → In f (sort newer fs) → In f fs
sort-In fs m = In-perm (Permᴰ.symm (sort-perm newer fs)) m

pub project_index_tags :
    (fs : List Fragment) {t : Text}
    → In t (tags_of (index_json (project_index fs)))
    → In t (fragment_tags fs)
project_index_tags fs {t} m =
    let (f, n, e) =
      map-In (λ (f : Fragment). f.tag) (sort newer fs)
        (subst (In t) (tags_of-project_index fs) m) in
    subst (λ x. In x (fragment_tags fs)) (sym e) (In-map (λ (f : Fragment). f.tag) (sort-In fs n))

pub tags-project_index :
    (fs : List Fragment) {t : Text}
    → In t (fragment_tags fs)
    → In t (tags_of (index_json (project_index fs)))
tags-project_index fs {t} m =
    let (f, n, e) = map-In (λ (f : Fragment). f.tag) fs m in
    subst (In t) (sym (tags_of-project_index fs)) (
      subst (λ x. In x (fragment_tags (sort newer fs))) (sym e)
        (In-map (λ (f : Fragment). f.tag) (In-sort n)))

-- The tags after a fragment is set under its tag: its own is new at most.
pub fragment_tags-set_tag :
    (f : Fragment) (gs : List Fragment) {t : Text}
    → In t (fragment_tags (set_tag f gs))
    → (t ≡ f.tag) ⊎ In t (fragment_tags gs)
unfolding set_tag
fragment_tags-set_tag f [] (here e) = inl e
fragment_tags-set_tag f [] (there m) = elim m [ ]
fragment_tags-set_tag f (g ∷ gs) {t} m =
    with_test (text_eq g.tag f.tag) (λ n. fragment_tags-set_tag f gs n) m
  where
    with_test :
        (b : Bool)
        → (In t (fragment_tags (set_tag f gs)) → (t ≡ f.tag) ⊎ In t (fragment_tags gs))
        → In t (fragment_tags (if b then f ∷ gs else g ∷ set_tag f gs))
        → (t ≡ f.tag) ⊎ In t (fragment_tags (g ∷ gs))
    with_test true rest (here e) = inl e
    with_test true rest (there m) = inr (there m)
    with_test false rest (here e) = inr (here e)
    with_test false rest (there m) = elim (rest m) [ inl e ↦ inl e | inr n ↦ inr (there n) ]

pub set_tag-own : (f : Fragment) (gs : List Fragment) → In f.tag (fragment_tags (set_tag f gs))
unfolding set_tag
set_tag-own f [] = here refl
set_tag-own f (g ∷ gs) = with_test (text_eq g.tag f.tag) (set_tag-own f gs)
  where
    with_test :
        (b : Bool)
        → In f.tag (fragment_tags (set_tag f gs))
        → In f.tag (fragment_tags (if b then f ∷ gs else g ∷ set_tag f gs))
    with_test true rest = here refl
    with_test false rest = there rest

pub set_tag-keep :
    (f : Fragment) (gs : List Fragment) {t : Text}
    → In t (fragment_tags gs)
    → In t (fragment_tags (set_tag f gs))
unfolding set_tag
set_tag-keep f [] m = elim m [ ]
set_tag-keep f (g ∷ gs) {t} m = with_test (text_eq g.tag f.tag) refl (λ n. set_tag-keep f gs n) m
  where
    with_test :
        (b : Bool)
        → text_eq g.tag f.tag ≡ b
        → (In t (fragment_tags gs) → In t (fragment_tags (set_tag f gs)))
        → In t (fragment_tags (g ∷ gs))
        → In t (fragment_tags (if b then f ∷ gs else g ∷ set_tag f gs))
    with_test true q rest (here e) = here (e ∙ text_eq-eq g.tag f.tag q)
    with_test true q rest (there m) = there m
    with_test false q rest (here e) = here e
    with_test false q rest (there m) = there (rest m)

pub fragment_tags-by_tag :
    (fs acc : List Fragment) {t : Text}
    → In t (fragment_tags (by_tag fs acc))
    → In t (fragment_tags fs) ⊎ In t (fragment_tags acc)
unfolding by_tag
fragment_tags-by_tag [] acc m = inr m
fragment_tags-by_tag (f ∷ fs) acc m = elim (fragment_tags-by_tag fs (set_tag f acc) m) [
  | inl n ↦ inl (there n)
  | inr n ↦ elim (fragment_tags-set_tag f acc n) [ inl e ↦ inl (here e) | inr k ↦ inr k ]
]

by_tag-acc :
    (fs acc : List Fragment) {t : Text}
    → In t (fragment_tags acc)
    → In t (fragment_tags (by_tag fs acc))
unfolding by_tag
by_tag-acc [] acc m = m
by_tag-acc (f ∷ fs) acc m = by_tag-acc fs (set_tag f acc) (set_tag-keep f acc m)

pub by_tag-keep :
    (fs acc : List Fragment) {t : Text}
    → In t (fragment_tags fs)
    → In t (fragment_tags (by_tag fs acc))
unfolding by_tag
by_tag-keep [] acc m = elim m [ ]
by_tag-keep (f ∷ fs) acc (here e) =
    by_tag-acc fs (set_tag f acc)
      (subst (λ x. In x (fragment_tags (set_tag f acc))) (sym e) (set_tag-own f acc))
by_tag-keep (f ∷ fs) acc (there m) = by_tag-keep fs (set_tag f acc) m
