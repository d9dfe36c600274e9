-- ===== src/Publication/Materialize/Encoding.antt =====
-- `canonical_json` and `json.loads`, as a parameter with its documented round trip: decoding what
-- was encoded gives the value with the keys of every object in order.
use postgresbuild.Prelude.{
  ℕ, ◌≡◌, refl, sym, ap, ◌∙◌, true, Option, none, some, List, ◌∷◌, map, arith, if◌then◌else◌,
  Bool-cases, inl, inr,
}
use postgresbuild.Prelude.Text.{Text, text_eq, text_eq-eq, text_order}
use postgresbuild.Json.{
  Json, null, bool, int, str, arr, obj, Items, nil, cons, Fields, end, field, items, lookup,
}

abbrev pub Bytes : Type 0
Bytes = List ℕ

unfoldable pub insert_sorted : Text → Json → Fields → Fields
insert_sorted k v end = field k v end
insert_sorted k v (field j w m) =
    if text_order.le k j then field k v (field j w m) else field j w (insert_sorted k v m)

-- The value with the keys of its objects in order, at every depth.
unfoldable mutual
  unfolding insert_sorted

  pub sort_keys : Json → Json
  sort_keys null = null
  sort_keys (bool b) = bool b
  sort_keys (int n) = int n
  sort_keys (str s) = str s
  sort_keys (arr vs) = arr (sort_items vs)
  sort_keys (obj m) = obj (sort_fields m)

  pub sort_items : Items → Items
  sort_items nil = nil
  sort_items (cons v vs) = cons (sort_keys v) (sort_items vs)

  pub sort_fields : Fields → Fields
  sort_fields end = end
  sort_fields (field k v m) = insert_sorted k (sort_keys v) (sort_fields m)

pub record Codec : Type 0 where
  pub dumps : Json → Bytes
  pub loads : Bytes → Option Json
  pub loads-dumps : (v : Json) → loads (dumps v) ≡ some (sort_keys v)

abbrev pub sorted_option : Option Json → Option Json
sorted_option none = none
sorted_option (some v) = some (sort_keys v)

le_refl : (k : Text) → text_order.le k k ≡ true
le_refl k = elim (Bool-cases (text_order.le k k)) [ inl e ↦ e | inr e ↦ text_order.total k k e ]

lookup-insert_sorted :
    (j k : Text) (v : Json) (m : Fields)
    → lookup j (insert_sorted k v m) ≡ (if text_eq k j then some v else lookup j m)
unfolding lookup insert_sorted
lookup-insert_sorted j k v end = refl
lookup-insert_sorted j k v (field i w m) = elim (Bool-cases (text_order.le k i)) [
  | inl e ↦ rw e
  | inr e ↦
      rw (e, lookup-insert_sorted j k v m)
        (elim (Bool-cases (text_eq k j)) [
          | inl a ↦ elim (Bool-cases (text_eq i j)) [
            | inl b ↦
                let q : text_order.le k i ≡ true =
                  ap (text_order.le k) (text_eq-eq i j b ∙ sym (text_eq-eq k j a)) ∙ le_refl k in
                cc (e, q)
            | inr b ↦ rw (a, b)
          ]
          | inr a ↦ rw a
        ])
]

-- Sorting the keys of an object keeps what each key holds.
pub lookup-sort_fields :
    (j : Text) (m : Fields) → lookup j (sort_fields m) ≡ sorted_option (lookup j m)
unfolding lookup sort_fields
lookup-sort_fields j end = refl
lookup-sort_fields j (field k v m) =
    lookup-insert_sorted j k (sort_keys v) (sort_fields m) ∙ ground (arith, lookup-sort_fields j m)

pub items-sort_items : (vs : Items) → items (sort_items vs) ≡ map sort_keys (items vs)
unfolding items sort_items
items-sort_items nil = refl
items-sort_items (cons v vs) = ap (◌∷◌ (sort_keys v)) (items-sort_items vs)
