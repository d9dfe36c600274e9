-- ===== src/Json.antt =====
-- JSON values as `json.loads` gives them, and what Python's `isinstance`, `dict.get`, `in` and `==`
-- say of them. Numbers are integers: no document of the program holds a fraction.
use postgresbuild.Prelude.{
  ℕ, ◌≡◌, refl, Bool, true, false, ◌&&◌, Option, none, some, List, [], ◌∷◌, String, ◌==◌,
  if◌then◌else◌,
}
use postgresbuild.Prelude.Text.{Text, codes, text_eq}
use postgresbuild.Prelude.Int.{ℤ, pos, int_eq}

mutual
  pub data Json : Type 0 where
    null : Json
    bool : Bool → Json
    int : ℤ → Json
    str : Text → Json
    arr : Items → Json
    obj : Fields → Json

  pub data Items : Type 0 where
    nil : Items
    cons : Json → Items → Items

  pub data Fields : Type 0 where
    end : Fields
    field : Text → Json → Fields → Fields

unfoldable pub items : Items → List Json
items nil = []
items (cons v vs) = v ∷ items vs

unfoldable pub from_items : List Json → Items
from_items [] = nil
from_items (v ∷ vs) = cons v (from_items vs)

pub items-from_items : (vs : List Json) → items (from_items vs) ≡ vs
unfolding items from_items
items-from_items [] = refl
items-from_items (v ∷ vs) = cc (items-from_items vs)

-- `d[k]` as an option. The keys of a decoded object are different, so the first entry is the one.
unfoldable pub lookup : Text → Fields → Option Json
unfolding text_eq
lookup k end = none
lookup k (field j v m) = if text_eq j k then some v else lookup k m

abbrev pub or_null : Option Json → Json
or_null none = null
or_null (some v) = v

-- `d.get("…")`: `None`, which is also the value of a JSON null, where the key is missing.
unfoldable pub get : Fields → String → Json
unfolding lookup
get m k = or_null (lookup (codes k) m)

abbrev is_there : Option Json → Bool
is_there none = false
is_there (some v) = true

-- `"…" in d`
unfoldable pub has_key : Fields → String → Bool
unfolding lookup
has_key m k = is_there (lookup (codes k) m)

-- `{**d, k: v}`
unfoldable pub insert : Text → Json → Fields → Fields
unfolding text_eq
insert k v end = field k v end
insert k v (field j w m) =
    let rest = insert k v m in if text_eq j k then field j v m else field j w rest

-- `isinstance(v, dict)`, with the value. So for `list` and `str`.
abbrev pub as_dict : Json → Option Fields
as_dict (obj m) = some m
as_dict _ = none

abbrev pub as_list : Json → Option Items
as_list (arr vs) = some vs
as_list _ = none

abbrev pub as_str : Json → Option Text
as_str (str s) = some s
as_str _ = none

-- `isinstance(v, str)`
abbrev pub is_text : Json → Bool
is_text (str s) = true
is_text _ = false

-- `isinstance(v, int)`, which holds of `True` and `False` too.
abbrev pub as_int : Json → Option ℤ
as_int (int n) = some n
as_int (bool true) = some (pos 1)
as_int (bool false) = some (pos 0)
as_int _ = none

-- `bool(v)`
abbrev pub truthy : Json → Bool
truthy null = false
truthy (bool b) = b
truthy (int (ℤ.pos ℕ.zero)) = false
truthy (int _) = true
truthy (str []) = false
truthy (str (c ∷ s)) = true
truthy (arr nil) = false
truthy (arr (cons v vs)) = true
truthy (obj end) = false
truthy (obj (field k v m)) = true

-- `v == "…"`
unfoldable pub is_str : Json → Text → Bool
unfolding text_eq
is_str (str s) t = text_eq s t
is_str _ t = false

size : Fields → ℕ
size end = 0
size (field k v m) = ℕ.suc (size m)

abbrev num_eq : Option ℤ → Option ℤ → Bool
num_eq (some a) (some b) = int_eq a b
num_eq _ _ = false

-- `a == b`: `True == 1`, lists entry by entry, objects without regard to the order of their keys.
unfoldable mutual
  unfolding lookup text_eq int_eq size

  pub py_eq : Json → Json → Bool
  py_eq null null = true
  py_eq (bool a) w = num_eq (as_int (bool a)) (as_int w)
  py_eq (int a) w = num_eq (some a) (as_int w)
  py_eq (str s) (str t) = text_eq s t
  py_eq (arr vs) (arr ws) = items_eq vs ws
  py_eq (obj m) (obj n) = size m == size n && fields_le m n
  py_eq _ _ = false

  pub items_eq : Items → Items → Bool
  items_eq nil nil = true
  items_eq (cons v vs) (cons w ws) = py_eq v w && items_eq vs ws
  items_eq _ _ = false

  pub fields_le : Fields → Fields → Bool
  fields_le end n = true
  fields_le (field k v m) n = elim (lookup k n) [
    | none ↦ false
    | some w ↦ py_eq v w && fields_le m n
  ]
