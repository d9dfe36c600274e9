-- ===== src/Tests/Serial.antt =====
-- A codec: JSON values as prefix sequences of numbers. It shows that what the model asks of
-- `canonical_json` and `json.loads` can be had.
use postgresbuild.Prelude.{
  ℕ, zero, suc, ◌+◌, ◌<◌, ◌≡◌, refl, Bool, true, false, Option, none, some, List, [], ◌∷◌, arith,
}
use postgresbuild.Prelude.Text.{Text}
use postgresbuild.Prelude.Int.{pos, negsuc}
use postgresbuild.Json.{Json, null, bool, int, str, arr, obj, Items, nil, cons, Fields, end, field}
use postgresbuild.Publication.Materialize.Encoding.{Codec, sort_keys}

-- Each character, one up, and 0 at the end.
write_text : Text → List ℕ → List ℕ
write_text [] rest = 0 ∷ rest
write_text (c ∷ s) rest = suc c ∷ write_text s rest

add_char : ℕ → Option (Text × List ℕ) → Option (Text × List ℕ)
add_char c none = none
add_char c (some (s, rest)) = some (c ∷ s, rest)

read_text : List ℕ → Option (Text × List ℕ)
unfolding add_char
read_text [] = none
read_text (zero ∷ rest) = some ([], rest)
read_text (suc c ∷ r) = add_char c (read_text r)

read-write_text : (s : Text) (rest : List ℕ) → read_text (write_text s rest) ≡ some (s, rest)
unfolding write_text read_text
read-write_text [] rest = refl
read-write_text (c ∷ s) rest = rw (read-write_text s rest)

write_bool : Bool → ℕ
write_bool false = 1
write_bool true = 2

mutual
  unfolding write_text write_bool

  write : Json → List ℕ → List ℕ
  write null rest = 0 ∷ rest
  write (bool b) rest = write_bool b ∷ rest
  write (int (pos n)) rest = 3 ∷ n ∷ rest
  write (int (negsuc n)) rest = 4 ∷ n ∷ rest
  write (str s) rest = 5 ∷ write_text s rest
  write (arr vs) rest = 6 ∷ write_items vs rest
  write (obj m) rest = 7 ∷ write_fields m rest

  write_items : Items → List ℕ → List ℕ
  write_items nil rest = 0 ∷ rest
  write_items (cons v vs) rest = 1 ∷ write v (write_items vs rest)

  write_fields : Fields → List ℕ → List ℕ
  write_fields end rest = 0 ∷ rest
  write_fields (field k v m) rest = 1 ∷ write_text k (write v (write_fields m rest))

mutual
  depth : Json → ℕ
  depth (arr vs) = suc (depth_items vs)
  depth (obj m) = suc (depth_fields m)
  depth null = 1
  depth (bool b) = 1
  depth (int n) = 1
  depth (str s) = 1

  depth_items : Items → ℕ
  depth_items nil = 1
  depth_items (cons v vs) = suc (depth v + depth_items vs)

  depth_fields : Fields → ℕ
  depth_fields end = 1
  depth_fields (field k v m) = suc (depth v + depth_fields m)

abbrev Read : Type 0 → Type 0
Read A = List ℕ → Option (A × List ℕ)

abbrev then : {A B : Type 0} → Option (A × List ℕ) → (A → List ℕ → Option B) → Option B
then none f = none
then (some (a, rest)) f = f a rest

mutual
  unfolding read_text

  read : ℕ → List ℕ → Option (Json × List ℕ)
  read zero r = none
  read (suc f) [] = none
  read (suc f) (zero ∷ r) = some (null, r)
  read (suc f) (suc zero ∷ r) = some (bool false, r)
  read (suc f) (suc (suc zero) ∷ r) = some (bool true, r)
  read (suc f) (suc (suc (suc zero)) ∷ []) = none
  read (suc f) (suc (suc (suc zero)) ∷ n ∷ r) = some (int (pos n), r)
  read (suc f) (suc (suc (suc (suc zero))) ∷ []) = none
  read (suc f) (suc (suc (suc (suc zero))) ∷ n ∷ r) = some (int (negsuc n), r)
  read (suc f) (suc (suc (suc (suc (suc zero)))) ∷ r) =
      then (read_text r) (λ s rest. some (str s, rest))
  read (suc f) (suc (suc (suc (suc (suc (suc zero))))) ∷ r) =
      then (read_items f r) (λ vs rest. some (arr vs, rest))
  read (suc f) (suc (suc (suc (suc (suc (suc (suc n)))))) ∷ r) =
      then (read_fields f r) (λ m rest. some (obj m, rest))

  read_items : ℕ → List ℕ → Option (Items × List ℕ)
  read_items zero r = none
  read_items (suc f) [] = none
  read_items (suc f) (zero ∷ r) = some (nil, r)
  read_items (suc f) (suc n ∷ r) =
      then (read f r) (λ v rest. then (read_items f rest) (λ vs rest. some (cons v vs, rest)))

  read_fields : ℕ → List ℕ → Option (Fields × List ℕ)
  read_fields zero r = none
  read_fields (suc f) [] = none
  read_fields (suc f) (zero ∷ r) = some (end, r)
  read_fields (suc f) (suc n ∷ r) = then (read_text r) (λ k rest.
      then (read f rest) (λ v rest. then (read_fields f rest) (λ m rest. some (field k v m, rest))))

mutual
  unfolding read write depth

  read-write :
      (v : Json) (f : ℕ) (rest : List ℕ) → depth v < suc f → read f (write v rest) ≡ some (v, rest)
  read-write null zero rest h = absurd (omega arith)
  read-write null (suc f) rest h = refl
  read-write (bool b) zero rest h = absurd (omega arith)
  read-write (bool true) (suc f) rest h = refl
  read-write (bool false) (suc f) rest h = refl
  read-write (int n) zero rest h = absurd (omega arith)
  read-write (int (pos n)) (suc f) rest h = refl
  read-write (int (negsuc n)) (suc f) rest h = refl
  read-write (str s) zero rest h = absurd (omega arith)
  read-write (str s) (suc f) rest h = rw (read-write_text s rest)
  read-write (arr vs) zero rest h = absurd (omega arith)
  read-write (arr vs) (suc f) rest h = rw (read-write_items vs f rest (omega arith))
  read-write (obj m) zero rest h = absurd (omega arith)
  read-write (obj m) (suc f) rest h = rw (read-write_fields m f rest (omega arith))

  read-write_items :
      (vs : Items) (f : ℕ) (rest : List ℕ)
      → depth_items vs < suc f
      → read_items f (write_items vs rest) ≡ some (vs, rest)
  read-write_items nil zero rest h = absurd (omega arith)
  read-write_items nil (suc f) rest h = refl
  read-write_items (cons v vs) zero rest h = absurd (omega arith)
  read-write_items (cons v vs) (suc f) rest h =
      rw (
        read-write v f (write_items vs rest) (omega arith),
        read-write_items vs f rest (omega arith),
      )

  read-write_fields :
      (m : Fields) (f : ℕ) (rest : List ℕ)
      → depth_fields m < suc f
      → read_fields f (write_fields m rest) ≡ some (m, rest)
  read-write_fields end zero rest h = absurd (omega arith)
  read-write_fields end (suc f) rest h = refl
  read-write_fields (field k v m) zero rest h = absurd (omega arith)
  read-write_fields (field k v m) (suc f) rest h = rw (
    read-write_text k (write v (write_fields m rest)),
    read-write v f (write_fields m rest) (omega arith),
    read-write_fields m f rest (omega arith),
  )

without_rest : Option (Json × List ℕ) → Option Json
without_rest none = none
without_rest (some (v, rest)) = some v

-- The fuel stands in front.
unfoldable pub dumps : Json → List ℕ
unfolding write depth
dumps v = depth (sort_keys v) ∷ write (sort_keys v) []

unfoldable pub loads : List ℕ → Option Json
unfolding read without_rest
loads [] = none
loads (f ∷ r) = without_rest (read f r)

pub loads-dumps : (v : Json) → loads (dumps v) ≡ some (sort_keys v)
unfolding loads dumps
loads-dumps v = rw (read-write (sort_keys v) (depth (sort_keys v)) [] (omega arith))

abbrev pub codec : Codec
codec = record { dumps = dumps; loads = loads; loads-dumps = loads-dumps }
