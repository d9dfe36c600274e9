-- ===== src/Prelude/Lists.antt =====
-- Lists measured by native numbers, under the library's names, and tests of all or any entries.
use Prim.Native.Nat.{ℕ, zero, suc, ◌+◌, ◌≤◌}
use mathlib.Core.Path.{◌≡◌, refl, sym, ap, subst}
use mathlib.Core.Logic.{◌⊎◌, inl, inr}
use mathlib.Core.Bool.{Bool, true, false, ◌&&◌, ◌||◌}
use mathlib.Core.Option.{Option, none, some}
use mathlib.Core.List.{List, [], ◌∷◌, ◌++◌, map}
use native.Mathlib.Omega.{arith}
use postgresbuild.Prelude.Tests.{if◌then◌else◌, Bool-cases}

module _ {ℓ} {A : Type ℓ} where
  abbrev pub length : List A → ℕ
  length [] = 0
  length (x ∷ xs) = suc (length xs)

  abbrev pub is_nil : List A → Bool
  is_nil [] = true
  is_nil (x ∷ xs) = false

  abbrev pub take : ℕ → List A → List A
  take zero xs = []
  take (suc n) [] = []
  take (suc n) (x ∷ xs) = x ∷ take n xs

  abbrev pub drop : ℕ → List A → List A
  drop zero xs = xs
  drop (suc n) [] = []
  drop (suc n) (x ∷ xs) = drop n xs

  -- `all(p(x) for x in xs)`
  abbrev pub all : (A → Bool) → List A → Bool
  all p [] = true
  all p (x ∷ xs) = p x && all p xs

  -- `any(p(x) for x in xs)`
  abbrev pub any : (A → Bool) → List A → Bool
  any p [] = false
  any p (x ∷ xs) = p x || any p xs

  -- `next((x for x in xs if p(x)), None)`
  abbrev pub find : (A → Bool) → List A → Option A
  find p [] = none
  find p (x ∷ xs) = if p x then some x else find p xs

  -- `[x for x in xs if p(x)]`
  abbrev pub keep : (A → Bool) → List A → List A
  keep p [] = []
  keep p (x ∷ xs) = let rest = keep p xs in if p x then x ∷ rest else rest

  -- The number of entries that pass a test.
  abbrev pub count : (A → Bool) → List A → ℕ
  count p [] = 0
  count p (x ∷ xs) = (if p x then 1 else 0) + count p xs

  -- Membership with the place kept.
  pub data In (a : A) : List A → Type ℓ where
    here : {x : A} {xs : List A} → a ≡ x → In a (x ∷ xs)
    there : {x : A} {xs : List A} → In a xs → In a (x ∷ xs)

  pub length-append : (xs ys : List A) → length (xs ++ ys) ≡ length xs + length ys
  length-append [] ys = omega arith
  length-append (x ∷ xs) ys = omega (arith, length-append xs ys)

  pub In-append_left : {a : A} {xs : List A} (ys : List A) → In a xs → In a (xs ++ ys)
  In-append_left ys (here e) = here e
  In-append_left ys (there m) = there (In-append_left ys m)

  pub In-append_right : {a : A} (xs : List A) {ys : List A} → In a ys → In a (xs ++ ys)
  In-append_right [] m = m
  In-append_right (x ∷ xs) m = there (In-append_right xs m)

  pub In-append_cases : {a : A} (xs : List A) {ys : List A} → In a (xs ++ ys) → In a xs ⊎ In a ys
  In-append_cases [] m = inr m
  In-append_cases (x ∷ xs) (here e) = inl (here e)
  In-append_cases (x ∷ xs) (there m) = elim (In-append_cases xs m) [
    | inl l ↦ inl (there l)
    | inr r ↦ inr r
  ]

  pub all-In : (p : A → Bool) {a : A} {xs : List A} → all p xs ≡ true → In a xs → p a ≡ true
  all-In p h (here e) = ground arith
  all-In p h (there m) = all-In p (ground arith) m

  pub In-all : (p : A → Bool) (xs : List A) → ((a : A) → In a xs → p a ≡ true) → all p xs ≡ true
  In-all p [] f = refl
  In-all p (x ∷ xs) f = ground (arith, f x (here refl), In-all p xs (λ a m. f a (there m)))

  pub any-In : (p : A → Bool) (xs : List A) → any p xs ≡ true → (a : A) × In a xs × (p a ≡ true)
  any-In p [] h = cc
  any-In p (x ∷ xs) h = elim (Bool-cases (p x)) [
    | inl e ↦ (x, here refl, e)
    | inr e ↦ let (a, m, q) = any-In p xs (ground arith) in (a, there m, q)
  ]

  pub In-any : (p : A → Bool) {a : A} {xs : List A} → In a xs → p a ≡ true → any p xs ≡ true
  In-any p (here e) h = ground arith
  In-any p (there m) h = ground (arith, In-any p m h)

  pub find-eq-some :
      (p : A → Bool) (xs : List A) {a : A} → find p xs ≡ some a → In a xs × (p a ≡ true)
  find-eq-some p [] h = cc
  find-eq-some p (x ∷ xs) h = elim (Bool-cases (p x)) [
    | inl e ↦ (here (ground arith), ground arith)
    | inr e ↦ let (m, q) = find-eq-some p xs (ground arith) in (there m, q)
  ]

  pub any-count : (p : A → Bool) (xs : List A) → any p xs ≡ true → 1 ≤ count p xs
  any-count p [] h = cc
  any-count p (x ∷ xs) h = elim (Bool-cases (p x)) [
    | inl e ↦ rw e (omega arith)
    | inr e ↦ rw e (omega (arith, any-count p xs (ground arith)))
  ]

  pub count-eq-zero : (p : A → Bool) (xs : List A) → any p xs ≡ false → count p xs ≡ 0
  count-eq-zero p [] h = refl
  count-eq-zero p (x ∷ xs) h =
      let q : p x ≡ false = ground arith in rw q (omega (arith, count-eq-zero p xs (ground arith)))

  pub keep-In : (p : A → Bool) (xs : List A) {a : A} → In a (keep p xs) → In a xs × (p a ≡ true)
  keep-In p [] m = elim m [ ]
  keep-In p (x ∷ xs) {a} m = with_test (p x) refl (λ n. keep-In p xs n) m
    where
      with_test :
          (b : Bool)
          → p x ≡ b
          → (In a (keep p xs) → In a xs × (p a ≡ true))
          → In a (if b then x ∷ keep p xs else keep p xs)
          → In a (x ∷ xs) × (p a ≡ true)
      with_test true e rest (here q) = (here q, ground arith)
      with_test true e rest (there n) = (there (rest n).0, (rest n).1)
      with_test false e rest n = (there (rest n).0, (rest n).1)

  pub In-keep : (p : A → Bool) {a : A} {xs : List A} → In a xs → p a ≡ true → In a (keep p xs)
  In-keep p {a} (here {x} {xs} e) h =
      let q : p x ≡ true = ground arith in
      subst (λ b. In a (if b then x ∷ keep p xs else keep p xs)) (sym q) (here e)
  In-keep p {a} (there {x} {xs} m) h = with_test (p x) (In-keep p m h)
    where
      with_test : (b : Bool) → In a (keep p xs) → In a (if b then x ∷ keep p xs else keep p xs)
      with_test true n = there n
      with_test false n = n

  pub count-snoc :
      (p : A → Bool) (xs : List A) (x : A)
      → count p (xs ++ x ∷ []) ≡ count p xs + (if p x then 1 else 0)
  count-snoc p [] x = omega arith
  count-snoc p (y ∷ ys) x = omega (arith, count-snoc p ys x)

module _ {ℓ κ} {A : Type ℓ} {B : Type κ} where
  pub In-map : (f : A → B) {a : A} {xs : List A} → In a xs → In (f a) (map f xs)
  In-map f (here e) = here (ap f e)
  In-map f (there m) = there (In-map f m)

  pub map-In : (f : A → B) (xs : List A) {b : B} → In b (map f xs) → (a : A) × In a xs × (b ≡ f a)
  map-In f [] m = elim m [ ]
  map-In f (x ∷ xs) (here e) = (x, here refl, e)
  map-In f (x ∷ xs) (there m) = let (a, n, e) = map-In f xs m in (a, there n, e)
