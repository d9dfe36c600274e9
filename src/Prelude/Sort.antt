-- ===== src/Prelude/Sort.antt =====
-- `sorted(xs, key=...)`: a stable sort. The laws that callers use: the result is in order, has
-- the same entries, and does not depend on the order in which distinct keys are given.
use mathlib.Core.List.{List, [], ◌∷◌, Permᴰ}
use mathlib.Core.List.Permᴰ
use mathlib.Core.Path.{◌≡◌, refl, sym, ap₂, ◌∙◌}
use mathlib.Core.Bool.{Bool, true, false, ◌&&◌}
use mathlib.Core.Logic.{◌⊎◌, inl, inr}
use Prim.Native.Nat.{suc, ◌+◌}
use native.Mathlib.Omega.{arith}
use postgresbuild.Prelude.Tests.{if◌then◌else◌, Bool-cases}
use postgresbuild.Prelude.Lists.{length, all, count, In, here, there}

-- A permutation has the same entries.
pub In-perm {ℓ} : {A : Type ℓ} {a : A} {xs ys : List A} → Permᴰ xs ys → In a ys → In a xs
In-perm Permᴰ.nil m = m
In-perm (Permᴰ.cons e p) (here f) = here (f ∙ sym e)
In-perm (Permᴰ.cons e p) (there m) = there (In-perm p m)
In-perm (Permᴰ.swap e f) (here g) = there (here (g ∙ sym f))
In-perm (Permᴰ.swap e f) (there (here g)) = here (g ∙ sym e)
In-perm (Permᴰ.swap e f) (there (there m)) = there (there m)
In-perm (Permᴰ.trans p q) m = In-perm p (In-perm q m)

module _ {ℓ} {A : Type ℓ} (le : A → A → Bool) where
  -- Before the first entry that is not smaller, so that equal entries keep their order.
  unfoldable pub insert : A → List A → List A
  insert x [] = x ∷ []
  insert x (y ∷ ys) = if le x y then x ∷ y ∷ ys else y ∷ insert x ys

  unfoldable pub sort : List A → List A
  sort [] = []
  sort (x ∷ xs) = insert x (sort xs)

  abbrev pub IsSorted : List A → Type 0
  IsSorted [] = Unit {0}
  IsSorted (x ∷ xs) = (all (le x) xs ≡ true) × IsSorted xs

  pub In-insert : {a x : A} {xs : List A} → In a (insert x xs) → (a ≡ x) ⊎ In a xs
  unfolding insert
  In-insert {xs = []} (here e) = inl e
  In-insert {xs = []} (there m) = inr m
  In-insert {a} {x} {xs = y ∷ ys} m = elim (Bool-cases (le x y)) [
    | inl e ↦ head (rw e at m)
    | inr e ↦ later (λ n. In-insert {xs = ys} n) (rw e at m)
  ]
    where
      head : In a (x ∷ y ∷ ys) → (a ≡ x) ⊎ In a (y ∷ ys)
      head (here p) = inl p
      head (there n) = inr n

      later :
          (In a (insert x ys) → (a ≡ x) ⊎ In a ys)
          → In a (y ∷ insert x ys)
          → (a ≡ x) ⊎ In a (y ∷ ys)
      later f (here p) = inr (here p)
      later f (there n) = elim (f n) [ inl p ↦ inl p | inr k ↦ inr (there k) ]

  pub all-insert : (p : A → Bool) (x : A) (ys : List A) → all p (insert x ys) ≡ (p x && all p ys)
  unfolding insert
  all-insert p x [] = refl
  all-insert p x (y ∷ ys) = ground (arith, all-insert p x ys)

  pub all-sort : (p : A → Bool) (xs : List A) → all p (sort xs) ≡ all p xs
  unfolding sort
  all-sort p [] = refl
  all-sort p (x ∷ xs) = ground (arith, all-insert p x (sort xs), all-sort p xs)

  count-insert :
      (p : A → Bool) (x : A) (ys : List A)
      → count p (insert x ys) ≡ (if p x then 1 else 0) + count p ys
  unfolding insert
  count-insert p x [] = refl
  count-insert p x (y ∷ ys) = elim (Bool-cases (le x y)) [
    | inl e ↦ rw e
    | inr e ↦ rw e (omega (arith, count-insert p x ys))
  ]

  -- Sorting keeps how many entries pass any test.
  pub count-sort : (p : A → Bool) (xs : List A) → count p (sort xs) ≡ count p xs
  unfolding sort
  count-sort p [] = refl
  count-sort p (x ∷ xs) = omega (arith, count-insert p x (sort xs), count-sort p xs)

  length-insert : (x : A) (ys : List A) → length (insert x ys) ≡ suc (length ys)
  unfolding insert
  length-insert x [] = refl
  length-insert x (y ∷ ys) = elim (Bool-cases (le x y)) [
    | inl e ↦ rw e
    | inr e ↦ rw e (omega (arith, length-insert x ys))
  ]

  pub length-sort : (xs : List A) → length (sort xs) ≡ length xs
  unfolding sort
  length-sort [] = refl
  length-sort (x ∷ xs) = omega (arith, length-insert x (sort xs), length-sort xs)

  insert-IsHead : (x : A) (ys : List A) → all (le x) ys ≡ true → insert x ys ≡ x ∷ ys
  unfolding insert
  insert-IsHead x [] h = refl
  insert-IsHead x (y ∷ ys) h = ground arith

  -- A list in order is its own sorted list.
  pub sort_of_IsSorted : (xs : List A) → IsSorted xs → sort xs ≡ xs
  unfolding sort
  sort_of_IsSorted [] h = refl
  sort_of_IsSorted (x ∷ xs) h = rw (sort_of_IsSorted xs h.1) (insert-IsHead x xs h.0)

  insert-perm : (x : A) (ys : List A) → Permᴰ (insert x ys) (x ∷ ys)
  unfolding insert
  insert-perm x [] = Permᴰ.refl (x ∷ [])
  insert-perm x (y ∷ ys) = elim (Bool-cases (le x y)) [
    | inl e ↦ rw e (Permᴰ.refl (x ∷ y ∷ ys))
    | inr e ↦ rw e (Permᴰ.trans (Permᴰ.cons refl (insert-perm x ys)) (Permᴰ.swap refl refl))
  ]

  pub sort-perm : (xs : List A) → Permᴰ (sort xs) xs
  unfolding sort
  sort-perm [] = Permᴰ.nil
  sort-perm (x ∷ xs) = Permᴰ.trans (insert-perm x (sort xs)) (Permᴰ.cons refl (sort-perm xs))

  module _ (total : (a b : A) → le a b ≡ false → le b a ≡ true)
      (trans : (a b c : A) → le a b ≡ true → le b c ≡ true → le a c ≡ true) where
    all_le_trans :
        (x y : A) (zs : List A) → le x y ≡ true → all (le y) zs ≡ true → all (le x) zs ≡ true
    all_le_trans x y [] h k = refl
    all_le_trans x y (z ∷ zs) h k = ground (arith, trans x y z, all_le_trans x y zs)

    insert-IsSorted : (x : A) (ys : List A) → IsSorted ys → IsSorted (insert x ys)
    unfolding insert
    insert-IsSorted x [] s = (refl, tt)
    insert-IsSorted x (y ∷ ys) s = elim (Bool-cases (le x y)) [
      | inl e ↦ rw e ((ground (arith, all_le_trans x y ys), s))
      | inr e ↦ rw e ((ground (arith, all-insert (le y) x ys, total x y), insert-IsSorted x ys s.1))
    ]

    pub sort-IsSorted : (xs : List A) → IsSorted (sort xs)
    unfolding sort
    sort-IsSorted [] = tt
    sort-IsSorted (x ∷ xs) = insert-IsSorted x (sort xs) (sort-IsSorted xs)

    insert_same : (x y : A) (zs : List A) → x ≡ y → insert x (insert y zs) ≡ insert y (insert x zs)
    insert_same x y zs e = ap₂ (λ u v. insert u (insert v zs)) e (sym e)

    insert_comm :
        (x y : A) (zs : List A)
        → (le x y ≡ true → le y x ≡ true → x ≡ y)
        → insert x (insert y zs) ≡ insert y (insert x zs)
    unfolding insert
    insert_comm x y [] anti = elim (Bool-cases (le x y)) [
      | inl p ↦ elim (Bool-cases (le y x)) [
        | inl q ↦ let e : x ≡ y = anti p q in rw e
        | inr q ↦ rw (p, q)
      ]
      | inr p ↦ rw (p, total x y p)
    ]
    insert_comm x y (z ∷ zs) anti = elim (Bool-cases (le x y)) [
      | inl p ↦ elim (Bool-cases (le y x)) [
        | inl q ↦ insert_same x y (z ∷ zs) (anti p q)
        | inr q ↦ ground (arith, trans z x y, trans x y z, insert_comm x y zs anti)
      ]
      | inr p ↦ ground (arith, total x y p, trans z y x, trans y x z, insert_comm x y zs anti)
    ]

    -- Sorting does not see the order of the input where no two entries have the same key.
    pub sort_of_perm :
        {xs ys : List A}
        → Permᴰ xs ys
        → ((a b : A) → In a xs → In b xs → le a b ≡ true → le b a ≡ true → a ≡ b)
        → sort xs ≡ sort ys
    unfolding sort
    sort_of_perm Permᴰ.nil anti = refl
    sort_of_perm (Permᴰ.cons {a = a} e p) anti =
        ap₂ insert e (sort_of_perm p (λ a b m n. anti a b (there m) (there n)))
    sort_of_perm (Permᴰ.swap {a = a} {b = b} {l = l} e f) anti =
        insert_comm a b (sort l) (anti a b (here refl) (there (here refl)))
        ∙ ap₂ (λ u v. insert u (insert v (sort l))) f e
    sort_of_perm (Permᴰ.trans p q) anti =
        sort_of_perm p anti ∙ sort_of_perm q (λ a b m n. anti a b (In-perm p m) (In-perm p n))
