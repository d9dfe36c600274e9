-- ===== src/Prelude/Order.antt =====
-- Total orders as Boolean tests: on numbers, and Python's lexicographic order of sequences.
use mathlib.Core.List.{List, [], ◌∷◌}
use mathlib.Core.Path.{◌≡◌, refl, ap₂}
use mathlib.Core.Bool.{Bool, true, false}
use Prim.Native.Nat.{ℕ}
use native.Mathlib.Omega.{arith}
use postgresbuild.Prelude.Tests.{leb, if◌then◌else◌}

pub record Order {ℓ} (A : Type ℓ) : Type ℓ where
  pub le : A → A → Bool
  pub total : (a b : A) → le a b ≡ false → le b a ≡ true
  pub trans : (a b c : A) → le a b ≡ true → le b c ≡ true → le a c ≡ true
  pub antisym : (a b : A) → le a b ≡ true → le b a ≡ true → a ≡ b

pub leb_total : (a b : ℕ) → leb a b ≡ false → leb b a ≡ true
leb_total a b h = ground arith

pub leb_trans : (a b c : ℕ) → leb a b ≡ true → leb b c ≡ true → leb a c ≡ true
leb_trans a b c h k = ground arith

pub leb_antisym : (a b : ℕ) → leb a b ≡ true → leb b a ≡ true → a ≡ b
leb_antisym a b h k = ground arith

instance abbrev pub nat_order : Order ℕ
nat_order = record { le = leb; total = leb_total; trans = leb_trans; antisym = leb_antisym }

module _ {ℓ} {A : Type ℓ} (o : Order A) where
  open o use {le}

  -- The order of Python's `str`, `list` and `tuple` values: the first entry that differs decides,
  -- and a proper prefix comes first.
  unfoldable pub lex : List A → List A → Bool
  lex [] ys = true
  lex (x ∷ xs) [] = false
  lex (x ∷ xs) (y ∷ ys) =
      let rest = lex xs ys in if le x y then (if le y x then rest else true) else false

  pub lex_total : (xs ys : List A) → lex xs ys ≡ false → lex ys xs ≡ true
  unfolding lex
  lex_total [] ys h = cc
  lex_total (x ∷ xs) [] h = refl
  lex_total (x ∷ xs) (y ∷ ys) h = ground (arith, o.total x y, lex_total xs ys)

  pub lex_trans : (xs ys zs : List A) → lex xs ys ≡ true → lex ys zs ≡ true → lex xs zs ≡ true
  unfolding lex
  lex_trans [] ys zs h k = refl
  lex_trans (x ∷ xs) [] zs h k = cc
  lex_trans (x ∷ xs) (y ∷ ys) [] h k = cc
  lex_trans (x ∷ xs) (y ∷ ys) (z ∷ zs) h k =
      ground (arith, o.trans x y z, o.trans z x y, o.trans y z x, lex_trans xs ys zs)

  pub lex_antisym : (xs ys : List A) → lex xs ys ≡ true → lex ys xs ≡ true → xs ≡ ys
  unfolding lex
  lex_antisym [] [] h k = refl
  lex_antisym [] (y ∷ ys) h k = cc
  lex_antisym (x ∷ xs) [] h k = cc
  lex_antisym (x ∷ xs) (y ∷ ys) h k =
      ap₂ ◌∷◌ (o.antisym x y (ground arith) (ground arith))
        (lex_antisym xs ys (ground arith) (ground arith))

  unfoldable pub lex_order : Order (List A)
  lex_order = record { le = lex; total = lex_total; trans = lex_trans; antisym = lex_antisym }
