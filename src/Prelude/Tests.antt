-- ===== src/Prelude/Tests.antt =====
-- Boolean tests on the native numbers, the conditional, and case lemmas that keep the equation.
use Prim.Native.Nat.{ℕ, ◌≤◌, ◌<◌, compare, Ordering}
use mathlib.Core.Path.{◌≡◌, refl}
use mathlib.Core.Logic.{◌↔◌, ◌⊎◌, inl, inr}
use mathlib.Core.Bool.{Bool, true, false, ◌&&◌, ◌||◌, not}
use mathlib.Core.Option.{Option, none, some}
use native.Mathlib.Omega.{arith}

abbrev pub ltb : ℕ → ℕ → Bool
ltb a b = elim (compare a b) [ Ordering.lt ↦ true | _ ↦ false ]

abbrev pub leb : ℕ → ℕ → Bool
leb a b = elim (compare a b) [ Ordering.gt ↦ false | _ ↦ true ]

infix 50 ◌==◌
abbrev pub ◌==◌ : ℕ → ℕ → Bool
a == b = elim (compare a b) [ Ordering.eq ↦ true | _ ↦ false ]

infix 1 if◌then◌else◌
abbrev pub if◌then◌else◌ {ℓ} : {A : Type ℓ} → Bool → A → A → A
if true then x else y = x
if false then x else y = y

pub ==_iff : (a b : ℕ) → ((a == b) ≡ true) ↔ (a ≡ b)
==_iff a b = ground arith

pub leb→le : (a b : ℕ) → leb a b ≡ true → a ≤ b
leb→le a b h = ground arith

pub ltb→lt : (a b : ℕ) → ltb a b ≡ true → a < b
ltb→lt a b h = ground arith

pub Bool-cases : (b : Bool) → (b ≡ true) ⊎ (b ≡ false)
Bool-cases true = inl refl
Bool-cases false = inr refl

pub Option-cases {ℓ} : {A : Type ℓ} (o : Option A) → (o ≡ none) ⊎ ((a : A) × (o ≡ some a))
Option-cases none = inl refl
Option-cases (some a) = inr (a, refl)

pub &&-eq-true : (a b : Bool) → (a && b) ≡ true → (a ≡ true) × (b ≡ true)
&&-eq-true a b h = ground arith

pub &&-true : (a b : Bool) → a ≡ true → b ≡ true → (a && b) ≡ true
&&-true a b p q = ground arith

pub ||-eq-true : (a b : Bool) → (a || b) ≡ true → (a ≡ true) ⊎ (b ≡ true)
||-eq-true true b h = inl refl
||-eq-true false b h = inr h

pub ||-eq-false : (a b : Bool) → (a || b) ≡ false → (a ≡ false) × (b ≡ false)
||-eq-false a b h = ground arith

-- Two Booleans that are true together are equal.
pub Bool-ext : (a b : Bool) → (a ≡ true → b ≡ true) → (b ≡ true → a ≡ true) → a ≡ b
Bool-ext true b f g = ground (arith, f refl)
Bool-ext false true f g = g refl
Bool-ext false false f g = refl

pub not-eq-true : (b : Bool) → not b ≡ true → b ≡ false
not-eq-true b h = ground arith

-- A property of a conditional, from its two branches.
pub if_elim {ℓ κ} :
    {A : Type ℓ} (P : A → Type κ) (c : Bool) {x y : A}
    → (c ≡ true → P x)
    → (c ≡ false → P y)
    → P (if c then x else y)
if_elim P true f g = f refl
if_elim P false f g = g refl

pub if_cases {ℓ} :
    {A : Type ℓ} (c : Bool) {x y r : A}
    → (if c then x else y) ≡ r
    → ((c ≡ true) × (x ≡ r)) ⊎ ((c ≡ false) × (y ≡ r))
if_cases true h = inl (refl, h)
if_cases false h = inr (refl, h)

pub in_if {ℓ κ} :
    {A : Type ℓ} {P : Type κ} (c : Bool) {x y r : A}
    → (if c then x else y) ≡ r
    → (c ≡ true → x ≡ r → P)
    → (c ≡ false → y ≡ r → P)
    → P
in_if true h f g = f refl h
in_if false h f g = g refl h
