-- ===== src/Prelude/Outcome.antt =====
-- Python's exceptions as values. A message is kept where the program builds or reads it.
use mathlib.Core.Path.{◌≡◌, refl, sym, ap, subst, ◌∙◌}
use mathlib.Core.Bool.{Bool, true, false}
use mathlib.Core.List.{List, [], ◌∷◌}
use mathlib.Core.Option.{Option, none, some}
use mathlib.Core.Logic.{◌⊎◌, inl, inr}
use Prim.Native.Nat.{ℕ}
use postgresbuild.Prelude.Lists.{In, here, there}

-- The built-in exception classes that the program raises or catches. `decode_error` is
-- `json.JSONDecodeError`, a subclass of `ValueError`; `io_error` is `OSError` or `httpx2.HTTPError`
-- with their subclasses; `other` is any class that no handler of the program names, raised by
-- code that is not in the repository.
pub data ExnClass : Type 0 where
  value_error type_error key_error runtime_error assertion_error decode_error io_error other :
      ExnClass

pub record Exn : Type 0 where
  pub class : ExnClass
  pub message : List ℕ

pub data Result {ℓ} (A : Type ℓ) : Type ℓ where
  ok : A → Result A
  err : Exn → Result A

infixl 5 ◌>>=◌ ◌>>◌
unfoldable pub ◌>>=◌ {ℓ κ} : {A : Type ℓ} {B : Type κ} → Result A → (A → Result B) → Result B
err exn >>= next = err exn
ok value >>= next = next value

unfoldable pub ◌>>◌ {ℓ} : {B : Type ℓ} → Result (Unit {0}) → Result B → Result B
ok u >> k = k
err e >> k = err e

-- `if not b: raise e`
unfoldable pub guard : Bool → Exn → Result (Unit {0})
guard true e = ok tt
guard false e = err e

-- `x = o` where a missing value raises.
unfoldable pub expect {ℓ} : {A : Type ℓ} → Option A → Exn → Result A
expect none e = err e
expect (some a) e = ok a

abbrev pub is_ok {ℓ} : {A : Type ℓ} → Result A → Bool
is_ok (ok a) = true
is_ok (err e) = false

-- `[f(x) for x in xs]`
unfoldable pub traverse {ℓ κ} :
    {A : Type ℓ} {B : Type κ} → (A → Result B) → List A → Result (List B)
traverse f [] = ok []
traverse f (x ∷ xs) = do y ← f x; ys ← traverse f xs; ok (y ∷ ys)

-- What a successful run of a part says: the parts stay shut.
pub >>=-eq-ok {ℓ κ} :
    {A : Type ℓ} {B : Type κ} (part : Result A) (next : A → Result B) {out : B}
    → (part >>= next) ≡ ok out
    → (value : A) × (part ≡ ok value) × (next value ≡ ok out)
unfolding ◌>>=◌
>>=-eq-ok (err exn) next succeeds = cc
>>=-eq-ok (ok value) next succeeds = (value, refl, succeeds)

pub >>-eq-ok {ℓ} :
    {B : Type ℓ} (c : Bool) (e : Exn) (k : Result B) {b : B}
    → (guard c e >> k) ≡ ok b
    → (c ≡ true) × (k ≡ ok b)
unfolding ◌>>◌ guard
>>-eq-ok true e k h = (refl, h)
>>-eq-ok false e k h = cc

-- The same for a check that is a call of its own.
pub then-eq-ok {ℓ} :
    {B : Type ℓ} (m : Result (Unit {0})) (k : Result B) {b : B}
    → (m >> k) ≡ ok b
    → (m ≡ ok tt) × (k ≡ ok b)
unfolding ◌>>◌
then-eq-ok (ok u) k h = (refl, h)
then-eq-ok (err e) k h = cc

pub guard-eq-ok : (c : Bool) (e : Exn) {u : Unit {0}} → guard c e ≡ ok u → c ≡ true
unfolding guard
guard-eq-ok true e h = refl
guard-eq-ok false e h = cc

pub expect-eq-ok {ℓ κ} :
    {A : Type ℓ} {B : Type κ} (o : Option A) (e : Exn) (f : A → Result B) {b : B}
    → (expect o e >>= f) ≡ ok b
    → (a : A) × (o ≡ some a) × (f a ≡ ok b)
unfolding ◌>>=◌ expect
expect-eq-ok none e f h = cc
expect-eq-ok (some a) e f h = (a, refl, h)

pub ok-eq {ℓ} : {A : Type ℓ} {a b : A} → ok a ≡ ok b → a ≡ b
ok-eq h = cc

pub Result-cases {ℓ} :
    {A : Type ℓ} (r : Result A) → ((a : A) × (r ≡ ok a)) ⊎ ((e : Exn) × (r ≡ err e))
Result-cases (ok a) = inl (a, refl)
Result-cases (err e) = inr (e, refl)

-- The ways forward through a run whose parts have been seen to succeed.
pub >>=-ok {ℓ κ} :
    {A : Type ℓ} {B : Type κ} (m : Result A) (f : A → Result B) {a : A} → m ≡ ok a → (m >>= f) ≡ f a
unfolding ◌>>=◌
>>=-ok m f h = rw h

pub >>-ok {ℓ} : {B : Type ℓ} (c : Bool) (e : Exn) (k : Result B) → c ≡ true → (guard c e >> k) ≡ k
unfolding ◌>>◌ guard
>>-ok c e k h = rw h

pub then-ok {ℓ} : {B : Type ℓ} (m : Result (Unit {0})) (k : Result B) → m ≡ ok tt → (m >> k) ≡ k
unfolding ◌>>◌
then-ok m k h = rw h

pub expect-ok {ℓ κ} :
    {A : Type ℓ} {B : Type κ} (o : Option A) (e : Exn) (f : A → Result B) {a : A}
    → o ≡ some a
    → (expect o e >>= f) ≡ f a
unfolding ◌>>=◌ expect
expect-ok o e f h = rw h

-- The same with what follows as a function, for the long chains: its names stay variables.
module _ {ℓ κ} {A : Type ℓ} {P : Type κ} {b : A} where
  pub in-check :
      (c : Bool) (e : Exn) (k : Result A) → (guard c e >> k) ≡ ok b → (c ≡ true → k ≡ ok b → P) → P
  in-check c e k h f = let (p, q) = >>-eq-ok c e k h in f p q

  pub in-call :
      (m : Result (Unit {0})) (k : Result A) → (m >> k) ≡ ok b → (m ≡ ok tt → k ≡ ok b → P) → P
  in-call m k h f = let (p, q) = then-eq-ok m k h in f p q

module _ {ℓ ι κ} {A : Type ℓ} {B : Type ι} {P : Type κ} {b : B} where
  pub in-result :
      (m : Result A) (k : A → Result B)
      → (m >>= k) ≡ ok b
      → ((a : A) → m ≡ ok a → k a ≡ ok b → P)
      → P
  in-result m k h f = let (a, p, q) = >>=-eq-ok m k h in f a p q

  pub in-value :
      (o : Option A) (e : Exn) (k : A → Result B)
      → (expect o e >>= k) ≡ ok b
      → ((a : A) → o ≡ some a → k a ≡ ok b → P)
      → P
  in-value o e k h f = let (a, p, q) = expect-eq-ok o e k h in f a p q

module _ {ℓ κ} {A : Type ℓ} {B : Type κ} (f : A → Result B) where
  pub traverse-In :
      (xs : List A) {ys : List B} {y : B}
      → traverse f xs ≡ ok ys
      → In y ys
      → (x : A) × In x xs × (f x ≡ ok y)
  unfolding traverse
  traverse-In [] {y = y} h m = elim (subst (In y) (sym (ok-eq h)) m) [ ]
  traverse-In (x ∷ xs) {y = y} h m = in-result _ _ h (λ z p h. in-result _ _ h (λ zs q h.
      elim (subst (In y) (sym (ok-eq h)) m) [
        | here e ↦ (x, here refl, p ∙ ap ok (sym e))
        | there n ↦ let (w, i, e) = traverse-In xs q n in (w, there i, e)
      ]))

  pub In-traverse :
      (xs : List A) {ys : List B} {x : A}
      → traverse f xs ≡ ok ys
      → In x xs
      → (y : B) × In y ys × (f x ≡ ok y)
  unfolding traverse
  In-traverse [] h m = elim m [ ]
  In-traverse (x ∷ xs) {x = a} h m = in-result _ _ h (λ z p h. in-result _ _ h (λ zs q h.
      subst (λ ws. (y : B) × In y ws × (f a ≡ ok y)) (ok-eq h)
        (elim m [
          | here e ↦ (z, here refl, ap f e ∙ p)
          | there n ↦ let (w, i, e) = In-traverse xs q n in (w, there i, e)
        ])))
