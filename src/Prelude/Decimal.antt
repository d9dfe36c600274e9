-- ===== src/Prelude/Decimal.antt =====
-- Decimal numbers: `str(n)`, and the regular expression `0|[1-9][0-9]*` with its value by `int`.
use mathlib.Core.List.{[], ◌∷◌, ◌++◌, append_assoc, append-nil}
use mathlib.Core.Path.{◌≡◌, refl, sym, ap, ◌∙◌}
use mathlib.Core.Bool.{Bool, false, ◌&&◌}
use mathlib.Core.Logic.{inl, inr}
use mathlib.Core.Option.{Option, none, some}
use Prim.Native.Nat.{ℕ, zero, suc, ◌+◌, ◌-◌, ◌*◌, ◌/◌, ◌%◌, ◌<◌, ◌≤◌}
use native.Mathlib.Omega.{arith}
use postgresbuild.Prelude.Tests.{leb, ltb, ◌==◌, if◌then◌else◌, Bool-cases}
use postgresbuild.Prelude.Text.{Text}

-- `[0-9]`
abbrev pub is_digit : ℕ → Bool
is_digit c = leb 48 c && leb c 57

-- `[0-9]*` behind a number that has been read, with what follows.
digits_from : ℕ → Text → ℕ × Text
digits_from n [] = (n, [])
digits_from n (c ∷ s) =
    let rest = digits_from (n * 10 + (c - 48)) s in if is_digit c then rest else (n, c ∷ s)

-- The longest match at the front of a text, as a number, with what follows.
unfoldable pub number : Text → Option (ℕ × Text)
unfolding digits_from
number [] = none
number (c ∷ s) =
    if c == 48 then some (0, s) else if is_digit c then some (digits_from (c - 48) s) else none

show_onto : ℕ → ℕ → Text → Text
show_onto zero n acc = acc
show_onto (suc f) n acc =
    let rest = show_onto f (n / 10) ((48 + n % 10) ∷ acc) in
    if ltb n 10 then (48 + n) ∷ acc else rest

-- `str(n)`
unfoldable pub show : ℕ → Text
unfolding show_onto
show n = show_onto (suc n) n []

-- No digit follows.
abbrev pub NoDigit : Text → Type 0
NoDigit [] = Unit {0}
NoDigit (c ∷ s) = is_digit c ≡ false

digits_from_stop : (n : ℕ) (s : Text) → NoDigit s → digits_from n s ≡ (n, s)
unfolding digits_from
digits_from_stop n [] h = refl
digits_from_stop n (c ∷ s) h = rw h

show_onto-small : (f n : ℕ) (acc : Text) → n < 10 → show_onto (suc f) n acc ≡ (48 + n) ∷ acc
unfolding show_onto
show_onto-small f n acc h = ground arith

show_onto-big :
    (f n : ℕ) (acc : Text)
    → 10 ≤ n
    → show_onto (suc f) n acc ≡ show_onto f (n / 10) ((48 + n % 10) ∷ acc)
unfolding show_onto
show_onto-big f n acc h = ground arith

digits_from-digit :
    (n d : ℕ) (s : Text) → d < 10 → digits_from n ((48 + d) ∷ s) ≡ digits_from (n * 10 + d) s
unfolding digits_from
digits_from-digit n d s h = let e : 48 + d - 48 ≡ d = omega arith in rw e (ground arith)

number-digit : (d : ℕ) (s : Text) → 0 < d → d < 10 → number ((48 + d) ∷ s) ≡ some (digits_from d s)
unfolding number
number-digit d s k h = let e : 48 + d - 48 ≡ d = omega arith in rw e (ground arith)

split_ten : (n : ℕ) → n / 10 * 10 + n % 10 ≡ n
split_ten n = omega arith

number-show_onto :
    (f n : ℕ) (acc : Text) → n < f → 0 < n → number (show_onto f n acc) ≡ some (digits_from n acc)
number-show_onto zero n acc h k = elim h [ ]
number-show_onto (suc f) n acc h k = elim (Bool-cases (ltb n 10)) [
  | inl e ↦ rw (show_onto-small f n acc (ground arith)) (number-digit n acc k (ground arith))
  | inr e ↦ rw (
    show_onto-big f n acc (ground arith),
    number-show_onto f (n / 10) ((48 + n % 10) ∷ acc) (ground arith) (ground arith),
    digits_from-digit (n / 10) (n % 10) acc (omega arith),
    split_ten n,
  )
]

show_onto-append : (f n : ℕ) (acc s : Text) → show_onto f n acc ++ s ≡ show_onto f n (acc ++ s)
unfolding show_onto
show_onto-append zero n acc s = refl
show_onto-append (suc f) n acc s = elim (Bool-cases (ltb n 10)) [
  | inl e ↦ rw e
  | inr e ↦ rw e (show_onto-append f (n / 10) ((48 + n % 10) ∷ acc) s)
]

-- Any fuel above the number gives the same digits.
show_onto-fuel : (f g n : ℕ) (acc : Text) → n < f → n < g → show_onto f n acc ≡ show_onto g n acc
show_onto-fuel zero g n acc h k = elim h [ ]
show_onto-fuel (suc f) zero n acc h k = elim k [ ]
show_onto-fuel (suc f) (suc g) n acc h k = elim (Bool-cases (ltb n 10)) [
  | inl e ↦ show_onto-small f n acc (ground arith) ∙ sym (show_onto-small g n acc (ground arith))
  | inr e ↦
      show_onto-big f n acc (ground arith)
      ∙ show_onto-fuel f g (n / 10) ((48 + n % 10) ∷ acc) (ground arith) (ground arith)
      ∙ sym (show_onto-big g n acc (ground arith))
]

-- What `str` prints is read back, if no digit follows.
pub number-show : (n : ℕ) (s : Text) → NoDigit s → number (show n ++ s) ≡ some (n, s)
unfolding show
number-show zero s h = unfold number show_onto in refl
number-show (suc n) s h = rw (
  show_onto-append (suc (suc n)) (suc n) [] s,
  number-show_onto (suc (suc n)) (suc n) s (omega arith) (omega arith),
  digits_from_stop (suc n) s h,
)

show-small : (d : ℕ) → d < 10 → show d ≡ (48 + d) ∷ []
unfolding show
show-small d h = show_onto-small d d [] h

show-snoc : (n d : ℕ) → 0 < n → d < 10 → show (n * 10 + d) ≡ show n ++ (48 + d) ∷ []
unfolding show
show-snoc n d k h =
    let q : (n * 10 + d) / 10 ≡ n = omega arith in
    let r : (n * 10 + d) % 10 ≡ d = omega arith in
    show_onto-big (n * 10 + d) (n * 10 + d) [] (omega arith)
    ∙ rw (q, r)
        (show_onto-fuel (n * 10 + d) (suc n) n ((48 + d) ∷ []) (omega arith) (omega arith)
          ∙ sym (show_onto-append (suc n) n [] ((48 + d) ∷ [])))

digits_from-eq :
    (n : ℕ) (s : Text) → 0 < n → show (digits_from n s).0 ++ (digits_from n s).1 ≡ show n ++ s
unfolding digits_from
digits_from-eq n [] k = refl
digits_from-eq n (c ∷ s) k = elim (Bool-cases (is_digit c)) [
  | inl e ↦
      let d : 48 + (c - 48) ≡ c = ground arith in
      rw (
        e,
        digits_from-eq (n * 10 + (c - 48)) s (omega arith),
        show-snoc n (c - 48) k (ground arith),
        d,
        append_assoc,
      )
  | inr e ↦ rw e
]

-- A number that has been read is the text that `str` prints, and nothing is lost behind it.
pub number-eq : (s : Text) {n : ℕ} {r : Text} → number s ≡ some (n, r) → s ≡ show n ++ r
unfolding number
number-eq [] h = cc
number-eq (c ∷ s) {n} {r} h = elim (Bool-cases (c == 48)) [
  | inl e ↦
      let ec : c ≡ 48 = ground arith in
      let en : 0 ≡ n = ground arith in
      let er : s ≡ r = ground arith in rw (ec, ← en, er, show-small 0 (omega arith))
  | inr e ↦ elim (Bool-cases (is_digit c)) [
    | inl d ↦
        let q : digits_from (c - 48) s ≡ (n, r) = ground arith in
        let w : 48 + (c - 48) ≡ c = ground arith in
        sym (
          rw q at (digits_from-eq (c - 48) s (ground arith))
          ∙ rw (show-small (c - 48) (ground arith), w))
    | inr d ↦ absurd (ground arith)
  ]
]

pub number-show_end : (n : ℕ) → number (show n) ≡ some (n, [])
number-show_end n = ap number (sym (append-nil (show n))) ∙ number-show n [] tt

-- Different numbers are printed differently.
pub show_inj : (m n : ℕ) → show m ≡ show n → m ≡ n
show_inj m n e =
    let h : ◌≡◌ {A = Option (ℕ × Text)} (some (m, [])) (some (n, [])) =
      sym (number-show_end m) ∙ ap number e ∙ number-show_end n in
    cc

-- A printed number ends where the digits end.
pub show_cancel :
    (m n : ℕ) (s t : Text) → NoDigit s → NoDigit t → show m ++ s ≡ show n ++ t → (m ≡ n) × (s ≡ t)
show_cancel m n s t hs ht e =
    let h : ◌≡◌ {A = Option (ℕ × Text)} (some (m, s)) (some (n, t)) =
      sym (number-show m s hs) ∙ ap number e ∙ number-show n t ht in
    (cc, cc)
