-- ===== src/Prelude/Text.antt =====
-- Texts as sequences of code points, as Python's `str` is.
use Prim.Native.Char.{code}
use Prim.Native.String.{String}
use mathlib.Core.List.{List, [], ◌∷◌, ◌++◌}
use mathlib.Core.Path.{◌≡◌, refl, ap₂}
use mathlib.Core.Logic.{◌↔◌, inl, inr}
use mathlib.Core.Bool.{Bool, true, false, ◌&&◌, ◌||◌, not}
use mathlib.Core.Option.{Option, none, some}
use Prim.Native.Nat.{ℕ, ◌+◌, ◌/◌, ◌%◌}
use native.Mathlib.Omega.{arith}
use postgresbuild.Prelude.Lists.{In, here, there}
use postgresbuild.Prelude.Tests.{Bool-cases, ◌==◌, leb, ltb, if◌then◌else◌}
use postgresbuild.Prelude.Outcome.{Exn, value_error, Result, ok, guard, ◌>>=◌, ◌>>◌}
use postgresbuild.Prelude.Order.{Order, nat_order, lex_order}

abbrev pub Text : Type 0
Text = List ℕ

-- The code points of a literal.
abbrev pub codes : String → Text
codes String.[] = []
codes (String.◌∷◌ c s) = code c ∷ codes s

unfoldable pub text_eq : Text → Text → Bool
text_eq [] [] = true
text_eq [] (d ∷ t) = false
text_eq (c ∷ s) [] = false
text_eq (c ∷ s) (d ∷ t) = c == d && text_eq s t

pub text_eq_refl : (s : Text) → text_eq s s ≡ true
unfolding text_eq
text_eq_refl [] = refl
text_eq_refl (c ∷ s) = ground (arith, text_eq_refl s)

pub text_eq-eq : (s t : Text) → text_eq s t ≡ true → s ≡ t
unfolding text_eq
text_eq-eq [] [] h = refl
text_eq-eq [] (d ∷ t) h = cc
text_eq-eq (c ∷ s) [] h = cc
text_eq-eq (c ∷ s) (d ∷ t) h = ap₂ ◌∷◌ (ground arith) (text_eq-eq s t (ground arith))

pub text_eq_iff : (s t : Text) → (text_eq s t ≡ true) ↔ (s ≡ t)
text_eq_iff s t = (text_eq-eq s t, λ e. rw e (text_eq_refl t))

-- `s == "…"`, shut so that a proof sees the test and not the letters.
unfoldable pub is : Text → String → Bool
unfolding text_eq
is s l = text_eq s (codes l)

abbrev pub is_empty : Text → Bool
is_empty [] = true
is_empty (c ∷ s) = false

-- `s.startswith(p)` and `s.removeprefix(p)` together: what follows the prefix, if it is there.
unfoldable pub after_prefix : Text → Text → Option Text
after_prefix [] s = some s
after_prefix (c ∷ p) [] = none
after_prefix (c ∷ p) (d ∷ s) = let rest = after_prefix p s in if c == d then rest else none

pub after_prefix-append : (p s : Text) → after_prefix p (p ++ s) ≡ some s
unfolding after_prefix
after_prefix-append [] s = refl
after_prefix-append (c ∷ p) s = ground (arith, after_prefix-append p s)

pub after_prefix-eq : (p s : Text) {r : Text} → after_prefix p s ≡ some r → s ≡ p ++ r
unfolding after_prefix
after_prefix-eq [] s h = cc
after_prefix-eq (c ∷ p) [] h = cc
after_prefix-eq (c ∷ p) (d ∷ s) h = ap₂ ◌∷◌ (ground arith) (after_prefix-eq p s (ground arith))

-- `s in t`
unfoldable pub contains_text : Text → Text → Bool
unfolding after_prefix
contains_text s [] = is_empty s
contains_text s (c ∷ t) = elim (after_prefix s (c ∷ t)) [
  | some rest ↦ true
  | none ↦ contains_text s t
]

-- `s in texts`
unfoldable pub text_in : Text → List Text → Bool
unfolding text_eq
text_in s [] = false
text_in s (t ∷ ts) = if text_eq s t then true else text_in s ts

-- Equality of lists of texts.
unfoldable pub texts_eq : List Text → List Text → Bool
unfolding text_eq
texts_eq [] [] = true
texts_eq [] (t ∷ ts) = false
texts_eq (s ∷ ss) [] = false
texts_eq (s ∷ ss) (t ∷ ts) = text_eq s t && texts_eq ss ts

pub texts_eq-eq : (ss ts : List Text) → texts_eq ss ts ≡ true → ss ≡ ts
unfolding texts_eq
texts_eq-eq [] [] h = refl
texts_eq-eq [] (t ∷ ts) h = cc
texts_eq-eq (s ∷ ss) [] h = cc
texts_eq-eq (s ∷ ss) (t ∷ ts) h =
    ap₂ ◌∷◌ (text_eq-eq s t (ground (arith, text_eq_refl [])))
      (texts_eq-eq ss ts (ground (arith, text_eq_refl [])))

pub texts_eq_refl : (ss : List Text) → texts_eq ss ss ≡ true
unfolding texts_eq
texts_eq_refl [] = refl
texts_eq_refl (s ∷ ss) = ground (arith, text_eq_refl s, texts_eq_refl ss)

-- Python's order of texts.
unfoldable pub text_order : Order Text
unfolding lex_order
text_order = lex_order nat_order

-- `s.endswith(t)`
unfoldable pub ends_with : Text → Text → Bool
unfolding text_eq
ends_with [] t = text_eq [] t
ends_with (c ∷ s) t = text_eq (c ∷ s) t || ends_with s t

-- `all(c in "0123456789abcdef" for c in s)`
unfoldable pub is_hex : Text → Bool
is_hex [] = true
is_hex (c ∷ s) = (leb 48 c && leb c 57 || leb 97 c && leb c 102) && is_hex s

-- The bytes of a code point in UTF-8.
unfoldable pub utf8 : ℕ → List ℕ
utf8 c =
    if ltb c 0x80
    then c ∷ []
    else if ltb c 0x800
    then (0xc0 + c / 64) ∷ (0x80 + c % 64) ∷ []
    else if ltb c 0x10000
    then (0xe0 + c / 4096) ∷ (0x80 + c / 64 % 64) ∷ (0x80 + c % 64) ∷ []
    else (0xf0 + c / 262144) ∷ (0x80 + c / 4096 % 64) ∷ (0x80 + c / 64 % 64) ∷ (0x80 + c % 64) ∷ []

-- A code point that UTF-8 cannot encode: half of a surrogate pair.
unfoldable pub is_surrogate : ℕ → Bool
is_surrogate c = leb 0xd800 c && leb c 0xdfff

-- Letters, digits and `_.-~`, which `urllib.parse.quote` leaves alone.
unfoldable pub is_unreserved : ℕ → Bool
is_unreserved c =
    leb b'a' c && leb c b'z'
    || leb b'A' c && leb c b'Z'
    || leb b'0' c && leb c b'9'
    || c == b'_'
    || c == b'.'
    || c == b'-'
    || c == b'~'

hex_digit : ℕ → ℕ
hex_digit n = if ltb n 10 then 48 + n else 55 + n

percent : List ℕ → Text
unfolding hex_digit
percent [] = []
percent (b ∷ bs) = b'%' ∷ hex_digit (b / 16) ∷ hex_digit (b % 16) ∷ percent bs

abbrev pub encode_error : Exn
encode_error = record { class = value_error; message = codes "surrogates not allowed" }

-- `urllib.parse.quote(s, safe="")`
unfoldable pub quote : Text → Result Text
unfolding utf8 is_surrogate is_unreserved percent
quote [] = ok []
quote (c ∷ s) = do
  rest ← quote s
  guard (not (is_surrogate c)) encode_error
  ok (if is_unreserved c then c ∷ rest else percent (utf8 c) ++ rest)

-- No text occurs twice.
abbrev pub distinct : List Text → Bool
distinct [] = true
distinct (t ∷ ts) = not (text_in t ts) && distinct ts

pub text_in-append :
    (s : Text) (ts us : List Text) → text_in s (ts ++ us) ≡ (text_in s ts || text_in s us)
unfolding text_in
text_in-append s [] us = refl
text_in-append s (t ∷ ts) us = ground (arith, text_in-append s ts us)

pub text_eq_comm : (s t : Text) → text_eq s t ≡ text_eq t s
unfolding text_eq
text_eq_comm [] [] = refl
text_eq_comm [] (d ∷ t) = refl
text_eq_comm (c ∷ s) [] = refl
text_eq_comm (c ∷ s) (d ∷ t) = ground (arith, text_eq_comm s t)

text_in-one : (s t : Text) → text_in s (t ∷ []) ≡ text_eq s t
unfolding text_in
text_in-one s t = ground arith

pub distinct-snoc :
    (ts : List Text) (t : Text)
    → distinct ts ≡ true
    → text_in t ts ≡ false
    → distinct (ts ++ t ∷ []) ≡ true
unfolding text_in
distinct-snoc [] t h n = refl
distinct-snoc (s ∷ ts) t h n =
    ground
      (arith, distinct-snoc ts t, text_in-append s ts (t ∷ []), text_in-one s t, text_eq_comm s t)

-- Membership is an equation with some entry.
pub text_in-In : (s : Text) (ts : List Text) → text_in s ts ≡ true → In s ts
unfolding text_in
text_in-In s [] h = cc
text_in-In s (t ∷ ts) h = elim (Bool-cases (text_eq s t)) [
  | inl e ↦ here (text_eq-eq s t e)
  | inr e ↦ there (text_in-In s ts (ground arith))
]

pub In-text_in : {s : Text} {ts : List Text} → In s ts → text_in s ts ≡ true
unfolding text_in
In-text_in {s} (here {x = t} e) = ground (arith, (text_eq_iff s t).1 e)
In-text_in (there m) = ground (arith, In-text_in m)

pub is-eq : (s : Text) (l : String) → is s l ≡ true → s ≡ codes l
unfolding is
is-eq s l h = text_eq-eq s (codes l) h

-- `" ".join(texts)`
unfoldable pub joined : List Text → Text
joined [] = []
joined (s ∷ []) = s
joined (s ∷ t ∷ ts) = s ++ codes " " ++ joined (t ∷ ts)
