-- ===== src/Packaging/Quotes.antt =====
-- src/postgresbuild/postgresql/helpers/package-tests.py: how the shell reads a text that
-- is quoted in either way.
use postgresbuild.Prelude.{
  ℕ, ◌==◌, ◌≡◌, refl, sym, ap, ◌∙◌, subst, Bool, true, false, ◌||◌, ◌&&◌, not, any, all, Bool-cases,
  none, some, [], ◌∷◌, ◌++◌, arith, inl, inr,
}
use postgresbuild.Prelude.Text.{Text, codes}
use postgresbuild.Packaging.{quote_mark, double_mark, is_safe, replace_char, is_unsafe}
use postgresbuild.Packaging.Words.{
  Mode, bare, single, double, dollar, next, out, Read, prepend, read,
}

pub prepend-nil : (r : Read) → prepend [] r ≡ r
prepend-nil none = refl
prepend-nil (some (w, ws)) = refl

prepend-cons : (c : ℕ) (t : Text) (r : Read) → prepend (c ∷ []) (prepend t r) ≡ prepend (c ∷ t) r
prepend-cons c t none = refl
prepend-cons c t (some (w, ws)) = refl

next-safe : (c : ℕ) → is_safe c ≡ true → next bare c ≡ bare
unfolding next is_safe
next-safe c h = ground arith

out-safe : (c : ℕ) → is_safe c ≡ true → out bare c ≡ c ∷ []
unfolding out
out-safe c h = rw h refl

same : (c : ℕ) → (c == c) ≡ true
same c = ground arith

same-eq : (c d : ℕ) → (c == d) ≡ true → c ≡ d
same-eq c d h = ground arith

read-step_safe :
    (c : ℕ) (s : Text) → is_safe c ≡ true → read bare (c ∷ s) ≡ prepend (c ∷ []) (read bare s)
unfolding read
read-step_safe c s h = cc (next-safe c h, out-safe c h)

pub read-safe :
    (t rest : Text) → all is_safe t ≡ true → read bare (t ++ rest) ≡ prepend t (read bare rest)
read-safe [] rest h = sym (prepend-nil _)
read-safe (c ∷ t) rest h =
    read-step_safe c (t ++ rest) (ground arith)
    ∙ ap (prepend (c ∷ [])) (read-safe t rest (ground arith))
    ∙ prepend-cons c t _

abbrev pub single_marks : Text
single_marks = codes "'\"'\"'"

replace_char-other :
    (c d : ℕ) (t s : Text) → (d == c) ≡ false → replace_char c t (d ∷ s) ≡ d ∷ replace_char c t s
unfolding replace_char
replace_char-other c d t s h = rw h refl

replace_char-same : (c : ℕ) (t s : Text) → replace_char c t (c ∷ s) ≡ t ++ replace_char c t s
unfolding replace_char
replace_char-same c t s = rw (same c) refl

read-step_single :
    (c : ℕ) (s : Text)
    → (c == quote_mark) ≡ false
    → read single (c ∷ s) ≡ prepend (c ∷ []) (read single s)
unfolding read next out
read-step_single c s h = rw h refl

read-marks :
    (s : Text) → read single (single_marks ++ s) ≡ prepend (quote_mark ∷ []) (read single s)
unfolding read next out is_safe
read-marks s =
    cc (prepend-nil (read single s), prepend-nil (prepend (quote_mark ∷ []) (read single s)))

pub read-single :
    (t rest : Text)
    → read single (replace_char quote_mark single_marks t ++ rest) ≡ prepend t (read single rest)
unfolding replace_char
read-single [] rest = sym (prepend-nil _)
read-single (c ∷ t) rest = elim (Bool-cases (c == quote_mark)) [
  | inl h ↦
      subst
        (λ d.
          read single (replace_char quote_mark single_marks (d ∷ t) ++ rest)
          ≡ prepend (d ∷ t) (read single rest))
        (sym (same-eq c quote_mark h))
        (ap (λ w. read single (w ++ rest)) (replace_char-same quote_mark single_marks t)
          ∙ read-marks (replace_char quote_mark single_marks t ++ rest)
          ∙ ap (prepend (quote_mark ∷ [])) (read-single t rest)
          ∙ prepend-cons quote_mark t _)
  | inr h ↦
      ap (λ w. read single (w ++ rest)) (replace_char-other quote_mark c single_marks t h)
      ∙ read-step_single c (replace_char quote_mark single_marks t ++ rest) h
      ∙ ap (prepend (c ∷ [])) (read-single t rest)
      ∙ prepend-cons c t _
]

abbrev pub mode : Bool → Mode
mode false = double
mode true = dollar

-- No `$(` and no `${`; the Boolean says whether a `$` stands before the text.
unfoldable pub is_plain : Bool → Text → Bool
is_plain after [] = true
is_plain after (c ∷ s) = not (after && (c == b'(' || c == b'{')) && is_plain (c == b'$') s

next-double :
    (after : Bool) (c : ℕ)
    → is_unsafe c ≡ false
    → (after && (c == b'(' || c == b'{')) ≡ false
    → (c == double_mark) ≡ false
    → next (mode after) c ≡ mode (c == b'$')
unfolding next
next-double after c u p h = ground arith

out-double :
    (after : Bool) (c : ℕ)
    → is_unsafe c ≡ false
    → (c == double_mark) ≡ false
    → out (mode after) c ≡ c ∷ []
unfolding out
out-double false c u h = ground arith
out-double true c u h = ground arith

read-step_double :
    (after : Bool) (c : ℕ) (s : Text)
    → is_unsafe c ≡ false
    → (after && (c == b'(' || c == b'{')) ≡ false
    → (c == double_mark) ≡ false
    → read (mode after) (c ∷ s) ≡ prepend (c ∷ []) (read (mode (c == b'$')) s)
unfolding read
read-step_double false c s u p h = cc (next-double false c u p h, out-double false c u h)
read-step_double true c s u p h = cc (next-double true c u p h, out-double true c u h)

abbrev pub double_marks : Text
double_marks = codes "\\\""

read-escape :
    (after : Bool) (s : Text)
    → read (mode after) (double_marks ++ s) ≡ prepend (double_mark ∷ []) (read double s)
unfolding read next out
read-escape false s = prepend-nil _
read-escape true s = prepend-nil _

read-closed : (after : Bool) (s : Text) → read (mode after) (double_mark ∷ s) ≡ read bare s
unfolding read next out
read-closed false s = prepend-nil _
read-closed true s = prepend-nil _

pub read-double :
    (after : Bool) (t rest : Text)
    → any is_unsafe t ≡ false
    → is_plain after t ≡ true
    → read (mode after) (replace_char double_mark double_marks t ++ double_mark ∷ rest)
      ≡ prepend t (read bare rest)
unfolding replace_char is_plain
read-double after [] rest h p = read-closed after rest ∙ sym (prepend-nil _)
read-double after (c ∷ t) rest h p = elim (Bool-cases (c == double_mark)) [
  | inl e ↦
      subst
        (λ d.
          read (mode after) (replace_char double_mark double_marks (d ∷ t) ++ double_mark ∷ rest)
          ≡ prepend (d ∷ t) (read bare rest))
        (sym (same-eq c double_mark e))
        (ap (λ w. read (mode after) (w ++ double_mark ∷ rest))
            (replace_char-same double_mark double_marks t)
          ∙ read-escape after (replace_char double_mark double_marks t ++ double_mark ∷ rest)
          ∙ ap (prepend (double_mark ∷ [])) (read-double false t rest (ground arith) (ground arith))
          ∙ prepend-cons double_mark t _)
  | inr e ↦
      ap (λ w. read (mode after) (w ++ double_mark ∷ rest))
        (replace_char-other double_mark c double_marks t e)
      ∙ read-step_double after c (replace_char double_mark double_marks t ++ double_mark ∷ rest)
          (ground arith) (ground arith) e
      ∙ ap (prepend (c ∷ [])) (read-double (c == b'$') t rest (ground arith) (ground arith))
      ∙ prepend-cons c t _
]
