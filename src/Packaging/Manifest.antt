-- ===== src/Packaging/Manifest.antt =====
-- src/postgresbuild/postgresql/helpers/package-tests.py: what the shell reads in a line of the
-- manifest are the arguments.
use mathlib.Core.List.{append_assoc, append-nil}
use postgresbuild.Prelude.{
  ℕ, ◌==◌, ◌≡◌, refl, sym, ap, ◌∙◌, subst, Bool, true, false, not, any, all, if_elim, some, List,
  [], ◌∷◌, ◌++◌, ok, ok-eq, in-result, in-check, traverse, arith,
}
use postgresbuild.Prelude.Text.{Text, codes, is_empty, joined}
use postgresbuild.Packaging.{
  quote_mark, double_mark, is_safe, replace_char, shlex_quote, is_unsafe, is_dollar, word_of,
  manifest_word, run_line,
}
use postgresbuild.Packaging.Words.{
  gap, bare, single, double, next, out, prepend, begin, read, words_of,
}
use postgresbuild.Packaging.Quotes.{
  prepend-nil, read-safe, single_marks, read-single, is_plain, double_marks, read-double,
}

-- A word that the shell reads as a value.
record IsWord (word value : Text) : Type 0 where
  starts : (rest : Text) → read gap (word ++ rest) ≡ begin (read bare (word ++ rest))
  reads : (rest : Text) → read bare (word ++ rest) ≡ prepend value (read bare rest)

read-step_gap :
    (c : ℕ) (s : Text) → (c == b' ') ≡ false → read gap (c ∷ s) ≡ begin (read bare (c ∷ s))
unfolding read next out
read-step_gap c s h = rw h refl

safe-IsWord : (c : ℕ) (s : Text) → all is_safe (c ∷ s) ≡ true → IsWord (c ∷ s) (c ∷ s)
unfolding is_safe
safe-IsWord c s h = record {
  starts = λ rest. read-step_gap c (s ++ rest) (ground arith);
  reads = λ rest. read-safe (c ∷ s) rest h;
}

read-closing : (rest : Text) → read single (quote_mark ∷ rest) ≡ read bare rest
unfolding read next out
read-closing rest = prepend-nil _

read-opening : (rest : Text) → read bare (quote_mark ∷ rest) ≡ read single rest
unfolding read next out is_safe
read-opening rest = prepend-nil _

read-opening_double : (rest : Text) → read bare (double_mark ∷ rest) ≡ read double rest
unfolding read next out is_safe
read-opening_double rest = prepend-nil _

single-IsWord :
    (t : Text) → IsWord (quote_mark ∷ replace_char quote_mark single_marks t ++ quote_mark ∷ []) t
single-IsWord t = record {
  starts = λ rest. read-step_gap quote_mark _ refl;
  reads = λ rest.
      ap (λ w. read bare (quote_mark ∷ w))
        (append_assoc (replace_char quote_mark single_marks t) (quote_mark ∷ []) rest)
      ∙ read-opening _
      ∙ read-single t (quote_mark ∷ rest)
      ∙ ap (prepend t) (read-closing rest);
}

double-IsWord :
    (t : Text)
    → any is_unsafe t ≡ false
    → is_plain false t ≡ true
    → IsWord (double_mark ∷ replace_char double_mark double_marks t ++ double_mark ∷ []) t
double-IsWord t h p = record {
  starts = λ rest. read-step_gap double_mark _ refl;
  reads = λ rest.
      ap (λ w. read bare (double_mark ∷ w))
        (append_assoc (replace_char double_mark double_marks t) (double_mark ∷ []) rest)
      ∙ read-opening_double _
      ∙ read-double false t rest h p;
}

shlex_quote-IsWord : (s : Text) → IsWord (shlex_quote s) s
unfolding shlex_quote replace_char
shlex_quote-IsWord [] = single-IsWord []
shlex_quote-IsWord (c ∷ s) =
    if_elim (λ w. IsWord w (c ∷ s)) (all is_safe (c ∷ s)) (λ h. safe-IsWord c s h)
      (λ _. single-IsWord (c ∷ s))

word_of-IsWord :
    (v : Text) → any is_unsafe v ≡ false → is_plain false v ≡ true → IsWord (word_of v) v
word_of-IsWord v h p =
    if_elim (λ w. IsWord w v) (any is_dollar v) (λ _. double-IsWord v h p)
      (λ _. shlex_quote-IsWord v)

of_not : {b : Bool} → not b ≡ true → b ≡ false
of_not {b} h = ground arith

manifest_word-IsWord :
    (v : Text) {w : Text} → manifest_word v ≡ ok w → is_plain false v ≡ true → IsWord w v
unfolding manifest_word
manifest_word-IsWord v h p =
    in-check _ _ _ h (λ u h. subst (λ x. IsWord x v) (ok-eq h) (word_of-IsWord v (of_not u) p))

read-blank : (s : Text) → read bare (b' ' ∷ s) ≡ read gap s
unfolding read next out is_safe
read-blank s = prepend-nil _

read-last : {w v : Text} → IsWord w v → read gap w ≡ some ([], v ∷ [])
unfolding read
read-last {w} {v} i =
    ap (read gap) (sym (append-nil w))
    ∙ i.starts []
    ∙ ap begin (i.reads [])
    ∙ rw (append-nil v) refl

read-first :
    {w v : Text} (s : Text) {vs : List Text}
    → IsWord w v
    → read gap s ≡ some ([], vs)
    → read gap (w ++ b' ' ∷ s) ≡ some ([], v ∷ vs)
read-first {w} {v} s i h =
    i.starts (b' ' ∷ s)
    ∙ ap begin (i.reads (b' ' ∷ s) ∙ ap (prepend v) (read-blank s ∙ h))
    ∙ rw (append-nil v) refl

-- Words that the shell reads as values, one by one.
data AreWords : List Text → List Text → Type 0 where
  none_left : AreWords [] []
  word : {w v : Text} {ws vs : List Text} → IsWord w v → AreWords ws vs → AreWords (w ∷ ws) (v ∷ vs)

traverse-AreWords :
    (vs : List Text) {ws : List Text}
    → traverse manifest_word vs ≡ ok ws
    → all (is_plain false) vs ≡ true
    → AreWords ws vs
unfolding traverse
traverse-AreWords [] h p = subst (λ x. AreWords x []) (ok-eq h) none_left
traverse-AreWords (v ∷ vs) h p = in-result _ _ h (λ w e h. in-result _ _ h (λ ws f h.
    subst (λ x. AreWords x (v ∷ vs)) (ok-eq h)
      (word (manifest_word-IsWord v e (ground arith)) (traverse-AreWords vs f (ground arith)))))

read-joined : {ws vs : List Text} → AreWords ws vs → read gap (joined ws) ≡ some ([], vs)
unfolding joined read
read-joined none_left = refl
read-joined (word i none_left) = read-last i
read-joined (word {w = u} i (word {w = w} {ws = ws} j rest)) =
    ap (read gap) (append_assoc u (codes " ") (joined (w ∷ ws)))
    ∙ read-first (joined (w ∷ ws)) i (read-joined (word j rest))

words_of-eq : (s : Text) {vs : List Text} → read gap s ≡ some ([], vs) → words_of s ≡ some vs
words_of-eq s h = cc

-- A line of the manifest is what the shell reads as the word `run`, the driver and the arguments, in
-- their order: the quoting of `manifest_word` protects blanks, quotes and all other characters, and
-- leaves each `$` to be expanded. No argument may hold `$(` or `${`, and the driver is a plain name.
pub run_line-words :
    (driver : Text) (arguments : List Text) {line : Text}
    → is_empty driver ≡ false
    → all is_safe driver ≡ true
    → all (is_plain false) arguments ≡ true
    → run_line driver arguments ≡ ok line
    → words_of line ≡ some (codes "run" ∷ driver ∷ arguments)
unfolding run_line
run_line-words [] arguments e d p h = cc
run_line-words (c ∷ driver) arguments e d p h = in-result _ _ h (λ words t h.
    subst (λ line. words_of line ≡ some (codes "run" ∷ (c ∷ driver) ∷ arguments)) (ok-eq h)
      (words_of-eq _ (
        ap (read gap) (append_assoc (codes "run " ++ c ∷ driver) (codes " ") (joined words))
        ∙ read-first _ (safe-IsWord b'r' (codes "un") refl) (
            read-first _ (safe-IsWord c driver d)
              (read-joined (traverse-AreWords arguments t p))))))
