-- ===== src/Github/Form.antt =====
-- src/postgresbuild/github.py: the tags that `match` accepts, of the form of the policy's template.
use mathlib.Core.Option.{some-injective}
use postgresbuild.Prelude.{
  ℕ, ◌≡◌, refl, sym, ap, subst, ◌∙◌, true, false, Bool-cases, inl, inr, Option, none, some, [], ◌∷◌,
  ◌++◌, length, length-append, if_elim, Exn, Result, ok, err, ok-eq, arith,
}
use postgresbuild.Prelude.Text.{
  Text, codes, text_eq, text_eq-eq, text_eq_refl, is_empty, after_prefix, after_prefix-eq,
  after_prefix-append,
}
use postgresbuild.Github.{
  ◌and_then◌, is_line, cut_template, before_suffix, is_version_of, version_between, match_parts,
  match_version,
}

-- A tag with a release of a major version in it, between the two parts of a template: the release
-- is the major, a dot and something on one line.
pub record HasForm (major before after tag release : Text) : Type 0 where
  pub minor : Text
  pub tag_of : tag ≡ before ++ (release ++ after)
  pub release_of : release ≡ (major ++ codes ".") ++ minor
  pub line : is_line minor ≡ true

in_and_then :
    {A B P : Type 0} (o : Option A) (f : A → Option B) {b : B}
    → (o and_then f) ≡ some b
    → ((a : A) → o ≡ some a → f a ≡ some b → P)
    → P
in_and_then none f h k = cc
in_and_then (some a) f h k = k a refl h

-- What is behind a letter.
in_push :
    {P : Type 0} (c : ℕ) (o : Option Text) {w : Text}
    → elim o [ none ↦ none | some v ↦ some (c ∷ v) ] ≡ some w
    → ((v : Text) → o ≡ some v → c ∷ v ≡ w → P)
    → P
in_push c none h k = cc
in_push c (some v) h k = k v refl (some-injective _ _ h)

before_suffix-eq : (t s : Text) {v : Text} → before_suffix t s ≡ some v → s ≡ v ++ t
unfolding before_suffix
before_suffix-eq t [] {v} h =
    if_elim (λ o. o ≡ some v → [] ≡ v ++ t) (text_eq [] t)
      (λ e h. subst (λ x. [] ≡ x ++ t) (some-injective _ _ h) (text_eq-eq [] t e)) (λ _ h. cc) h
before_suffix-eq t (c ∷ s) {v} h =
    if_elim (λ o. o ≡ some v → c ∷ s ≡ v ++ t) (text_eq (c ∷ s) t)
      (λ e h. subst (λ x. c ∷ s ≡ x ++ t) (some-injective _ _ h) (text_eq-eq (c ∷ s) t e))
      (λ _ h.
        in_push c (before_suffix t s) h
          (λ u e q. subst (λ x. c ∷ s ≡ x ++ t) q (ap (◌∷◌ c) (before_suffix-eq t s e))))
      h

longer : (d : ℕ) (v t : Text) → text_eq (d ∷ v ++ t) t ≡ false
longer d v t = elim (Bool-cases (text_eq (d ∷ v ++ t) t)) [
  | inl e ↦ absurd (omega (arith, ap length (text_eq-eq _ _ e), length-append v t))
  | inr e ↦ e
]

before_suffix-append : (t v : Text) → before_suffix t (v ++ t) ≡ some v
unfolding before_suffix
before_suffix-append [] [] = refl
before_suffix-append (c ∷ t) [] = ground (arith, text_eq_refl t)
before_suffix-append t (d ∷ v) = rw (longer d v t) (rw (before_suffix-append t v) refl)

abbrev mark : Text
mark = codes "{version}"

-- A text that begins with the mark, or whose rest is cut.
cut-eq :
    (c : ℕ) (s : Text) (here : Option Text) (later : Option (Text × Text)) {p q : Text}
    → after_prefix mark (c ∷ s) ≡ here
    → ((p q : Text) → later ≡ some (p, q) → s ≡ p ++ (mark ++ q))
    → ◌≡◌ {A = Option (Text × Text)}
        (elim here [
          | some rest ↦ some ([], rest)
          | none ↦ elim later [ none ↦ none | some (p, q) ↦ some (c ∷ p, q) ]
        ])
        (some (p, q))
    → c ∷ s ≡ p ++ (mark ++ q)
cut-eq c s (some rest) later e k h =
    subst (λ (x : Text × Text). c ∷ s ≡ x.0 ++ (mark ++ x.1)) (some-injective _ _ h)
      (after_prefix-eq mark (c ∷ s) e)
cut-eq c s none none e k h = cc
cut-eq c s none (some (u, w)) {p} {q} e k h =
    let r = some-injective _ _ h in
    subst (λ (x : Text × Text). c ∷ s ≡ x.0 ++ (mark ++ x.1)) r (ap (◌∷◌ c) (k u w refl))

pub cut_template-eq : (s : Text) {p q : Text} → cut_template s ≡ some (p, q) → s ≡ p ++ (mark ++ q)
unfolding cut_template
cut_template-eq [] h = cc
cut_template-eq (c ∷ s) h =
    cut-eq c s (after_prefix mark (c ∷ s)) (cut_template s) refl (λ p q e. cut_template-eq s e) h

in_line :
    {P : Type 0} (o : Option Text)
    → elim o [ none ↦ false | some rest ↦ is_line rest ] ≡ true
    → ((rest : Text) → o ≡ some rest → is_line rest ≡ true → P)
    → P
in_line none h k = cc
in_line (some rest) h k = k rest refl h

is_version-HasForm :
    (major : Text) {before after tag v : Text}
    → is_empty major ≡ false
    → is_version_of major v ≡ true
    → tag ≡ before ++ (v ++ after)
    → HasForm major before after tag v
unfolding is_version_of
is_version-HasForm [] m w e = cc
is_version-HasForm (c ∷ major) {v = v} m w e =
    in_line (after_prefix ((c ∷ major) ++ codes ".") v) w (λ rest f l. record {
      minor = rest;
      tag_of = e;
      release_of = after_prefix-eq ((c ∷ major) ++ codes ".") v f;
      line = l;
    })

is_version_of-append :
    (major minor : Text)
    → is_empty major ≡ false
    → is_line minor ≡ true
    → is_version_of major ((major ++ codes ".") ++ minor) ≡ true
unfolding is_version_of
is_version_of-append [] minor m l = cc
is_version_of-append (c ∷ major) minor m l =
    subst (λ o. elim o [ none ↦ false | some rest ↦ is_line rest ] ≡ true)
      (sym (after_prefix-append ((c ∷ major) ++ codes ".") minor)) l

in_parts :
    {P A : Type 0} {r o : Option Text} (e : Exn) (again : Option A)
    → ◌≡◌ {A = Result (Option Text)} (elim again [ none ↦ ok r | some _ ↦ err e ]) (ok o)
    → (again ≡ none → r ≡ o → P)
    → P
in_parts e none h k = k refl (ok-eq h)
in_parts e (some a) h k = cc

again-none :
    {A : Type 0} {r o : Option Text} (e : Exn) (again : Option A)
    → again ≡ none
    → r ≡ o
    → ◌≡◌ {A = Result (Option Text)} (elim again [ none ↦ ok r | some _ ↦ err e ]) (ok o)
again-none e none n q = ap ok q
again-none e (some a) n q = cc

module _ (major before after : Text) where
  between-HasForm :
      {tag s : Text}
      → is_empty major ≡ false
      → version_between major before after tag ≡ some s
      → HasForm major before after tag s
  between-HasForm {tag} {s} m h = in_and_then (after_prefix before tag) _ h (λ rest e h.
      in_and_then (before_suffix after rest) _ h (λ v f h.
        if_elim (λ o. o ≡ some s → HasForm major before after tag s) (is_version_of major v)
          (λ w h. subst (HasForm major before after tag) (some-injective _ _ h) (
            is_version-HasForm major m w (
              after_prefix-eq before tag e
              ∙ ap (λ x. before ++ x) (before_suffix-eq after rest f))))
          (λ _ h. cc) h))

  HasForm-between :
      {tag s : Text}
      → is_empty major ≡ false
      → HasForm major before after tag s
      → version_between major before after tag ≡ some s
  HasForm-between {tag} {s} m i =
      rw (ap (after_prefix before) i.tag_of ∙ after_prefix-append before (s ++ after)) (
        rw (before_suffix-append after s) (
          rw (ap (is_version_of major) i.release_of ∙ is_version_of-append major i.minor m i.line)
            refl))

-- `match` finds a release in a tag exactly where the tag has the form of the template.
pub match_version-HasForm :
    (template major before after tag : Text) {s : Text}
    → is_empty major ≡ false
    → cut_template template ≡ some (before, after)
    → match_version template major tag ≡ ok (some s)
    → HasForm major before after tag s
unfolding match_version
match_version-HasForm template major before after tag {s} m c h =
    in_parts _ (cut_template after)
      (subst (λ o. match_parts template major tag o ≡ ok (some s)) c h)
      (λ _ e. between-HasForm major before after m e)

-- The template of a tag that was matched has the mark once.
pub record IsTemplate (template before after : Text) : Type 0 where
  pub cut : cut_template template ≡ some (before, after)
  pub once : cut_template after ≡ none

match_parts-IsTemplate :
    (template major tag : Text) (parts : Option (Text × Text)) {s : Text}
    → cut_template template ≡ parts
    → match_parts template major tag parts ≡ ok (some s)
    → (before : Text) × (after : Text) × IsTemplate template before after
match_parts-IsTemplate template major tag none {s} c h =
    if_elim
      (λ (r : Result (Option Text)).
        r ≡ ok (some s) → (before : Text) × (after : Text) × IsTemplate template before after)
      (text_eq tag template) (λ _ h. cc) (λ _ h. cc) h
match_parts-IsTemplate template major tag (some (before, after)) c h =
    in_parts _ (cut_template after) h (λ n _. (before, after, record { cut = c; once = n }))

pub match_version-IsTemplate :
    (template major tag : Text) {s : Text}
    → match_version template major tag ≡ ok (some s)
    → (before : Text) × (after : Text) × IsTemplate template before after
unfolding match_version
match_version-IsTemplate template major tag h =
    match_parts-IsTemplate template major tag (cut_template template) refl h

pub HasForm-match_version :
    (template major before after tag : Text) {s : Text}
    → is_empty major ≡ false
    → cut_template template ≡ some (before, after)
    → cut_template after ≡ none
    → HasForm major before after tag s
    → match_version template major tag ≡ ok (some s)
unfolding match_version
HasForm-match_version template major before after tag {s} m c n i =
    subst (λ o. match_parts template major tag o ≡ ok (some s)) (sym c)
      (again-none _ (cut_template after) n (HasForm-between major before after m i))
