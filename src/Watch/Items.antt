-- ===== src/Watch/Items.antt =====
-- scripts/babysit-pr.py: what one report prints of the review feedback.
use postgresbuild.Prelude.{
  ◌≡◌, refl, subst, true, false, if_elim, List, [], ◌∷◌, ◌++◌, in-result, ok-eq, ok, arith, ◌&&◌,
  Bool, Bool-cases, inl, inr, any, keep, not, ◌||◌, if◌then◌else◌, ap, ◌∙◌, sym,
}
use postgresbuild.Prelude.Text.{text_eq, text_eq_refl, text_eq-eq}
use postgresbuild.Watch.Feedback.{Item}
use postgresbuild.Watch.Loop.{Snapshot, report, report_items, Key, key_eq, is_seen}

abbrev pub key_of : Item → Key
key_of i = (i.kind, i.id)

-- The keys of what was printed, the latest first, before those of earlier.
abbrev pub keys_onto : List Item → List Key → List Key
keys_onto [] seen = seen
keys_onto (i ∷ more) seen = keys_onto more (key_of i ∷ seen)

abbrev pub Distinct : List Key → Type 0
Distinct [] = Unit {0}
Distinct (k ∷ ks) = (is_seen k ks ≡ false) × Distinct ks

pub keys_onto-append :
    (xs ys : List Item) (seen : List Key)
    → keys_onto (xs ++ ys) seen ≡ keys_onto ys (keys_onto xs seen)
keys_onto-append [] ys seen = refl
keys_onto-append (x ∷ xs) ys seen = keys_onto-append xs ys (key_of x ∷ seen)

-- What `report_items` leaves.
pub record Reports (seen : List Key) (out : List Key × List Item) : Type 0 where
  pub keys : out.0 ≡ keys_onto out.1 seen
  pub once : Distinct seen → Distinct out.0

key_eq_refl : (k : Key) → key_eq k k ≡ true
unfolding key_eq
key_eq_refl (a, b) = ground (arith, text_eq_refl a, text_eq_refl b)

Reports-new :
    {i : Item} {seen : List Key} {out : List Key × List Item}
    → is_seen (key_of i) seen ≡ false
    → Reports (key_of i ∷ seen) out
    → Reports seen (out.0, i ∷ out.1)
Reports-new h r = record { keys = r.keys; once = λ d. r.once (h, d) }

report_items-Reports :
    (items : List Item) (seen : List Key) → Reports seen (report_items items seen)
unfolding report_items
report_items-Reports [] seen = record { keys = refl; once = λ d. d }
report_items-Reports (i ∷ more) seen =
    if_elim (Reports seen) (is_seen (key_of i) seen) (λ _. report_items-Reports more seen)
      (λ h. Reports-new h (report_items-Reports more (key_of i ∷ seen)))

-- An item has the key: both its kind and its identifier.
abbrev pub has_key : Item → Key → Bool
has_key i (kind, id) = text_eq i.kind kind && text_eq i.id id

-- The items whose key is not that of an item before them, where `before` come first.
abbrev pub firsts : List Item → List Item → List Item
firsts before [] = []
firsts before (i ∷ more) =
    (if any (λ j. has_key i (j.kind, j.id)) before then [] else i ∷ [])
    ++ firsts (before ++ i ∷ []) more

-- The items whose key was neither seen nor is that of an item before them.
abbrev pub unseen : List Key → List Item → List Item → List Item
unseen seen before items = keep (λ i. not (any (has_key i) seen)) (firsts before items)

-- What has been seen: `seen` and the keys of `before`.
abbrev AreSeen : List Key → List Item → List Key → Type 0
AreSeen seen before now =
    (k : Key) → is_seen k now ≡ (is_seen k seen || any (λ j. key_eq k (key_of j)) before)

key_eq-eq : (j k : Key) → key_eq j k ≡ true → j ≡ k
unfolding key_eq
key_eq-eq (a, b) (c, d) h =
    ap (λ x. (x, b)) (text_eq-eq a c (ground arith))
    ∙ ap (λ x. (c, x)) (text_eq-eq b d (ground arith))

any-append :
    (p : Item → Bool) (xs : List Item) (i : Item) → any p (xs ++ i ∷ []) ≡ (any p xs || p i)
any-append p [] i = ground arith
any-append p (x ∷ xs) i = ground (arith, any-append p xs i)

AreSeen-new :
    (seen : List Key) (before : List Item) (now : List Key) (i : Item)
    → AreSeen seen before now
    → AreSeen seen (before ++ i ∷ []) (key_of i ∷ now)
unfolding is_seen
AreSeen-new seen before now i h k =
    ground (arith, h k, any-append (λ j. key_eq k (key_of j)) before i)

AreSeen-old :
    (seen : List Key) (before : List Item) (now : List Key) (i : Item)
    → AreSeen seen before now
    → is_seen (key_of i) now ≡ true
    → AreSeen seen (before ++ i ∷ []) now
AreSeen-old seen before now i h old k = elim (Bool-cases (key_eq k (key_of i))) [
  | inl e ↦ ground (
    arith,
    rw (sym (key_eq-eq k (key_of i) e)) at old,
    h k,
    any-append (λ j. key_eq k (key_of j)) before i,
    e,
  )
  | inr e ↦ ground (arith, h k, any-append (λ j. key_eq k (key_of j)) before i, e)
]

-- One item more, of which it is known whether its key was seen before.
unseen_items :
    (i : Item) (more : List Item) (seen : List Key) (before : List Item) (now : List Key)
    → AreSeen seen before now
    → (AreSeen seen (before ++ i ∷ []) now
        → (report_items more now).1 ≡ unseen seen (before ++ i ∷ []) more)
    → (AreSeen seen (before ++ i ∷ []) (key_of i ∷ now)
        → (report_items more (key_of i ∷ now)).1 ≡ unseen seen (before ++ i ∷ []) more)
    → (report_items (i ∷ more) now).1 ≡ unseen seen before (i ∷ more)
unfolding report_items key_eq is_seen
unseen_items i more seen before now h old new =
    elim (Bool-cases (any (λ j. has_key i (key_of j)) before)) [
      | inl b ↦
          let s : any (has_key i) now ≡ true = ground (arith, h (key_of i), b) in
          rw (b, s) (old (AreSeen-old seen before now i h s))
      | inr b ↦ elim (Bool-cases (any (has_key i) seen)) [
        | inl a ↦
            let s : any (has_key i) now ≡ true = ground (arith, h (key_of i), a) in
            rw (b, s) (rw a (old (AreSeen-old seen before now i h s)))
        | inr a ↦
            let s : any (has_key i) now ≡ false = ground (arith, h (key_of i), a, b) in
            rw (b, s) (rw a (ap (◌∷◌ i) (new (AreSeen-new seen before now i h))))
      ]
    ]

report_items-unseen :
    (items : List Item) (seen : List Key) (before : List Item) (now : List Key)
    → AreSeen seen before now
    → (report_items items now).1 ≡ unseen seen before items
unfolding report_items
report_items-unseen [] seen before now h = refl
report_items-unseen (i ∷ more) seen before now h =
    unseen_items i more seen before now h (report_items-unseen more seen (before ++ i ∷ []) now)
      (report_items-unseen more seen (before ++ i ∷ []) (key_of i ∷ now))

pub report-Reports :
    (snapshot : Snapshot) (seen : List Key) {out : List Key × List Item}
    → report snapshot seen ≡ ok out
    → Reports seen out
unfolding report
report-Reports snapshot seen h = in-result _ _ h (λ number a h.
    in-result _ _ h
      (λ sha b h. subst (Reports seen) (ok-eq h) (report_items-Reports snapshot.feedback seen)))

-- What a report prints.
pub report-unseen :
    (snapshot : Snapshot) (seen : List Key) {out : List Key × List Item}
    → report snapshot seen ≡ ok out
    → out.1 ≡ unseen seen [] snapshot.feedback
unfolding report
report-unseen snapshot seen h = in-result _ _ h (λ number a h. in-result _ _ h (λ sha b h.
    ap (λ o. o.1) (sym (ok-eq h))
    ∙ report_items-unseen snapshot.feedback seen [] seen (λ k. ground arith)))
