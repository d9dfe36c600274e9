-- ===== src/Publication/Feed/Groups.antt =====
-- `by_version`: an artifact is under the version that it was added for, and no other is there.
use postgresbuild.Prelude.{
  ◌≡◌, refl, sym, ap, ◌∙◌, Bool, true, false, Option, none, some, List, [], ◌∷◌, ◌++◌, ◌⊎◌, inl,
  inr, subst, In, here, there, In-append_cases, In-append_left, In-append_right, if◌then◌else◌,
}
use postgresbuild.Prelude.Text.{Text, text_eq, text_eq-eq}
use postgresbuild.Publication.Feed.{Entry, Group, append_entry, group_entries}

-- The artifact is listed under the version.
pub record IsHeld (v : Text) (e : Entry) (gs : List Group) : Type 0 where
  pub group : Group
  pub group_in : In group gs
  pub version : group.version ≡ v
  pub entry_in : In e group.entries

pub IsHeld-there :
    {v : Text} {e : Entry} {g : Group} {gs : List Group} → IsHeld v e gs → IsHeld v e (g ∷ gs)
IsHeld-there h = record {
  group = h.group;
  group_in = there h.group_in;
  version = h.version;
  entry_in = h.entry_in;
}

abbrev grown : Group → Entry → Group
grown g e = record { version = g.version; entries = g.entries ++ e ∷ [] }

abbrev placed : Bool → Text → Entry → Group → List Group → List Group
placed b v e g gs = if b then grown g e ∷ gs else g ∷ append_entry v e gs

append_entry_self : (v : Text) (e : Entry) (gs : List Group) → IsHeld v e (append_entry v e gs)
unfolding append_entry
append_entry_self v e [] = record {
  group = record { version = v; entries = e ∷ [] };
  group_in = here refl;
  version = refl;
  entry_in = here refl;
}
append_entry_self v e (g ∷ gs) = with_test (text_eq g.version v) refl (append_entry_self v e gs)
  where
    with_test :
        (b : Bool)
        → text_eq g.version v ≡ b
        → IsHeld v e (append_entry v e gs)
        → IsHeld v e (placed b v e g gs)
    with_test true q rest = record {
      group = grown g e;
      group_in = here refl;
      version = text_eq-eq g.version v q;
      entry_in = In-append_right g.entries (here refl);
    }
    with_test false q rest = IsHeld-there rest

append_entry_keep :
    (v : Text) (e : Entry) (gs : List Group) {w : Text} {d : Entry}
    → IsHeld w d gs
    → IsHeld w d (append_entry v e gs)
unfolding append_entry
append_entry_keep v e [] h = elim h.group_in [ ]
append_entry_keep v e (g ∷ gs) {w} {d} h =
    with_test (text_eq g.version v) (λ k. append_entry_keep v e gs k) h.group_in
  where
    with_test :
        (b : Bool)
        → (IsHeld w d gs → IsHeld w d (append_entry v e gs))
        → In h.group (g ∷ gs)
        → IsHeld w d (placed b v e g gs)
    with_test true rest (here q) = record {
      group = grown g e;
      group_in = here refl;
      version = ap (λ (x : Group). x.version) (sym q) ∙ h.version;
      entry_in = In-append_left (e ∷ []) (subst (λ (x : Group). In d x.entries) q h.entry_in);
    }
    with_test true rest (there i) = record {
      group = h.group;
      group_in = there i;
      version = h.version;
      entry_in = h.entry_in;
    }
    with_test false rest (here q) = record {
      group = h.group;
      group_in = here q;
      version = h.version;
      entry_in = h.entry_in;
    }
    with_test false rest (there i) = IsHeld-there (
        rest (record { group = h.group; group_in = i; version = h.version; entry_in = h.entry_in }))

append_entry_cases :
    (v : Text) (e : Entry) (gs : List Group) {w : Text} {d : Entry}
    → IsHeld w d (append_entry v e gs)
    → ((w ≡ v) × (d ≡ e)) ⊎ IsHeld w d gs
unfolding append_entry
append_entry_cases v e [] {w} {d} h = only h.group_in
  where
    only :
        In h.group (record { version = v; entries = e ∷ [] } ∷ [])
        → ((w ≡ v) × (d ≡ e)) ⊎ IsHeld w d []
    only (here q) = elim (subst (λ (x : Group). In d x.entries) q h.entry_in) [
      | here p ↦ inl (sym h.version ∙ ap (λ (x : Group). x.version) q, p)
      | there i ↦ elim i [ ]
    ]
    only (there i) = elim i [ ]
append_entry_cases v e (g ∷ gs) {w} {d} h =
    with_test (text_eq g.version v) refl (λ k. append_entry_cases v e gs k) h
  where
    in_grown :
        text_eq g.version v ≡ true
        → (x : Group) → x ≡ grown g e
        → x.version ≡ w
        → In d x.entries
        → ((w ≡ v) × (d ≡ e)) ⊎ IsHeld w d (g ∷ gs)
    in_grown t x q p m =
        let same : g.version ≡ w = ap (λ (y : Group). y.version) (sym q) ∙ p in
        elim (In-append_cases g.entries (subst (λ (y : Group). In d y.entries) q m)) [
          | inl i ↦ inr (record { group = g; group_in = here refl; version = same; entry_in = i })
          | inr i ↦ elim i [
            | here r ↦ inl (sym same ∙ text_eq-eq g.version v t, r)
            | there j ↦ elim j [ ]
          ]
        ]

    at_head :
        (k : IsHeld w d (g ∷ append_entry v e gs))
        → In k.group (g ∷ append_entry v e gs)
        → (IsHeld w d (append_entry v e gs) → ((w ≡ v) × (d ≡ e)) ⊎ IsHeld w d gs)
        → ((w ≡ v) × (d ≡ e)) ⊎ IsHeld w d (g ∷ gs)
    at_head k (here q) rest =
        inr (record {
          group = k.group;
          group_in = here q;
          version = k.version;
          entry_in = k.entry_in;
        })
    at_head k (there i) rest =
        elim (rest
          (record { group = k.group; group_in = i; version = k.version; entry_in = k.entry_in })) [
            | inl p ↦ inl p
            | inr p ↦ inr (IsHeld-there p)
          ]

    at_grown :
        text_eq g.version v ≡ true
        → (k : IsHeld w d (grown g e ∷ gs)) → In k.group (grown g e ∷ gs)
        → ((w ≡ v) × (d ≡ e)) ⊎ IsHeld w d (g ∷ gs)
    at_grown t k (here q) = in_grown t k.group q k.version k.entry_in
    at_grown t k (there i) =
        inr (record {
          group = k.group;
          group_in = there i;
          version = k.version;
          entry_in = k.entry_in;
        })

    with_test :
        (b : Bool)
        → text_eq g.version v ≡ b
        → (IsHeld w d (append_entry v e gs) → ((w ≡ v) × (d ≡ e)) ⊎ IsHeld w d gs)
        → IsHeld w d (placed b v e g gs)
        → ((w ≡ v) × (d ≡ e)) ⊎ IsHeld w d (g ∷ gs)
    with_test true t rest k = at_grown t k k.group_in
    with_test false t rest k = at_head k k.group_in rest

-- What is held in the end was given, or was there before.
pub group_entries_cases :
    (es : List (Option (Text × Entry))) (gs : List Group) {w : Text} {d : Entry}
    → IsHeld w d (group_entries es gs)
    → In (some (w, d)) es ⊎ IsHeld w d gs
unfolding group_entries
group_entries_cases [] gs h = inr h
group_entries_cases (none ∷ es) gs h = elim (group_entries_cases es gs h) [
  | inl i ↦ inl (there i)
  | inr k ↦ inr k
]
group_entries_cases (some (v, e) ∷ es) gs h =
    elim (group_entries_cases es (append_entry v e gs) h) [
      | inl i ↦ inl (there i)
      | inr k ↦ elim (append_entry_cases v e gs k) [
        | inl p ↦ inl (here (λ i. some (p.0 i, p.1 i)))
        | inr l ↦ inr l
      ]
    ]

pub group_entries_keep :
    (es : List (Option (Text × Entry))) (gs : List Group) {w : Text} {d : Entry}
    → IsHeld w d gs
    → IsHeld w d (group_entries es gs)
unfolding group_entries
group_entries_keep [] gs h = h
group_entries_keep (none ∷ es) gs h = group_entries_keep es gs h
group_entries_keep (some (v, e) ∷ es) gs h =
    group_entries_keep es (append_entry v e gs) (append_entry_keep v e gs h)

abbrev HeldIn : List Group → Option (Text × Entry) → Type 0
HeldIn gs none = Unit {0}
HeldIn gs (some (v, e)) = IsHeld v e gs

pub group_entries_all :
    (es : List (Option (Text × Entry))) (gs : List Group) {w : Text} {d : Entry}
    → In (some (w, d)) es
    → IsHeld w d (group_entries es gs)
unfolding group_entries
group_entries_all [] gs i = elim i [ ]
group_entries_all (none ∷ es) gs {w} {d} (here q) = cc
group_entries_all (none ∷ es) gs (there i) = group_entries_all es gs i
group_entries_all (some (v, e) ∷ es) gs (here q) =
    subst (HeldIn (group_entries es (append_entry v e gs))) (sym q)
      (group_entries_keep es (append_entry v e gs) (append_entry_self v e gs))
group_entries_all (some (v, e) ∷ es) gs (there i) = group_entries_all es (append_entry v e gs) i
