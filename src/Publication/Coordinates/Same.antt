-- ===== src/Publication/Coordinates/Same.antt =====
-- Two canonical lists of coordinates that are equal as sets are equal.
use mathlib.Core.Path.{ap₂}
use postgresbuild.Prelude.{
  ◌≡◌, refl, sym, ◌∙◌, true, List, [], ◌∷◌, arith, any, all, subst, ◌⊎◌, inl, inr, In, here, there,
  In-any, any-In, all-In,
}
use postgresbuild.Prelude.Sort.{IsSorted}
use postgresbuild.Publication.Record.{Coordinate, coordinate_le, coordinate_eq}
use postgresbuild.Publication.Coordinates.{
  Unique, Unique-head, coordinate_eq-eq, coordinate_eq_refl, coordinate_le_antisym,
}

pub any-coordinate :
    {c : Coordinate} (cs : List Coordinate) → any (coordinate_eq c) cs ≡ true → In c cs
any-coordinate {c} cs h =
    let (d, m, e) = any-In (coordinate_eq c) cs h in
    subst (λ x. In x cs) (sym (coordinate_eq-eq c d e)) m

pub In-coordinate :
    {c : Coordinate} {cs : List Coordinate} → In c cs → any (coordinate_eq c) cs ≡ true
In-coordinate {c} m = In-any (coordinate_eq c) m (coordinate_eq_refl c)

abbrev pub Within : List Coordinate → List Coordinate → Type 0
Within cs ds = (c : Coordinate) → In c cs → In c ds

tail_Within :
    (c d : Coordinate) {cs ds : List Coordinate}
    → c ≡ d
    → Unique (c ∷ cs)
    → Within (c ∷ cs) (d ∷ ds)
    → Within cs ds
tail_Within c d {cs} {ds} e u w x m = elim (w x (there m)) [
  | here q ↦
      let present : any (coordinate_eq c) cs ≡ true =
        In-coordinate (subst (λ y. In y cs) (q ∙ sym e) m) in
      cc (present, Unique-head c cs u)
  | there n ↦ n
]

head_le :
    (c d : Coordinate) {ds : List Coordinate}
    → all (coordinate_le d) ds ≡ true
    → In c (d ∷ ds)
    → (c ≡ d) ⊎ (coordinate_le d c ≡ true)
head_le c d h (here e) = inl e
head_le c d h (there m) = inr (all-In (coordinate_le d) h m)

heads :
    (c d : Coordinate)
    → (c ≡ d) ⊎ (coordinate_le d c ≡ true)
    → (d ≡ c) ⊎ (coordinate_le c d ≡ true)
    → c ≡ d
heads c d (inl e) q = e
heads c d (inr p) (inl e) = sym e
heads c d (inr p) (inr q) = coordinate_le_antisym c d q p

Unique-tail : (c : Coordinate) (cs : List Coordinate) → Unique (c ∷ cs) → Unique cs
Unique-tail c cs u x = omega (arith, u x)

pub canonical_ext :
    (cs ds : List Coordinate)
    → IsSorted coordinate_le cs × Unique cs
    → IsSorted coordinate_le ds × Unique ds
    → Within cs ds
    → Within ds cs
    → cs ≡ ds
canonical_ext [] [] p q v w = refl
canonical_ext [] (d ∷ ds) p q v w = elim (w d (here refl)) [ ]
canonical_ext (c ∷ cs) [] p q v w = elim (v c (here refl)) [ ]
canonical_ext (c ∷ cs) (d ∷ ds) p q v w =
    let e : c ≡ d =
      heads c d (head_le c d q.0.0 (v c (here refl))) (head_le d c p.0.0 (w d (here refl))) in
    ap₂ ◌∷◌ e (
      canonical_ext cs ds (p.0.1, Unique-tail c cs p.1) (q.0.1, Unique-tail d ds q.1)
        (tail_Within c d e p.1 v) (tail_Within d c (sym e) q.1 w))
