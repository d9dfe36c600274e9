-- ===== src/Publication/Coordinates.antt =====
-- Lists of snapshot coordinates: Python's `sorted(set(...))`, and what equality with it says.
pub mod Same
use postgresbuild.Prelude.{
  ℕ, ◌≤◌, ◌≡◌, refl, sym, ap, Bool, true, false, ◌&&◌, List, [], ◌∷◌, arith, count, any, subst,
  if◌then◌else◌, Bool-cases, inl, inr, &&-eq-true, any-count,
}
use postgresbuild.Prelude.Text.{Text, text_eq, text_eq-eq, text_eq_refl, text_order}
use postgresbuild.Prelude.Order.{lex_order}
use postgresbuild.Prelude.Sort.{sort, IsSorted, sort-IsSorted, count-sort, sort_of_IsSorted}
use postgresbuild.Publication.Record.{Coordinate, coordinate_key, coordinate_le, coordinate_eq}

pub coordinate_eq-eq : (a b : Coordinate) → coordinate_eq a b ≡ true → a ≡ b
unfolding coordinate_eq
coordinate_eq-eq a b h =
    let (p, q) =
      &&-eq-true
        (text_eq a.package_name b.package_name && text_eq a.source_version b.source_version)
        (text_eq a.target b.target) h in
    let (r, s) =
      &&-eq-true (text_eq a.package_name b.package_name) (text_eq a.source_version b.source_version)
        p in
    λ i. record {
      package_name = text_eq-eq _ _ r i;
      source_version = text_eq-eq _ _ s i;
      target = text_eq-eq _ _ q i;
    }

pub coordinate_eq_refl : (a : Coordinate) → coordinate_eq a a ≡ true
unfolding coordinate_eq
coordinate_eq_refl a =
    ground
      (arith, text_eq_refl a.package_name, text_eq_refl a.source_version, text_eq_refl a.target)

pub coordinate_le_total : (a b : Coordinate) → coordinate_le a b ≡ false → coordinate_le b a ≡ true
unfolding coordinate_le
coordinate_le_total a b = (lex_order text_order).total (coordinate_key a) (coordinate_key b)

pub coordinate_le_trans :
    (a b c : Coordinate)
    → coordinate_le a b ≡ true
    → coordinate_le b c ≡ true
    → coordinate_le a c ≡ true
unfolding coordinate_le
coordinate_le_trans a b c =
    (lex_order text_order).trans (coordinate_key a) (coordinate_key b) (coordinate_key c)

from_key : List Text → Coordinate
from_key (p ∷ v ∷ t ∷ l) = record { package_name = p; source_version = v; target = t }
from_key _ = record { package_name = []; source_version = []; target = [] }

pub coordinate_le_antisym :
    (a b : Coordinate) → coordinate_le a b ≡ true → coordinate_le b a ≡ true → a ≡ b
unfolding coordinate_le from_key
coordinate_le_antisym a b h k =
    ap from_key ((lex_order text_order).antisym (coordinate_key a) (coordinate_key b) h k)

-- `set(...)`: of equal coordinates one is kept.
unfoldable pub dedup : List Coordinate → List Coordinate
unfolding coordinate_eq
dedup [] = []
dedup (c ∷ cs) = let rest = dedup cs in if any (coordinate_eq c) cs then rest else c ∷ rest

unfoldable pub coordinates_eq : List Coordinate → List Coordinate → Bool
unfolding coordinate_eq
coordinates_eq [] [] = true
coordinates_eq [] (d ∷ ds) = false
coordinates_eq (c ∷ cs) [] = false
coordinates_eq (c ∷ cs) (d ∷ ds) = coordinate_eq c d && coordinates_eq cs ds

pub coordinates_eq-eq : (cs ds : List Coordinate) → coordinates_eq cs ds ≡ true → cs ≡ ds
unfolding coordinates_eq
coordinates_eq-eq [] [] h = refl
coordinates_eq-eq [] (d ∷ ds) h = cc
coordinates_eq-eq (c ∷ cs) [] h = cc
coordinates_eq-eq (c ∷ cs) (d ∷ ds) h =
    let (p, q) = &&-eq-true (coordinate_eq c d) (coordinates_eq cs ds) h in
    λ i. coordinate_eq-eq c d p i ∷ coordinates_eq-eq cs ds q i

coordinates_eq_refl : (cs : List Coordinate) → coordinates_eq cs cs ≡ true
unfolding coordinates_eq
coordinates_eq_refl [] = refl
coordinates_eq_refl (c ∷ cs) = ground (arith, coordinate_eq_refl c, coordinates_eq_refl cs)

-- `cs == sorted(set(cs))`
unfoldable pub is_canonical : List Coordinate → Bool
unfolding coordinates_eq coordinate_le dedup
is_canonical cs = coordinates_eq cs (sort coordinate_le (dedup cs))

-- No coordinate occurs twice.
abbrev pub Unique : List Coordinate → Type 0
Unique cs = (c : Coordinate) → count (coordinate_eq c) cs ≤ 1

count-dedup :
    (c : Coordinate) (cs : List Coordinate)
    → count (coordinate_eq c) (dedup cs) ≤ count (coordinate_eq c) cs
unfolding dedup
count-dedup c [] = omega arith
count-dedup c (d ∷ cs) = elim (Bool-cases (any (coordinate_eq d) cs)) [
  | inl e ↦ rw e (omega (arith, count-dedup c cs))
  | inr e ↦ rw e (omega (arith, count-dedup c cs))
]

count-absent :
    (c d : Coordinate) (cs : List Coordinate)
    → any (coordinate_eq d) cs ≡ false
    → coordinate_eq c d ≡ true
    → count (coordinate_eq c) cs ≡ 0
count-absent c d [] h e = refl
count-absent c d (b ∷ cs) h e =
    let p : c ≡ d = coordinate_eq-eq c d e in
    let q : coordinate_eq c b ≡ false = rw p (ground arith) in
    rw q (omega (arith, count-absent c d cs (ground arith) e))

dedup-Unique : (cs : List Coordinate) → Unique (dedup cs)
unfolding dedup
dedup-Unique [] c = omega arith
dedup-Unique (d ∷ cs) c = elim (Bool-cases (any (coordinate_eq d) cs)) [
  | inl e ↦ rw e (dedup-Unique cs c)
  | inr e ↦ elim (Bool-cases (coordinate_eq c d)) [
    | inl f ↦ rw (e, f) (omega (arith, count-dedup c cs, count-absent c d cs e f))
    | inr f ↦ rw (e, f) (omega (arith, dedup-Unique cs c))
  ]
]

-- A canonical list is in order and has no coordinate twice.
pub is_canonical-IsSorted :
    (cs : List Coordinate) → is_canonical cs ≡ true → IsSorted coordinate_le cs × Unique cs
unfolding is_canonical
is_canonical-IsSorted cs h =
    let e : cs ≡ sort coordinate_le (dedup cs) = coordinates_eq-eq cs _ h in
    (
      subst (IsSorted coordinate_le) (sym e)
          (sort-IsSorted coordinate_le coordinate_le_total coordinate_le_trans (dedup cs)),
      λ c.
          subst (λ (ds : List Coordinate). count (coordinate_eq c) ds ≤ 1) (sym e)
            (rw (count-sort coordinate_le (coordinate_eq c) (dedup cs)) (dedup-Unique cs c)),
    )

Unique-head :
    (c : Coordinate) (cs : List Coordinate) → Unique (c ∷ cs) → any (coordinate_eq c) cs ≡ false
Unique-head c cs u = elim (Bool-cases (any (coordinate_eq c) cs)) [
  | inl e ↦
      let one : ◌≡◌ {A = ℕ} (if coordinate_eq c c then 1 else 0) 1 = rw (coordinate_eq_refl c) in
      absurd (omega (arith, any-count (coordinate_eq c) cs e, u c, one))
  | inr e ↦ e
]

dedup_of_Unique : (cs : List Coordinate) → Unique cs → dedup cs ≡ cs
unfolding dedup
dedup_of_Unique [] u = refl
dedup_of_Unique (c ∷ cs) u =
    rw (Unique-head c cs u) (ap (◌∷◌ c) (dedup_of_Unique cs (λ d. omega (arith, u d))))

-- The converse.
pub IsSorted-is_canonical :
    (cs : List Coordinate) → IsSorted coordinate_le cs → Unique cs → is_canonical cs ≡ true
unfolding is_canonical
IsSorted-is_canonical cs s u =
    rw (dedup_of_Unique cs u, sort_of_IsSorted coordinate_le cs s) (coordinates_eq_refl cs)
