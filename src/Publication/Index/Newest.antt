-- ===== src/Publication/Index/Newest.antt =====
-- For each coordinate the index names one build: that of the newest snapshot which has one.
use mathlib.Core.List.Permᴰ
use postgresbuild.Prelude.{
  ℕ, ◌+◌, ◌≤◌, ◌≡◌, refl, sym, Bool, true, false, ◌||◌, List, [], ◌∷◌, ◌++◌, map, arith, any, count,
  any-In, In-any, count-eq-zero, In, here, there, Bool-cases, inl, inr, if◌then◌else◌, subst,
}
use postgresbuild.Prelude.Text.{Text}
use postgresbuild.Prelude.Sort.{sort, sort-perm, In-perm, count-sort}
use postgresbuild.Publication.Record.{Coordinate, Record, coordinate_eq}
use postgresbuild.Publication.Coordinates.{coordinate_eq-eq, coordinate_eq_refl}
use postgresbuild.Publication.Fragment.{Fragment}
use postgresbuild.Publication.Index.{
  Latest, Snapshot, newer, record_le, latest_le, covered, set_default, add_records, add_snapshots,
  snapshot_of, project_index,
}

-- A list of records has the coordinate.
abbrev pub has : Coordinate → List Record → Bool
has c = any (λ (r : Record). coordinate_eq c r.coordinate)

covered-append :
    (c : Coordinate) (es ds : List Latest) → covered c (es ++ ds) ≡ (covered c es || covered c ds)
unfolding covered
covered-append c [] ds = refl
covered-append c (e ∷ es) ds = ground (arith, covered-append c es ds)

covered-set_default :
    (c : Coordinate) (e : Latest) (es : List Latest)
    → covered c (set_default e es) ≡ (covered c es || coordinate_eq c e.built.coordinate)
unfolding set_default
covered-set_default c e es = elim (Bool-cases (covered e.built.coordinate es)) [
  | inl p ↦ rw p (same p (coordinate_eq c e.built.coordinate) refl)
  | inr p ↦ rw (p, covered-append c es (e ∷ [])) (unfold covered in ground arith)
]
  where
    same :
        covered e.built.coordinate es ≡ true
        → (b : Bool) → coordinate_eq c e.built.coordinate ≡ b
        → covered c es ≡ (covered c es || b)
    same p true q =
        let d : c ≡ e.built.coordinate = coordinate_eq-eq c e.built.coordinate q in
        subst (λ (x : Coordinate). covered x es ≡ (covered x es || true)) (sym d) (rw p)
    same p false q = ground arith

covered-add_records :
    (c : Coordinate) (tag : Text) (rs : List Record) (es : List Latest)
    → covered c (add_records tag rs es) ≡ (covered c es || has c rs)
unfolding add_records
covered-add_records c tag [] es = ground arith
covered-add_records c tag (r ∷ rs) es =
    let e : Latest = record { built = r; tag = tag } in
    ground (arith, covered-add_records c tag rs (set_default e es), covered-set_default c e es)

covered-add_snapshots :
    (c : Coordinate) (ss : List Snapshot) (es : List Latest)
    → covered c (add_snapshots ss es)
      ≡ (covered c es || any (λ (s : Snapshot). has c s.successful) ss)
unfolding add_snapshots
covered-add_snapshots c [] es = ground arith
covered-add_snapshots c (s ∷ ss) es = ground (
  arith,
  covered-add_snapshots c ss (add_records s.tag s.successful es),
  covered-add_records c s.tag s.successful es,
)

-- The entry comes from the first snapshot of a list that has its coordinate.
data Origin (x : Latest) : List Snapshot → Type 0 where
  first :
      {s : Snapshot} {ss : List Snapshot}
      → x.tag ≡ s.tag
      → In x.built s.successful
      → Origin x (s ∷ ss)
  later :
      {s : Snapshot} {ss : List Snapshot}
      → has x.built.coordinate s.successful ≡ false
      → Origin x ss
      → Origin x (s ∷ ss)

has-sort : (c : Coordinate) (rs : List Record) → has c rs ≡ true → has c (sort record_le rs) ≡ true
has-sort c rs h =
    let (r, i, e) = any-In (λ (q : Record). coordinate_eq c q.coordinate) rs h in
    In-any (λ (q : Record). coordinate_eq c q.coordinate) (In-perm (sort-perm record_le rs) i) e

-- The fragment that an entry comes from, and that no other is newer.
pub record IsNewest (x : Latest) (fs : List Fragment) : Type 0 where
  pub from : Fragment
  pub from_in : In from fs
  pub tag : x.tag ≡ from.tag
  pub built_in : In x.built from.successful
  pub newest :
      (g : Fragment) → In g fs → has x.built.coordinate g.successful ≡ true → newer from g ≡ true

any-snapshots :
    (c : Coordinate) (fs : List Fragment) {f : Fragment}
    → In f fs
    → has c f.successful ≡ true
    → any (λ (s : Snapshot). has c s.successful) (map snapshot_of fs) ≡ true
unfolding snapshot_of
any-snapshots c [] m h = elim m [ ]
any-snapshots c (g ∷ fs) (here e) h =
    let p : has c (sort record_le g.successful) ≡ true =
      has-sort c g.successful (subst (λ (k : Fragment). has c k.successful ≡ true) e h) in
    rw p
any-snapshots c (g ∷ fs) (there m) h = ground (arith, any-snapshots c fs m h)

any-sort :
    (c : Coordinate) (es : List Latest)
    → covered c es ≡ true
    → any (λ (e : Latest). coordinate_eq c e.built.coordinate) (sort latest_le es) ≡ true
unfolding covered
any-sort c es h =
    let test = λ (e : Latest). coordinate_eq c e.built.coordinate in
    let (e, i, p) = any-In test es h in In-any test (In-perm (sort-perm latest_le es) i) p

count-append :
    (c : Coordinate) (es : List Latest) (e : Latest)
    → count (λ (x : Latest). coordinate_eq c x.built.coordinate) (es ++ e ∷ [])
      ≡ count (λ (x : Latest). coordinate_eq c x.built.coordinate) es
        + (if coordinate_eq c e.built.coordinate then 1 else 0)
count-append c [] e = omega arith
count-append c (d ∷ es) e = omega (arith, count-append c es e)

-- Every build of every snapshot has an entry for its coordinate.
pub latest_complete :
    (fs : List Fragment) (f : Fragment) (r : Record)
    → In f fs
    → In r f.successful
    → any (λ (e : Latest). coordinate_eq r.coordinate e.built.coordinate) (project_index fs).latest
      ≡ true
unfolding project_index covered snapshot_of
latest_complete fs f r m i =
    let c = r.coordinate in
    let snapshots = map snapshot_of (sort newer fs) in
    let h : has c f.successful ≡ true =
      In-any (λ (q : Record). coordinate_eq c q.coordinate) i (coordinate_eq_refl c) in
    let k : any (λ (s : Snapshot). has c s.successful) snapshots ≡ true =
      any-snapshots c (sort newer fs) (In-perm (sort-perm newer fs) m) h in
    let a : covered c (add_snapshots snapshots []) ≡ true =
      ground (arith, covered-add_snapshots c snapshots []) in
    any-sort c (add_snapshots snapshots []) a

abbrev count_at : Coordinate → List Latest → ℕ
count_at c = count (λ (x : Latest). coordinate_eq c x.built.coordinate)

-- No coordinate has two entries.
abbrev AtMostOne : List Latest → Type 0
AtMostOne es = (c : Coordinate) → count_at c es ≤ 1

set_default-AtMostOne :
    (e : Latest) (es : List Latest) → AtMostOne es → AtMostOne (set_default e es)
unfolding set_default covered
set_default-AtMostOne e es u c = elim (Bool-cases (covered e.built.coordinate es)) [
  | inl p ↦ rw p (u c)
  | inr p ↦ rw p (rw (count-append c es e) (last (coordinate_eq c e.built.coordinate) refl p))
]
  where
    last :
        (b : Bool)
        → coordinate_eq c e.built.coordinate ≡ b
        → covered e.built.coordinate es ≡ false
        → count_at c es + (if b then 1 else 0) ≤ 1
    last true q p =
        let d : c ≡ e.built.coordinate = coordinate_eq-eq c e.built.coordinate q in
        let n : covered c es ≡ false = subst (λ (x : Coordinate). covered x es ≡ false) (sym d) p in
        omega (arith, count-eq-zero (λ (x : Latest). coordinate_eq c x.built.coordinate) es n)
    last false q p = omega (arith, u c)

add_records-AtMostOne :
    (tag : Text) (rs : List Record) (es : List Latest)
    → AtMostOne es
    → AtMostOne (add_records tag rs es)
unfolding add_records
add_records-AtMostOne tag [] es u = u
add_records-AtMostOne tag (r ∷ rs) es u =
    let e : Latest = record { built = r; tag = tag } in
    add_records-AtMostOne tag rs (set_default e es) (set_default-AtMostOne e es u)

add_snapshots-AtMostOne :
    (ss : List Snapshot) (es : List Latest) → AtMostOne es → AtMostOne (add_snapshots ss es)
unfolding add_snapshots
add_snapshots-AtMostOne [] es u = u
add_snapshots-AtMostOne (s ∷ ss) es u =
    add_snapshots-AtMostOne ss (add_records s.tag s.successful es)
      (add_records-AtMostOne s.tag s.successful es u)

-- `latest` has at most one entry for a coordinate.
pub latest_unique :
    (fs : List Fragment) (c : Coordinate)
    → count (λ (x : Latest). coordinate_eq c x.built.coordinate) (project_index fs).latest ≤ 1
unfolding project_index
latest_unique fs c =
    let es = add_snapshots (map snapshot_of (sort newer fs)) [] in
    rw (count-sort latest_le (λ (x : Latest). coordinate_eq c x.built.coordinate) es)
      (add_snapshots-AtMostOne (map snapshot_of (sort newer fs)) [] (λ d. omega arith) c)
