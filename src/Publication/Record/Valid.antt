-- ===== src/Publication/Record/Valid.antt =====
-- What `_validate_record` promises of the record that it returns.
use mathlib.Core.Option.{some-injective, none-ne-some}
use postgresbuild.Prelude.{
  ◌≡◌, refl, sym, ap, ◌∙◌, true, Option, none, some, List, [], ◌∷◌, ◌++◌, arith, ==_iff, ok,
  >>=-eq-ok, >>-eq-ok, expect-eq-ok, guard-eq-ok, then-eq-ok, ok-eq, subst, Bool-cases, inl, inr,
  ◌⊎◌, ◌↔◌, In, here, there, find-eq-some, &&-eq-true,
}
use postgresbuild.Prelude.Text.{
  Text, codes, text_in, text_in-In, In-text_in, is-eq, texts_eq-eq, text_order,
}
use postgresbuild.Prelude.Sort.{IsSorted, sort-IsSorted}
use postgresbuild.Json.{Json, obj, Fields, Items, get, as_dict, as_list, items, py_eq}
use postgresbuild.Publication.Record.{
  Coordinate, coordinate, Role, primary_archive, dbgsym, metadata, test_result, role_eq, is_public,
  public_name, File, count_role, logical_names, add_name, release_names, bound_result, Record,
  check_record, validate_record,
}
use postgresbuild.Publication.Record.Files.{
  AreFiles, AreFiles-nil, AreOf, check_files-AreOf, HasPublicName, check_files-AreFiles,
}

-- The counts, the order and the binding that the checks behind the loop establish.
pub record IsChecked (m : Fields) (c : Coordinate) (fs : List File) : Type 0 where
  pub one_primary : count_role primary_archive fs ≡ 1
  pub one_dbgsym : count_role dbgsym fs ≡ 1
  pub one_metadata : count_role metadata fs ≡ 1
  pub one_test_result : count_role test_result fs ≡ 1
  pub ordered : IsSorted text_order.le (logical_names fs)
  pub primary : File
  pub primary_in : In primary fs
  pub primary_role : role_eq primary_archive primary.role ≡ true
  pub result : Fields
  pub result_of : as_dict (get m "test_result") ≡ some result
  pub bound : py_eq (obj result) (obj (bound_result c primary.sha256 (get result "recipe"))) ≡ true

pub check_record-IsChecked :
    (m : Fields) (c : Coordinate) (fs : List File) → check_record m c fs ≡ ok tt → IsChecked m c fs
unfolding check_record
check_record-IsChecked m c fs h =
    let (g1, h1) = >>-eq-ok _ _ _ h in
    let (g2, h2) = >>-eq-ok _ _ _ h1 in
    let (g3, h3) = >>-eq-ok _ _ _ h2 in
    let (g4, h4) = >>-eq-ok _ _ _ h3 in
    let (p, e5, h5) = expect-eq-ok _ _ _ h4 in
    let (r, e6, h6) = expect-eq-ok _ _ _ h5 in
    let (g7, h7) = >>-eq-ok _ _ _ h6 in
    let (a, b) = &&-eq-true _ _ g3 in
    let (i, q) = find-eq-some _ fs e5 in
    record {
      one_primary = (==_iff _ _).0 g1;
      one_dbgsym = (==_iff _ _).0 g2;
      one_metadata = (==_iff _ _).0 a;
      one_test_result = (==_iff _ _).0 b;
      ordered =
          subst (IsSorted text_order.le) (sym (texts_eq-eq _ _ g4))
            (sort-IsSorted text_order.le text_order.total text_order.trans (logical_names fs));
      primary = p;
      primary_in = i;
      primary_role = q;
      result = r;
      result_of = e6;
      bound = guard-eq-ok _ _ h7;
    }

-- A record that a snapshot or a stored fragment may hold. What is kept of its coordinate and files
-- is what its dict says: one file for each entry under `files`, in their order.
pub record IsRecord (repository tag : Text) (r : Record) : Type 0 where
  pub coordinate_of : coordinate (get r.source "coordinate") ≡ ok r.coordinate
  pub postgresql : r.coordinate.package_name ≡ codes "postgresql"
  pub entries : Items
  pub entries_of : as_list (get r.source "files") ≡ some entries
  pub files_of : AreOf (items entries) r.files
  pub files : AreFiles repository tag r.coordinate r.files
  pub checked : IsChecked r.source r.coordinate r.files

-- Every record that _validate_record returns is the given dict with its coordinate and one file for
-- each entry of its `files`, in their order, and it is valid: it is PostgreSQL's, it has one primary
-- archive, one dbgsym archive, one metadata file and one test result, its logical names are in
-- order and none occurs twice, no logical name ends in .debug.tar.zst, sizes are not negative and
-- digests are well formed, a file has the canonical release name and address if its role is public
-- and neither key otherwise, and the test result is bound to the primary archive.
pub validate_record-IsRecord :
    (repository tag : Text) (v : Json) (r : Record)
    → validate_record repository tag v ≡ ok r
    → (as_dict v ≡ some r.source) × IsRecord repository tag r
unfolding validate_record
validate_record-IsRecord repository tag v r h =
    let (m, e1, h1) = expect-eq-ok _ _ _ h in
    let (vs, e2, h2) = expect-eq-ok _ _ _ h1 in
    let (c, e3, h3) = >>=-eq-ok _ _ h2 in
    let (g4, h4) = >>-eq-ok _ _ _ h3 in
    let (fs, e5, h5) = >>=-eq-ok _ _ h4 in
    let (e6, h6) = then-eq-ok _ _ h5 in
    let (new, q, a) = check_files-AreOf repository tag c [] (items vs) e5 in
    subst (λ (x : Record). (as_dict v ≡ some x.source) × IsRecord repository tag x) (ok-eq h6)
      (
        e1,
        record {
          coordinate_of = e3;
          postgresql = is-eq _ "postgresql" g4;
          entries = vs;
          entries_of = e2;
          files_of = subst (AreOf (items vs)) (sym q) a;
          files =
              check_files-AreFiles repository tag c [] (items vs) fs (AreFiles-nil repository tag c)
                e5;
          checked = check_record-IsChecked m c fs e6;
        },
      )

pub count-pos :
    (role : Role) (fs : List File)
    → count_role role fs ≡ 1
    → (f : File) × In f fs × (role_eq role f.role ≡ true)
count-pos role [] h = absurd (omega arith)
count-pos role (f ∷ fs) h = elim (Bool-cases (role_eq role f.role)) [
  | inl e ↦ (f, here refl, e)
  | inr e ↦ let (g, m, p) = count-pos role fs (ground arith) in (g, there m, p)
]

pub role_eq-eq : (a b : Role) → role_eq a b ≡ true → a ≡ b
role_eq-eq primary_archive b h = ground arith
role_eq-eq dbgsym b h = ground arith
role_eq-eq Role.test_data b h = ground arith
role_eq-eq metadata b h = ground arith
role_eq-eq test_result b h = ground arith

add_name-In :
    (o : Option Text) (ts : List Text) {n : Text} → In n (add_name o ts) → (o ≡ some n) ⊎ In n ts
add_name-In none ts m = inr m
add_name-In (some k) ts (here e) = inl (ap some (sym e))
add_name-In (some k) ts (there m) = inr m

In-add_name : (o : Option Text) {ts : List Text} {n : Text} → In n ts → In n (add_name o ts)
In-add_name none m = m
In-add_name (some k) m = there m

release_names-In :
    (fs : List File) {n : Text}
    → In n (release_names fs)
    → (f : File) × In f fs × (f.release_name ≡ some n)
release_names-In [] m = elim m [ ]
release_names-In (f ∷ fs) m = elim (add_name-In f.release_name (release_names fs) m) [
  | inl e ↦ (f, here refl, e)
  | inr k ↦ let (g, i, e) = release_names-In fs k in (g, there i, e)
]

pub In-release_names :
    (f : File) (fs : List File) {n : Text}
    → In f fs
    → f.release_name ≡ some n
    → In n (release_names fs)
In-release_names f [] m q = elim m [ ]
In-release_names f (g ∷ fs) {n} (here e) q =
    subst (λ (o : Option Text). In n (add_name o (release_names fs)))
      (sym q ∙ ap (λ (x : File). x.release_name) e) (here refl)
In-release_names f (g ∷ fs) (there m) q = In-add_name g.release_name (In-release_names f fs m q)

module _ (repository tag : Text) (r : Record) (v : IsRecord repository tag r) where
  abbrev own_name : Role → Text
  own_name role = public_name r.coordinate role tag

  role-name :
      (role : Role)
      → is_public role ≡ true
      → count_role role r.files ≡ 1
      → In (own_name role) (release_names r.files)
  role-name role p h =
      let (f, i, e) = count-pos role r.files h in
      let named : HasPublicName repository tag r.coordinate f.role f.release_name f.source =
        (v.files.each f i).public_name in
      let q : is_public f.role ≡ true = ap is_public (sym (role_eq-eq role f.role e)) ∙ p in
      let n : f.release_name ≡ some (own_name f.role) = (rw q at named).0 in
      In-release_names f r.files i
        (n ∙ ap (λ x. some (own_name x)) (sym (role_eq-eq role f.role e)))

  public-cases : (role : Role) → is_public role ≡ true → (role ≡ primary_archive) ⊎ (role ≡ dbgsym)
  public-cases primary_archive h = inl refl
  public-cases dbgsym h = inr refl
  public-cases Role.test_data h = cc
  public-cases metadata h = cc
  public-cases test_result h = cc

  pub IsRecord-release_names :
      (n : Text)
      → (text_in n (release_names r.files) ≡ true)
        ↔ ((n ≡ own_name primary_archive) ⊎ (n ≡ own_name dbgsym))
  IsRecord-release_names n = (
    λ h.
        let (f, i, e) = release_names-In r.files (text_in-In n (release_names r.files) h) in
        let named : HasPublicName repository tag r.coordinate f.role f.release_name f.source =
          (v.files.each f i).public_name in
        elim (Bool-cases (is_public f.role)) [
          | inl p ↦
              let q : f.release_name ≡ some (own_name f.role) = (rw p at named).0 in
              let w : n ≡ own_name f.role = some-injective n _ (sym e ∙ q) in
              elim (public-cases f.role p) [
                | inl s ↦ inl (w ∙ ap own_name s)
                | inr s ↦ inr (w ∙ ap own_name s)
              ]
          | inr p ↦
              let q : f.release_name ≡ none = (rw p at named).0 in
              absurd (none-ne-some n (sym q ∙ e))
        ],
    λ h. elim h [
      | inl e ↦ rw e (In-text_in (role-name primary_archive refl v.checked.one_primary))
      | inr e ↦ rw e (In-text_in (role-name dbgsym refl v.checked.one_dbgsym))
    ],
  )

-- The name of an archive of PostgreSQL, with what stands before `.tar.zst`.
abbrev pub archive_name : Text → Text → Text → Text → Text
archive_name version tag target suffix =
    codes "postgresql-"
    ++ version
    ++ codes "+"
    ++ tag
    ++ codes "-"
    ++ target
    ++ suffix
    ++ codes ".tar.zst"

-- The second result of `_validate_record`, the release names of the files, holds two names for a
-- record that it accepts, and no others: that of the primary archive, which is
-- postgresql-VERSION+TAG-TARGET.tar.zst with the version and the target of the record's
-- coordinate, and that of the dbgsym archive, the same with -dbgsym before .tar.zst.
pub release_names_exact :
    (repository tag : Text) (v : Json) (r : Record)
    → validate_record repository tag v ≡ ok r
    → (n : Text)
    → (text_in n (release_names r.files) ≡ true) ↔ (
        (n ≡ archive_name r.coordinate.source_version tag r.coordinate.target [])
        ⊎ (n ≡ archive_name r.coordinate.source_version tag r.coordinate.target (codes "-dbgsym")))
unfolding public_name
release_names_exact repository tag v r h n =
    let i = (validate_record-IsRecord repository tag v r h).1 in
    let c = r.coordinate in
    subst
      (λ (p : Text). (text_in n (release_names r.files) ≡ true) ↔ (
        (n
          ≡ p
            ++ codes "-"
            ++ c.source_version
            ++ codes "+"
            ++ tag
            ++ codes "-"
            ++ c.target
            ++ []
            ++ codes ".tar.zst")
        ⊎ (n
            ≡ p
              ++ codes "-"
              ++ c.source_version
              ++ codes "+"
              ++ tag
              ++ codes "-"
              ++ c.target
              ++ codes "-dbgsym"
              ++ codes ".tar.zst")))
      i.postgresql (IsRecord-release_names repository tag r i n)
