-- ===== src/Publication/Record/Files.antt =====
-- What the loop of `_validate_record` establishes of a record's files.
use mathlib.Core.List.{append-nil, append_assoc}
use mathlib.Core.Bool.{false≢true}
use postgresbuild.Prelude.{
  ◌≡◌, refl, sym, ap, ◌∙◌, true, false, Option, none, some, List, [], ◌∷◌, ◌++◌, arith,
  if◌then◌else◌, ok, >>=-eq-ok, >>-eq-ok, expect-eq-ok, ok-eq, not-eq-true, ||-eq-false, subst, In,
  here, there, In-append_cases, Bool-cases, inl, inr,
}
use postgresbuild.Prelude.Text.{
  Text, codes, text_eq-eq, text_in, distinct, distinct-snoc, ends_with,
}
use postgresbuild.Prelude.Int.{is_negative}
use postgresbuild.Json.{Json, Fields, get, has_key, as_dict, as_int, is_str, is_text}
use postgresbuild.Publication.Record.{
  Coordinate, Role, is_public, role_of, public_name, release_url, digest, nonempty_str, File,
  logical_names, release_names, public_file, private_file, check_file, check_files,
}

module _ (repository tag : Text) (c : Coordinate) where
  -- A file in a public role has the canonical name and address; any other has neither key.
  abbrev pub HasPublicName : Role → Option Text → Fields → Type 0
  HasPublicName role o m =
      if is_public role
      then (o ≡ some (public_name c role tag))
        × ((url : Text) × (release_url repository tag (public_name c role tag) ≡ ok url)
            × (is_str (get m "url") url ≡ true))
      else (o ≡ none) × (has_key m "release_name" ≡ false) × (has_key m "url" ≡ false)

  public_file-eq-ok :
      (names : List Text) (role : Role) (m : Fields) {o : Option Text}
      → public_file repository tag c names role m ≡ ok o
      → (o ≡ some (public_name c role tag))
        × (text_in (public_name c role tag) names ≡ false)
        × ((url : Text) × (release_url repository tag (public_name c role tag) ≡ ok url)
            × (is_str (get m "url") url ≡ true))
  unfolding public_file
  public_file-eq-ok names role m h =
      let (g1, h1) = >>-eq-ok _ _ _ h in
      let (g2, h2) = >>-eq-ok _ _ _ h1 in
      let (name, e3, h3) = expect-eq-ok _ _ _ h2 in
      let (g4, h4) = >>-eq-ok _ _ _ h3 in
      let (g5, h5) = >>-eq-ok _ _ _ h4 in
      let (url, e6, h6) = >>=-eq-ok _ _ h5 in
      let (g7, h7) = >>-eq-ok _ _ _ h6 in
      let e : name ≡ public_name c role tag = text_eq-eq name _ g5 in
      (sym (ok-eq h7) ∙ ap some e, rw e at (not-eq-true _ g4), (url, rw e at e6, g7))

  private_file-eq-ok :
      (m : Fields) {o : Option Text}
      → private_file m ≡ ok o
      → (o ≡ none) × (has_key m "release_name" ≡ false) × (has_key m "url" ≡ false)
  unfolding private_file
  private_file-eq-ok m h =
      let (g, k) = >>-eq-ok _ _ _ h in
      let (a, b) = ||-eq-false _ _ (not-eq-true _ g) in (sym (ok-eq k), a, b)

  -- One file that has passed, behind those of `seen`.
  pub record IsFile (f : File) : Type 0 where
    pub logical_name : nonempty_str (get f.source "logical_name") ≡ some f.logical_name
    pub role : role_of (get f.source "role") ≡ ok f.role
    pub sha256 : digest (get f.source "sha256") ≡ some f.sha256
    pub size : as_int (get f.source "size") ≡ some f.size
    pub natural : is_negative f.size ≡ false
    pub media_type : is_text (get f.source "media_type") ≡ true
    pub encoding : is_text (get f.source "encoding") ≡ true
    pub no_debug : ends_with f.logical_name (codes ".debug.tar.zst") ≡ false
    pub public_name : HasPublicName f.role f.release_name f.source

  pub record IsNext (seen : List File) (f : File) : Type 0 where
    pub valid : IsFile f
    pub new_logical : text_in f.logical_name (logical_names seen) ≡ false
    pub new_release :
        is_public f.role ≡ true → text_in (public_name c f.role tag) (release_names seen) ≡ false

  names-eq-ok :
      (seen : List File) (role : Role) (m : Fields) {o : Option Text}
      → (if is_public role
          then public_file repository tag c (release_names seen) role m
          else private_file m)
        ≡ ok o
      → HasPublicName role o m
        × (is_public role ≡ true → text_in (public_name c role tag) (release_names seen) ≡ false)
  names-eq-ok seen role m h = elim (Bool-cases (is_public role)) [
    | inl p ↦
        let (e, n, u) = public_file-eq-ok (release_names seen) role m (rw p at h) in
        (rw p (e, u), λ q. n)
    | inr p ↦ (rw p (private_file-eq-ok m (rw p at h)), λ q. absurd (false≢true (sym p ∙ q)))
  ]

  pub check_file-eq-ok :
      (seen : List File) (v : Json) (f : File)
      → check_file repository tag c seen v ≡ ok f
      → IsNext seen f
  unfolding check_file
  check_file-eq-ok seen v f h =
      let (m, e1, h1) = expect-eq-ok _ _ _ h in
      let (l, e2, h2) = expect-eq-ok _ _ _ h1 in
      let (g3, h3) = >>-eq-ok _ _ _ h2 in
      let (g4, h4) = >>-eq-ok _ _ _ h3 in
      let (r, e5, h5) = >>=-eq-ok _ _ h4 in
      let (s, e6, h6) = expect-eq-ok _ _ _ h5 in
      let (n, e7, h7) = expect-eq-ok _ _ _ h6 in
      let (g8, h8) = >>-eq-ok _ _ _ h7 in
      let (g9, h9) = >>-eq-ok _ _ _ h8 in
      let (g10, h10) = >>-eq-ok _ _ _ h9 in
      let (o, e11, h11) = >>=-eq-ok _ _ h10 in
      let (p, q) = names-eq-ok seen r m e11 in
      subst (IsNext seen) (ok-eq h11) (record {
        valid = record {
          logical_name = e2;
          role = e5;
          sha256 = e6;
          size = e7;
          natural = not-eq-true _ g8;
          media_type = g9;
          encoding = g10;
          no_debug = not-eq-true _ g4;
          public_name = p;
        };
        new_logical = not-eq-true _ g3;
        new_release = q;
      })

  logical_names-append :
      (fs : List File) (f : File)
      → logical_names (fs ++ f ∷ []) ≡ logical_names fs ++ f.logical_name ∷ []
  logical_names-append [] f = refl
  logical_names-append (g ∷ fs) f = ap (◌∷◌ g.logical_name) (logical_names-append fs f)

  release_names-append :
      (fs gs : List File) → release_names (fs ++ gs) ≡ release_names fs ++ release_names gs
  release_names-append [] gs = refl
  release_names-append (f ∷ fs) gs = ground (arith, release_names-append fs gs)

  -- The files so far: each has passed, and no name occurs twice.
  pub record AreFiles (fs : List File) : Type 0 where
    pub each : (f : File) → In f fs → IsFile f
    pub logical : distinct (logical_names fs) ≡ true
    pub release : distinct (release_names fs) ≡ true

  next-release :
      (fs : List File) (f : File)
      → IsNext fs f
      → distinct (release_names fs) ≡ true
      → distinct (release_names fs ++ release_names (f ∷ [])) ≡ true
  next-release fs f n h = elim (Bool-cases (is_public f.role)) [
    | inl p ↦
        let named : HasPublicName f.role f.release_name f.source = n.valid.public_name in
        let e : f.release_name ≡ some (public_name c f.role tag) = (rw p at named).0 in
        rw e (distinct-snoc (release_names fs) (public_name c f.role tag) h (n.new_release p))
    | inr p ↦
        let named : HasPublicName f.role f.release_name f.source = n.valid.public_name in
        let e : f.release_name ≡ none = (rw p at named).0 in rw (e, append-nil) h
  ]

  AreFiles-next : (fs : List File) (f : File) → AreFiles fs → IsNext fs f → AreFiles (fs ++ f ∷ [])
  AreFiles-next fs f a n = record {
    each = λ g m. elim (In-append_cases fs m) [
      | inl old ↦ a.each g old
      | inr (here e) ↦ subst IsFile (sym e) n.valid
      | inr (there i) ↦ elim i [ ]
    ];
    logical =
        rw (logical_names-append fs f)
          (distinct-snoc (logical_names fs) f.logical_name a.logical n.new_logical);
    release = rw (release_names-append fs (f ∷ [])) (next-release fs f n a.release);
  }

  -- The whole loop.
  pub check_files-AreFiles :
      (seen : List File) (vs : List Json) (fs : List File)
      → AreFiles seen
      → check_files repository tag c seen vs ≡ ok fs
      → AreFiles fs
  unfolding check_files
  check_files-AreFiles seen [] fs a h = subst AreFiles (ok-eq h) a
  check_files-AreFiles seen (v ∷ vs) fs a h =
      let (f, e, k) = >>=-eq-ok _ _ h in
      check_files-AreFiles (seen ++ f ∷ []) vs fs
        (AreFiles-next seen f a (check_file-eq-ok seen v f e)) k

  pub AreFiles-nil : AreFiles []
  AreFiles-nil = record { each = λ f m. elim m [ ]; logical = refl; release = refl }

  check_file-source :
      (seen : List File) (v : Json) (f : File)
      → check_file repository tag c seen v ≡ ok f
      → as_dict v ≡ some f.source
  unfolding check_file
  check_file-source seen v f h =
      let (m, e1, h1) = expect-eq-ok _ _ _ h in
      let (l, e2, h2) = expect-eq-ok _ _ _ h1 in
      let (g3, h3) = >>-eq-ok _ _ _ h2 in
      let (g4, h4) = >>-eq-ok _ _ _ h3 in
      let (r, e5, h5) = >>=-eq-ok _ _ h4 in
      let (s, e6, h6) = expect-eq-ok _ _ _ h5 in
      let (n, e7, h7) = expect-eq-ok _ _ _ h6 in
      let (g8, h8) = >>-eq-ok _ _ _ h7 in
      let (g9, h9) = >>-eq-ok _ _ _ h8 in
      let (g10, h10) = >>-eq-ok _ _ _ h9 in
      let (o, e11, h11) = >>=-eq-ok _ _ h10 in e1 ∙ ap (λ (g : File). some g.source) (ok-eq h11)

-- The files are made of the entries of a list, each of the one at its place, and none is left out.
pub data AreOf : List Json → List File → Type 0 where
  no_entry : AreOf [] []
  entry :
      {v : Json} {f : File} {vs : List Json} {fs : List File}
      → as_dict v ≡ some f.source
      → AreOf vs fs
      → AreOf (v ∷ vs) (f ∷ fs)

pub check_files-AreOf :
    (repository tag : Text) (c : Coordinate) (seen : List File) (vs : List Json) {fs : List File}
    → check_files repository tag c seen vs ≡ ok fs
    → (new : List File) × (fs ≡ seen ++ new) × AreOf vs new
unfolding check_files
check_files-AreOf repository tag c seen [] h = ([], sym (ok-eq h) ∙ sym (append-nil seen), no_entry)
check_files-AreOf repository tag c seen (v ∷ vs) h =
    let (f, e, k) = >>=-eq-ok _ _ h in
    let (new, q, a) = check_files-AreOf repository tag c (seen ++ f ∷ []) vs k in
    (
      f ∷ new,
      q ∙ append_assoc seen (f ∷ []) new,
      entry (check_file-source repository tag c seen v f e) a,
    )
