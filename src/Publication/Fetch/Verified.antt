-- ===== src/Publication/Fetch/Verified.antt =====
-- What reaches `publish_artifact`: archives whose bytes have been compared with the snapshot.
use mathlib.Core.List.Permᴰ
use postgresbuild.Prelude.{
  ◌≡◌, refl, sym, ap, ◌∙◌, Bool, true, false, none, some, List, [], ◌∷◌, ◌++◌, keep-In, In-keep,
  length, ◌⊎◌, inl, inr, subst, In, here, there, In-append_cases, In-append_left, In-append_right,
  if◌then◌else◌, Result, ok, err, ok-eq, in-check, in-value, in-result,
}
use postgresbuild.Prelude.Text.{Text, text_eq-eq}
use postgresbuild.Prelude.Int.{pos, int_eq-eq}
use postgresbuild.Prelude.Sort.{sort-perm, In-perm}
use postgresbuild.Publication.Record.{primary_archive, role_eq, is_public, File, Record}
use postgresbuild.Publication.Materialize.Encoding.{Bytes}
use postgresbuild.Publication.Fetch.{
  Reader, Artifact, Calls, Publisher, artifact, name_le, files_of, public_items, download, offer,
  then_call, if_read, fetch_items,
}

files_of-In :
    (rs : List Record) {f : File} → In f (files_of rs) → (r : Record) × In r rs × In f r.files
files_of-In [] m = elim m [ ]
files_of-In (r ∷ rs) m = elim (In-append_cases r.files m) [
  | inl i ↦ (r, here refl, i)
  | inr i ↦ let (x, j, k) = files_of-In rs i in (x, there j, k)
]

In-files_of :
    {r : Record} {rs : List Record} {f : File} → In r rs → In f r.files → In f (files_of rs)
In-files_of {rs = []} i m = elim i [ ]
In-files_of {rs = r ∷ rs} {f} (here e) m =
    In-append_left (files_of rs) (subst (λ (x : Record). In f x.files) e m)
In-files_of {rs = r ∷ rs} (there i) m = In-append_right r.files (In-files_of i m)

abbrev is_archive : File → Bool
is_archive f = is_public f.role

pub public_items-In :
    (rs : List Record) {f : File} → In f (public_items rs) → (r : Record) × In r rs × In f r.files
unfolding public_items
public_items-In rs m =
    files_of-In rs
      (keep-In is_archive (files_of rs) (In-perm (Permᴰ.symm (sort-perm name_le _)) m)).0

pub In-public_items :
    (rs : List Record) {r : Record} {f : File}
    → In r rs
    → In f r.files
    → is_public f.role ≡ true
    → In f (public_items rs)
unfolding public_items
In-public_items rs i m h = In-perm (sort-perm name_le _) (In-keep is_archive (In-files_of i m) h)

-- The bytes are those that the snapshot describes.
pub record IsContent (hexdigest : Bytes → Text) (f : File) (content : Bytes) : Type 0 where
  pub size : f.size ≡ pos (length content)
  pub digest : hexdigest content ≡ f.sha256

-- The calls of a run that goes on with another.
pub then_call-In :
    {A : Type 0} (first : Calls (Unit {0})) (later : Calls A) {a : Artifact}
    → In a (then_call first later).0
    → In a first.0 ⊎ In a later.0
then_call-In (calls, ok u) (more, r) m = In-append_cases calls m
then_call-In (calls, err e) later m = inl m

module _ (hexdigest : Bytes → Text) (reader : Reader) where
  download-IsContent :
      (f : File) {content : Bytes}
      → download hexdigest reader f ≡ ok content
      → IsContent hexdigest f content
  unfolding download
  download-IsContent f h = in-value _ _ _ h (λ url _ h. in-result _ _ h (λ c _ h.
      in-check _ _ _ h (λ s h. in-check _ _ _ h (λ d h.
        subst (IsContent hexdigest f) (ok-eq h)
          (record { size = sym (int_eq-eq _ _ s); digest = text_eq-eq _ _ d })))))

  module _ (publish : Publisher) (tag : Text) where
    -- The call was made for this file, with its bytes.
    pub record IsOffer (a : Artifact) (f : File) : Type 0 where
      pub made : a ≡ artifact tag f a.content
      pub role : role_eq primary_archive f.role ≡ true
      pub content : IsContent hexdigest f a.content

    offer-IsOffer :
        (p : Publisher) (f : File) (content : Bytes) {a : Artifact}
        → IsContent hexdigest f content
        → In a (offer tag p f content).0
        → IsOffer a f
    unfolding offer
    offer-IsOffer none f content c m = elim m [ ]
    offer-IsOffer (some p) f content {a} c m = with_test (role_eq primary_archive f.role) refl m
      where
        with_test :
            (b : Bool)
            → role_eq primary_archive f.role ≡ b
            → In a
                (if◌then◌else◌ {A = Calls (Unit {0})} b
                  (artifact tag f content ∷ [], p (artifact tag f content))
                  ([], ok tt)).0
            → IsOffer a f
        with_test true e (here q) =
            subst (λ (x : Artifact). IsOffer x f) (sym q)
              (record { made = refl; role = e; content = c })
        with_test true e (there n) = elim n [ ]
        with_test false e n = elim n [ ]

    pub fetch_items-In :
        (fs : List File) {a : Artifact}
        → In a (fetch_items hexdigest reader publish tag fs).0
        → (f : File) × In f fs × IsOffer a f
    unfolding fetch_items
    fetch_items-In [] m = elim m [ ]
    fetch_items-In (f ∷ fs) {a} m =
        with_read (download hexdigest reader f) refl (λ n. fetch_items-In fs n) m
      where
        with_read :
            (r : Result Bytes)
            → download hexdigest reader f ≡ r
            → (In a (fetch_items hexdigest reader publish tag fs).0
                → (g : File) × In g fs × IsOffer a g)
            → In a
                (if_read r (λ content.
                  then_call
                    (offer tag publish f content)
                    (fetch_items hexdigest reader publish tag fs))).0
            → (g : File) × In g (f ∷ fs) × IsOffer a g
        with_read (ok content) e rest m = elim (then_call-In (offer tag publish f content) _ m) [
          | inl n ↦ (f, here refl, offer-IsOffer publish f content (download-IsContent f e) n)
          | inr n ↦ let (g, i, o) = rest n in (g, there i, o)
        ]
        with_read (err x) e rest m = elim m [ ]

  pub then_call-eq-ok :
      {A : Type 0} (first : Calls (Unit {0})) (later : Calls A) {out : A}
      → (then_call first later).1 ≡ ok out
      → (later.1 ≡ ok out) × ((then_call first later).0 ≡ first.0 ++ later.0) × (first.1 ≡ ok tt)
  then_call-eq-ok (calls, ok u) (more, r) h = (h, refl, refl)
  then_call-eq-ok (calls, err e) later h = cc

  module _ (p : Artifact → Result (Unit {0})) (tag : Text) where
    offer-primary :
        (f : File) (content : Bytes)
        → role_eq primary_archive f.role ≡ true
        → In (artifact tag f content) (offer tag (some p) f content).0
    unfolding offer
    offer-primary f content e = rw e (here refl)

    -- A loop that ends well has offered every primary archive.
    pub fetch_items_complete :
        (fs : List File) {f : File}
        → (fetch_items hexdigest reader (some p) tag fs).1 ≡ ok tt
        → In f fs
        → role_eq primary_archive f.role ≡ true
        → (content : Bytes) × In
            (artifact tag f content)
            (fetch_items hexdigest reader (some p) tag fs).0
    unfolding fetch_items
    fetch_items_complete [] h m e = elim m [ ]
    fetch_items_complete (g ∷ fs) {f} h m e =
        with_read (download hexdigest reader g) (λ q n. fetch_items_complete fs q n e) h m
      where
        rest : Calls (Unit {0})
        rest = fetch_items hexdigest reader (some p) tag fs

        with_read :
            (r : Result Bytes)
            → (rest.1 ≡ ok tt → In f fs → (content : Bytes) × In (artifact tag f content) rest.0)
            → (if_read r (λ content. then_call (offer tag (some p) g content) rest)).1 ≡ ok tt
            → In f (g ∷ fs)
            → (content : Bytes) × In
                (artifact tag f content)
                (if_read r (λ content. then_call (offer tag (some p) g content) rest)).0
        with_read (err x) later h m = cc
        with_read (ok content) later h (here q) =
            let (_, w, _) = then_call-eq-ok (offer tag (some p) g content) rest h in
            (
              content,
              subst (In (artifact tag f content)) (sym w) (
                  In-append_left rest.0 (
                    subst
                      (λ (x : File). In (artifact tag x content) (offer tag (some p) g content).0)
                      (sym q)
                      (offer-primary g content
                        (ap (λ (x : File). role_eq primary_archive x.role) (sym q) ∙ e)))),
            )
        with_read (ok content) later h (there n) =
            let (k, w, _) = then_call-eq-ok (offer tag (some p) g content) rest h in
            let (c, i) = later k n in
            (
              c,
              subst (In (artifact tag f c)) (sym w)
                  (In-append_right (offer tag (some p) g content).0 i),
            )
