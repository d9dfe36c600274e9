-- ===== src/Tests/Stores.antt =====
-- A blob store in memory, and two calls of `materialize` that race on it. An entity tag is the
-- content that it stands for.
use postgresbuild.Prelude.{
  ◌≡◌, refl, Bool, true, false, Option, none, some, List, [], ◌∷◌, In, here, there, if◌then◌else◌,
  Bool-cases, inl, inr, ap, sym, ◌∙◌, subst,
}
use postgresbuild.Prelude.Text.{Text, text_eq, text_eq-eq}
use postgresbuild.Publication.Materialize.{Etag, etag_of}
use postgresbuild.Publication.Materialize.Encoding.{Bytes}
use postgresbuild.Publication.Materialize.Store.{BlobStore, content_of}

pub record Memory : Type 0 where
  pub index : Option Bytes
  pub blobs : List (Text × Bytes)

abbrev pub contents : List (Text × Bytes) → List Bytes
contents [] = []
contents ((path, content) ∷ bs) = content ∷ contents bs

abbrev pub tagged : Option Bytes → Option (Bytes × Etag)
tagged none = none
tagged (some c) = some (c, c)

abbrev behind : Text × Bytes → Option (List (Text × Bytes)) → Option (List (Text × Bytes))
behind b none = none
behind b (some bs) = some (b ∷ bs)

-- The same path twice is a conflict unless the content is the same.
unfoldable pub put_blob : Text → Bytes → List (Text × Bytes) → Option (List (Text × Bytes))
unfolding text_eq
put_blob path content [] = some ((path, content) ∷ [])
put_blob path content ((p, c) ∷ bs) =
    let rest = put_blob path content bs in
    if text_eq p path
    then (if text_eq c content then some ((p, c) ∷ bs) else none)
    else behind (p, c) rest

abbrev pub same_etag : Option Etag → Option Bytes → Bool
same_etag none none = true
same_etag (some e) (some c) = text_eq e c
same_etag _ _ = false

abbrev with_blobs : Option Bytes → Option (List (Text × Bytes)) → Option Memory
with_blobs i none = none
with_blobs i (some bs) = some (record { index = i; blobs = bs })

unfoldable pub write : Text → Bytes → Memory → Option Memory
unfolding put_blob
write path content s = with_blobs s.index (put_blob path content s.blobs)

unfoldable pub swap : Bytes → Option Etag → Memory → Bool × Memory
unfolding text_eq
swap content etag s =
    if same_etag etag s.index
    then (true, record { index = some content; blobs = s.blobs })
    else (false, s)

abbrev Fits : Bytes → List (Text × Bytes) → Option (List (Text × Bytes)) → Type 0
Fits content bs none = Unit {0}
Fits content bs (some cs) =
    In content (contents cs) × ((raw : Bytes) → In raw (contents bs) → In raw (contents cs))

put_here :
    (p : Text) (c content : Bytes) (bs : List (Text × Bytes)) (b : Bool)
    → text_eq c content ≡ b
    → Fits content ((p, c) ∷ bs) (if b then some ((p, c) ∷ bs) else none)
put_here p c content bs true e = (here (sym (text_eq-eq c content e)), λ raw m. m)
put_here p c content bs false e = tt

put_there :
    (p : Text) (c content : Bytes) (bs : List (Text × Bytes)) (o : Option (List (Text × Bytes)))
    → Fits content bs o
    → Fits content ((p, c) ∷ bs) (behind (p, c) o)
put_there p c content bs none f = tt
put_there p c content bs (some cs) f =
    (there f.0, λ raw m. elim m [ here e ↦ here e | there n ↦ there (f.1 raw n) ])

put-Fits :
    (path : Text) (content : Bytes) (bs : List (Text × Bytes))
    → Fits content bs (put_blob path content bs)
unfolding put_blob
put-Fits path content [] = (here refl, λ raw m. elim m [ ])
put-Fits path content ((p, c) ∷ bs) =
    with_test (text_eq p path)
      (put_there p c content bs (put_blob path content bs) (put-Fits path content bs))
  where
    with_test :
        (b : Bool)
        → Fits content ((p, c) ∷ bs) (behind (p, c) (put_blob path content bs))
        → Fits content ((p, c) ∷ bs) (
            if b
            then (if text_eq c content then some ((p, c) ∷ bs) else none)
            else behind (p, c) (put_blob path content bs))
    with_test true f = put_here p c content bs (text_eq c content) refl
    with_test false f = f

abbrev pub Written : Bytes → Memory → Option Memory → Type 0
Written content s none = Unit {0}
Written content s (some s') =
    (s'.index ≡ s.index)
    × In content (contents s'.blobs)
    × ((raw : Bytes) → In raw (contents s.blobs) → In raw (contents s'.blobs))

write-Written :
    (path : Text) (content : Bytes) (s : Memory) → Written content s (write path content s)
unfolding write
write-Written path content s =
    with_result (put_blob path content s.blobs) (put-Fits path content s.blobs)
  where
    with_result :
        (o : Option (List (Text × Bytes)))
        → Fits content s.blobs o
        → Written content s (with_blobs s.index o)
    with_result none f = tt
    with_result (some bs) f = (refl, f.0, f.1)

pub write_lem :
    (path : Text) (content : Bytes) (s : Memory) {s' : Memory}
    → write path content s ≡ some s'
    → Written content s (some s')
write_lem path content s h = subst (Written content s) h (write-Written path content s)

pub etag_of-tagged : (i : Option Bytes) → etag_of (tagged i) ≡ i
etag_of-tagged none = refl
etag_of-tagged (some c) = refl

pub content_of-tagged : (i : Option Bytes) → content_of (tagged i) ≡ i
content_of-tagged none = refl
content_of-tagged (some c) = refl

same_etag-eq : (e : Option Etag) (i : Option Bytes) → same_etag e i ≡ true → i ≡ e
same_etag-eq none none h = refl
same_etag-eq none (some c) h = cc
same_etag-eq (some e) none h = cc
same_etag-eq (some e) (some c) h = ap some (sym (text_eq-eq e c h))

-- A swap on each side of its test.
pub swap_lem :
    (content : Bytes) (etag : Option Etag) (s : Memory)
    → (((swap content etag s).0 ≡ true)
        → (s.index ≡ etag) × ((swap content etag s).1.index ≡ some content))
      × (((swap content etag s).0 ≡ false) → (swap content etag s).1.index ≡ s.index)
      × ((swap content etag s).1.blobs ≡ s.blobs)
unfolding swap
swap_lem content etag s = elim (Bool-cases (same_etag etag s.index)) [
  | inl e ↦ rw e ((λ _. (same_etag-eq etag s.index e, refl)), (λ h. cc), refl)
  | inr e ↦ rw e ((λ h. cc), (λ _. refl), refl)
]

pub tagged-eq : (i : Option Bytes) {c : Bytes} {e : Etag} → tagged i ≡ some (c, e) → e ≡ c
tagged-eq none h = cc
tagged-eq (some d) h = cc

abbrev pub memory : BlobStore
memory = record {
  State = Memory;
  read_index = λ s. tagged s.index;
  stored = λ s. contents s.blobs;
  write_fragment = write;
  swap_index = swap;
  write_adds = λ tag content s h. (write_lem _ content s h).1;
  write_keeps = λ path content s h m. (write_lem path content s h).2 _ m;
  write_index = λ path content s h. ap tagged (write_lem path content s h).0;
  swap_match = λ content etag s h. etag_of-tagged s.index ∙ ((swap_lem content etag s).0 h).0;
  swap_won = λ content etag s h. content_of-tagged _ ∙ ((swap_lem content etag s).0 h).1;
  swap_lost = λ content etag s h. ap tagged ((swap_lem content etag s).1 h);
  swap_stored = λ content etag s. ap contents (swap_lem content etag s).2;
  content_by_etag = λ e. e;
  etag_strong = λ s h. tagged-eq s.index h;
}
