-- ===== src/Tests/Blobs.antt =====
-- `put_immutable` on a service that keeps its blobs in a list.
use postgresbuild.Prelude.{
  ℕ, ◌≡◌, refl, ◌==◌, sym, ap, subst, ◌∙◌, ok-eq, ◌>>=◌, Bool, true, false, Bool-cases, inl, inr,
  Option, none, some, List, [], ◌∷◌, Result, ok, if◌then◌else◌,
}
use postgresbuild.Prelude.Text.{Text, codes, text_eq, text_eq_refl, text_eq-eq}
use postgresbuild.Json.{str}
use postgresbuild.Publication.Record.{raise_value}
use postgresbuild.Publication.Materialize.Encoding.{Bytes}
use postgresbuild.Blob.{Service, put_immutable}
use postgresbuild.Blob.Immutable.{put_immutable-stores, put_immutable-keeps}

abbrev is_success : ℕ → Bool
is_success status = status == 200

abbrev Blobs : Type 0
Blobs = List (Text × Bytes)

abbrev find_blob : Text → Blobs → Option Bytes
find_blob path [] = none
find_blob path ((name, content) ∷ rest) =
    if text_eq name path then some content else find_blob path rest

-- 200 where the blob is stored, 400 where one is there that may not be overwritten.
abbrev put_new : Text → Bytes → Bool → Blobs → Option Bytes → Result ℕ × Blobs
put_new path content overwrite s none = (ok 200, (path, content) ∷ s)
put_new path content true s (some old) = (ok 200, (path, content) ∷ s)
put_new path content false s (some old) = (ok 400, s)

abbrev put_blob : Text → Bytes → Option Text → Bool → Blobs → Result ℕ × Blobs
put_blob path content tag overwrite s = put_new path content overwrite s (find_blob path s)

abbrev read_blob : Text → Blobs → Result (Option Bytes)
read_blob url s = ok (find_blob url s)

bool_absurd : {P : Type 0} → false ≡ true → P
bool_absurd h = cc

none_absurd : {P : Type 0} {b : Bytes} → none ≡ some b → P
none_absurd h = cc

put_new-stores :
    (path : Text) (content : Bytes) (overwrite : Bool) (s : Blobs) (o : Option Bytes) (status : ℕ)
    → (put_new path content overwrite s o).0 ≡ ok status
    → is_success status ≡ true
    → read_blob path (put_new path content overwrite s o).1 ≡ ok (some content)
put_new-stores path content overwrite s none status h k = rw (text_eq_refl path) refl
put_new-stores path content true s (some old) status h k = rw (text_eq_refl path) refl
put_new-stores path content false s (some old) status h k =
    bool_absurd (subst (λ n. is_success n ≡ true) (sym (ok-eq h)) k)

put_new-keeps :
    (path : Text) (content : Bytes) (s : Blobs) (o : Option Bytes) (url : Text) (old : Bytes)
    → find_blob path s ≡ o
    → read_blob url s ≡ ok (some old)
    → read_blob url (put_new path content false s o).1 ≡ ok (some old)
put_new-keeps path content s (some b) url old f h = h
put_new-keeps path content s none url old f h = elim (Bool-cases (text_eq path url)) [
  | inl e ↦ none_absurd (sym f ∙ ap (λ p. find_blob p s) (text_eq-eq path url e) ∙ ok-eq h)
  | inr e ↦ rw e h
]

abbrev service : Service
service = record {
  State = Blobs;
  public_url = λ path. path;
  is_success = is_success;
  read = read_blob;
  metadata = λ url s. ok (str url);
  put = put_blob;
  status_error = λ status. raise_value "status";
  put-stores = λ path content tag overwrite s status.
      put_new-stores path content overwrite s (find_blob path s) status;
  put-keeps =
      λ path content tag s url old. put_new-keeps path content s (find_blob path s) url old refl;
}

abbrev path : Text
path = codes "snapshots/202601020304.json"

abbrev content : Bytes
content = 1 ∷ 2 ∷ []

abbrev others : Blobs
others = (codes "index.json", 3 ∷ []) ∷ []

stored : (put_immutable service path content others).0 ≡ ok tt
unfolding put_immutable text_eq ◌>>=◌
stored = refl

put_immutable-stores_example :
    read_blob path (put_immutable service path content others).1 ≡ ok (some content)
put_immutable-stores_example = put_immutable-stores service path content others stored

put_immutable-keeps_example :
    read_blob (codes "index.json") (put_immutable service path content others).1
    ≡ ok (some (3 ∷ []))
unfolding text_eq
put_immutable-keeps_example =
    put_immutable-keeps service path content others (codes "index.json") (3 ∷ []) refl
