-- ===== src/Blob/Immutable.antt =====
-- src/postgresbuild/blob.py: `put_immutable` stores, and never overwrites.
use postgresbuild.Prelude.{
  ℕ, ◌≡◌, refl, ap, ◌∙◌, false, Bool-cases, inl, inr, Option, none, some, Exn, Result, ok, err,
  ok-eq, in-result, guard-eq-ok,
}
use postgresbuild.Prelude.Text.{Text, text_eq-eq}
use postgresbuild.Publication.Materialize.Encoding.{Bytes}
use postgresbuild.Blob.{
  Service, with_etag, get_blob, or_raise, unless_stored, after_put, unless_existing, put_immutable,
}

abbrev first_of : Option (Bytes × Text) → Option Bytes
first_of none = none
first_of (some (b, t)) = some b

pair-eq :
    {a b : Bytes} {s t : Text}
    → ◌≡◌ {A = Option (Bytes × Text)} (some (a, s)) (some (b, t))
    → some a ≡ some b
pair-eq h = ap first_of h

module _ (service : Service) where
  open service use {State, public_url, read, put, is_success}

  with_etag-eq-some :
      (url : Text) (s : State) (found : Option Bytes) {content : Bytes} {tag : Text}
      → with_etag service url s found ≡ ok (some (content, tag))
      → found ≡ some content
  with_etag-eq-some url s none h = cc
  with_etag-eq-some url s (some b) h = in-result _ _ h (λ t _ h. pair-eq (ok-eq h))

  get_blob-eq-some :
      (path : Text) (s : State) {content : Bytes} {tag : Text}
      → get_blob service path s ≡ ok (some (content, tag))
      → read (public_url path) s ≡ ok (some content)
  unfolding get_blob
  get_blob-eq-some path s h =
      in-result _ _ h (λ found r h. r ∙ ap ok (with_etag-eq-some (public_url path) s found h))

  or_raise-ok :
      (content : Bytes) (e : Exn) (existing : Option (Bytes × Text))
      → or_raise service content e existing ≡ ok tt
      → (tag : Text) × (existing ≡ some (content, tag))
  or_raise-ok content e none h = cc
  or_raise-ok content e (some (old, tag)) h =
      (tag, ap (λ (b : Bytes). some (b, tag)) (text_eq-eq old content (guard-eq-ok _ _ h)))

  unless_stored-ok :
      (path : Text) (content : Bytes) (e : Exn) (s : State)
      → unless_stored service path content e s ≡ ok tt
      → read (public_url path) s ≡ ok (some content)
  unless_stored-ok path content e s h = in-result _ _ h (λ existing g h.
      let (tag, q) = or_raise-ok content e existing h in get_blob-eq-some path s (g ∙ ap ok q))

  after_put-stores :
      (path : Text) (content : Bytes) (s : State) (answer : Result ℕ)
      → (put path content none false s).0 ≡ answer
      → (after_put service path content (answer, (put path content none false s).1)).0 ≡ ok tt
      → read
          (public_url path)
          (after_put service path content (answer, (put path content none false s).1)).1
        ≡ ok (some content)
  after_put-stores path content s (err e) a h = cc
  after_put-stores path content s (ok status) a h = elim (Bool-cases (is_success status)) [
    | inl e ↦ rw e (service.put-stores path content none false s status a e)
    | inr e ↦ rw e (unless_stored-ok path content _ _ (rw e at h))
  ]

  unless_existing-stores :
      (path : Text) (content : Bytes) (s : State) (found : Result (Option (Bytes × Text)))
      → get_blob service path s ≡ found
      → (unless_existing service path content s found).0 ≡ ok tt
      → read (public_url path) (unless_existing service path content s found).1 ≡ ok (some content)
  unless_existing-stores path content s (err e) g h = cc
  unless_existing-stores path content s (ok none) g h = after_put-stores path content s _ refl h
  unless_existing-stores path content s (ok (some (old, tag))) g h =
      get_blob-eq-some path s g
      ∙ ap (λ (b : Bytes). ok (some b)) (text_eq-eq old content (guard-eq-ok _ _ h))

  -- Where `put_immutable` returns, the blob at the path has the given content.
  pub put_immutable-stores :
      (path : Text) (content : Bytes) (s : State)
      → (put_immutable service path content s).0 ≡ ok tt
      → read (public_url path) (put_immutable service path content s).1 ≡ ok (some content)
  unfolding put_immutable
  put_immutable-stores path content s h = unless_existing-stores path content s _ refl h

  after_put-keeps :
      (path : Text) (content : Bytes) (answer : Result ℕ) (s : State)
      → (after_put service path content (answer, s)).1 ≡ s
  after_put-keeps path content (err e) s = refl
  after_put-keeps path content (ok status) s = elim (Bool-cases (is_success status)) [
    | inl e ↦ rw e refl
    | inr e ↦ rw e refl
  ]

  unless_existing-keeps :
      (path : Text) (content : Bytes) (s : State) (found : Result (Option (Bytes × Text)))
      (url : Text) (old : Bytes)
      → read url s ≡ ok (some old)
      → read url (unless_existing service path content s found).1 ≡ ok (some old)
  unless_existing-keeps path content s (err e) url old h = h
  unless_existing-keeps path content s (ok none) url old h =
      ap (read url) (
        after_put-keeps path content (put path content none false s).0
          (put path content none false s).1)
      ∙ service.put-keeps path content none s url old h
  unless_existing-keeps path content s (ok (some (b, tag))) url old h = h

  -- A blob that is stored is still there, with the same content, after every call of
  -- `put_immutable`, for its own path or another, also after one that fails.
  pub put_immutable-keeps :
      (path : Text) (content : Bytes) (s : State) (url : Text) (old : Bytes)
      → read url s ≡ ok (some old)
      → read url (put_immutable service path content s).1 ≡ ok (some old)
  unfolding put_immutable
  put_immutable-keeps path content s url old h = unless_existing-keeps path content s _ url old h
