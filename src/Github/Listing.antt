-- ===== src/Github/Listing.antt =====
-- src/postgresbuild/github.py: what `ReleasePage` and the loop over the pages collect.
use mathlib.Core.List.{append_assoc, append-nil}
use postgresbuild.Prelude.{
  is_nil, sym, ap, ◌∙◌, if_cases, ℕ, suc, zero, ◌+◌, ◌≤◌, ◌<◌, ◌≡◌, refl, subst, Bool, true, false,
  ◌||◌, not, Bool-cases, ◌⊎◌, inl, inr, Option, none, some, List, [], ◌∷◌, ◌++◌, any, length, leb,
  leb→le, ok, ok-eq, in-result, in-check, in-value, arith,
}
use postgresbuild.Prelude.Text.{
  Text, codes, text_eq, text_eq_comm, text_in, text_in-append, distinct, distinct-snoc,
}
use postgresbuild.Github.{StartTag, Web, Page, add_tag}
use postgresbuild.Github.Release.{
  empty_page, add_link, link_tag, handle_starttag, feed, read_page, collect,
}

abbrev crosses : List Text → List Text → Bool
crosses ts us = any (λ u. text_in u ts) us

crosses_cons :
    (t : Text) (ts us : List Text)
    → crosses (t ∷ ts) us ≡ false
    → (text_in t us ≡ false) × (crosses ts us ≡ false)
unfolding text_in
crosses_cons t ts [] h = (refl, refl)
crosses_cons t ts (u ∷ us) h =
    let (a, b) = crosses_cons t ts us (ground arith) in
    (ground (arith, text_eq_comm t u), ground arith)

distinct-append :
    (ts us : List Text)
    → distinct ts ≡ true
    → distinct us ≡ true
    → crosses ts us ≡ false
    → distinct (ts ++ us) ≡ true
unfolding text_in
distinct-append [] us h k n = k
distinct-append (t ∷ ts) us h k n =
    let (a, b) = crosses_cons t ts us n in
    ground (arith, distinct-append ts us, text_in-append t ts us)

add_tag-distinct : (t : Text) (ts : List Text) → distinct ts ≡ true → distinct (add_tag t ts) ≡ true
unfolding add_tag
add_tag-distinct t ts h = elim (Bool-cases (text_in t ts)) [
  | inl e ↦ rw e h
  | inr e ↦ rw e (distinct-snoc ts t h e)
]

few_of : (n : ℕ) (b : Bool) → (leb 100 n || b) ≡ false → n < 100
few_of n b h = ground arith

module _ (web : Web) where
  add_link-distinct :
      (o : Option Text) (ts : List Text) → distinct ts ≡ true → distinct (add_link web o ts) ≡ true
  add_link-distinct none ts h = h
  add_link-distinct (some t) ts h = add_tag-distinct t ts h

  handle_starttag-distinct :
      (repository : Text) (t : StartTag) (p : Page)
      → distinct p.tags ≡ true
      → distinct (handle_starttag web repository t p).tags ≡ true
  unfolding handle_starttag
  handle_starttag-distinct repository t p h = elim (Bool-cases (text_eq t.name (codes "a"))) [
    | inl e ↦ rw e (add_link-distinct (link_tag web repository t.attrs) p.tags h)
    | inr e ↦ rw e h
  ]

  feed-distinct :
      (repository : Text) (ts : List StartTag) (p : Page)
      → distinct p.tags ≡ true
      → distinct (feed web repository ts p).tags ≡ true
  unfolding feed
  feed-distinct repository [] p h = h
  feed-distinct repository (t ∷ ts) p h =
      feed-distinct repository ts _ (handle_starttag-distinct repository t p h)

  read_page-distinct :
      (url : Text) (page : ℕ) {p : Page} → read_page web url page ≡ ok p → distinct p.tags ≡ true
  unfolding read_page
  read_page-distinct url page h = in-result _ _ h (λ answer _ h. in-check _ _ _ h (λ _ h.
      in-value _ _ _ h (λ repository _ h.
        subst (λ (q : Page). distinct q.tags ≡ true) (ok-eq h)
          (feed-distinct repository (web.start_tags answer.text) empty_page refl))))

  -- The pages from one on, before a later one: each could be read, has tags and names a next page;
  -- and their tags, in order.
  pub data ArePages (url : Text) : ℕ → ℕ → List Text → Type 0 where
    no_page : {page : ℕ} → ArePages url page page []
    and_page :
        {page end : ℕ} {p : Page} {tags : List Text}
        → read_page web url page ≡ ok p
        → is_nil p.tags ≡ false
        → p.has_next ≡ true
        → ArePages url (suc page) end tags
        → ArePages url page end (p.tags ++ tags)

  -- The tags are those found before, if any, and those of the pages from the first one on: of the
  -- pages before the last, with which there are fewer than 100 tags, and of the last, with which
  -- there are 100 or more or which names no next page.
  pub record IsComplete (url : Text) (first limit : ℕ) (before tags : List Text) : Type 0 where
    pub once : distinct tags ≡ true
    pub earlier : List Text
    pub last : ℕ
    pub page : Page
    pub pages : ArePages url first last earlier
    pub few : length (before ++ earlier) < 100
    pub bounded : last < limit
    pub read : read_page web url last ≡ ok page
    pub nonempty : is_nil page.tags ≡ false
    pub tags_of : tags ≡ before ++ (earlier ++ page.tags)
    pub stopped : (100 ≤ length tags) ⊎ (page.has_next ≡ false)

  stopped_of :
      (tags : List Text) (p : Page)
      → (leb 100 (length tags) || not p.has_next) ≡ true
      → (100 ≤ length tags) ⊎ (p.has_next ≡ false)
  stopped_of tags p c = elim (Bool-cases (leb 100 (length tags))) [
    | inl e ↦ inl (leb→le 100 (length tags) e)
    | inr e ↦ inr (ground arith)
  ]

  -- A page before the others.
  IsComplete-page :
      (url : Text) {page limit : ℕ} (before : List Text) (p : Page) {tags : List Text}
      → read_page web url page ≡ ok p
      → is_nil p.tags ≡ false
      → p.has_next ≡ true
      → IsComplete url (suc page) limit (before ++ p.tags) tags
      → IsComplete url page limit before tags
  IsComplete-page url before p r n t i = record {
    once = i.once;
    earlier = p.tags ++ i.earlier;
    last = i.last;
    page = i.page;
    pages = and_page r n t i.pages;
    few = subst (λ ts. length ts < 100) (append_assoc before p.tags i.earlier) i.few;
    bounded = i.bounded;
    read = i.read;
    nonempty = i.nonempty;
    tags_of =
        i.tags_of
        ∙ append_assoc before p.tags (i.earlier ++ i.page.tags)
        ∙ ap (λ ts. before ++ ts) (sym (append_assoc p.tags i.earlier i.page.tags));
    stopped = i.stopped;
  }

  collect-IsComplete :
      (url : Text) (n page : ℕ) (before : List Text) {out : List Text}
      → distinct before ≡ true
      → length before < 100
      → collect web url n page before ≡ ok out
      → IsComplete url page (page + n) before out
  unfolding collect
  collect-IsComplete url zero page before d f h = cc
  collect-IsComplete url (suc n) page before {out} d f h = in-result _ _ h (λ p r h.
      in-check _ _ _ h (λ g h.
        let once : distinct (before ++ p.tags) ≡ true =
          distinct-append before p.tags d (read_page-distinct url page r) (ground arith) in
        elim (if_cases (leb 100 (length (before ++ p.tags)) || not p.has_next) h) [
          | inl (c, q) ↦ subst (IsComplete url page (page + suc n) before) (ok-eq q) (record {
            once = once;
            earlier = [];
            last = page;
            page = p;
            pages = no_page;
            few = subst (λ ts. length ts < 100) (sym (append-nil before)) f;
            bounded = omega arith;
            read = r;
            nonempty = ground arith;
            tags_of = refl;
            stopped = stopped_of _ p c;
          })
          | inr (c, q) ↦ IsComplete-page url before p r (ground arith) (ground arith) (
              subst (λ limit. IsComplete url (suc page) limit (before ++ p.tags) out) (omega arith)
                (collect-IsComplete url n (suc page) (before ++ p.tags) once (few_of _ _ c) q))
        ]))

  -- The tags that the loop over the pages returns are those of the pages 1, 2 and so on, in this
  -- order and without repetition, up to a last page, at most the tenth. Each of the pages could be
  -- read and has tags; each before the last names a next page, and those together have fewer than
  -- 100 tags; the last names no next page, or with it there are 100 tags or more.
  pub listing-IsComplete :
      (url : Text) {tags : List Text}
      → collect web url 10 1 [] ≡ ok tags
      → IsComplete url 1 11 [] tags
  listing-IsComplete url h = collect-IsComplete url 10 1 [] refl (omega arith) h
