-- ===== src/Publication/Oidc/Keys.antt =====
-- publication.py, `_jwks` and `select`: where the keys come from, and how often GitHub is asked.
use postgresbuild.Prelude.{
  ℕ, ◌+◌, ◌≤◌, ◌≡◌, refl, ap, Bool, true, false, Bool-cases, inl, inr, Option, none, some, Result,
  ok, err, ltb, ◌-◌, arith,
}
use postgresbuild.Prelude.Text.{Text, text_eq-eq}
use postgresbuild.Json.{Json, null, bool, int, str, arr, obj, Fields, is_str}
use postgresbuild.Publication.Oidc.{
  World, Cache, Cached, jwks_ttl, key_set, keep_answer, answered, refresh, if_fresh, jwks,
}

pub is_str-eq : (v : Json) (t : Text) → is_str v t ≡ true → v ≡ str t
unfolding is_str
is_str-eq (str s) t h = ap str (text_eq-eq s t h)
is_str-eq null t h = cc
is_str-eq (bool b) t h = cc
is_str-eq (int n) t h = cc
is_str-eq (arr vs) t h = cc
is_str-eq (obj m) t h = cc

module _ (w : World) where
  -- The key server once answered with this document, and it is well formed.
  pub record IsServed (m : Fields) : Type 0 where
    pub time : ℕ
    pub value : Json
    pub answer : w.answer time ≡ ok value
    pub set : key_set value ≡ ok m

  unfoldable pub EntryIsServed : Option (ℕ × Fields) → Type 0
  EntryIsServed none = Unit {0}
  EntryIsServed (some (t, m)) = IsServed m

  -- A result whose document, and the cached one, are the server's.
  unfoldable pub IsServedBy : Cached Fields → Type 0
  unfolding EntryIsServed
  IsServedBy (err e, c) = EntryIsServed c.entry
  IsServedBy (ok m, c) = IsServed m × EntryIsServed c.entry

  pub IsServedBy-entry : (out : Cached Fields) → IsServedBy out → EntryIsServed out.1.entry
  unfolding IsServedBy
  IsServedBy-entry (err e, c) s = s
  IsServedBy-entry (ok m, c) s = s.1

  answered-IsServed :
      (n : ℕ) (r : Result Json) {m : Fields} → w.answer n ≡ r → answered w r ≡ ok m → IsServed m
  answered-IsServed n (err e) a h = cc
  answered-IsServed n (ok v) a h = record { time = n; value = v; answer = a; set = h }

  keep_answer-IsServedBy :
      (c : Cache) (r : Result Fields)
      → EntryIsServed c.entry
      → ((m : Fields) → r ≡ ok m → IsServed m)
      → IsServedBy (keep_answer w c r)
  unfolding IsServedBy EntryIsServed
  keep_answer-IsServedBy c (err e) s f = s
  keep_answer-IsServedBy c (ok m) s f = (f m refl, f m refl)

  refresh-IsServedBy : (c : Cache) → EntryIsServed c.entry → IsServedBy (refresh w c)
  unfolding refresh
  refresh-IsServedBy c s =
      keep_answer-IsServedBy c _ s (λ m h. answered-IsServed c.requests _ refl h)

  if_fresh-IsServedBy :
      (c : Cache) (o : Option (ℕ × Fields))
      → EntryIsServed o
      → EntryIsServed c.entry
      → IsServedBy (if_fresh w c o)
  unfolding IsServedBy EntryIsServed
  if_fresh-IsServedBy c none e s = refresh-IsServedBy c s
  if_fresh-IsServedBy c (some (t, m)) e s = elim (Bool-cases (ltb (w.clock c.reads - t) jwks_ttl)) [
    | inl h ↦ rw h (e, s)
    | inr h ↦ rw h (refresh-IsServedBy (record c { reads = c.reads + 1 }) s)
  ]

  pub jwks-IsServedBy :
      (force : Bool) (c : Cache) → EntryIsServed c.entry → IsServedBy (jwks w force c)
  unfolding jwks
  jwks-IsServedBy true c s = refresh-IsServedBy c s
  jwks-IsServedBy false c s = if_fresh-IsServedBy c c.entry s s

  keep_answer_requests :
      (c : Cache) (r : Result Fields) → (keep_answer w c r).1.requests ≡ c.requests + 1
  keep_answer_requests c (err e) = refl
  keep_answer_requests c (ok m) = refl

  pub refresh_requests : (c : Cache) → (refresh w c).1.requests ≡ c.requests + 1
  unfolding refresh
  refresh_requests c = keep_answer_requests c _

  if_fresh_requests :
      (c : Cache) (o : Option (ℕ × Fields)) → (if_fresh w c o).1.requests ≤ c.requests + 1
  if_fresh_requests c none = rw (refresh_requests c) (omega arith)
  if_fresh_requests c (some (t, m)) = elim (Bool-cases (ltb (w.clock c.reads - t) jwks_ttl)) [
    | inl h ↦ rw h (omega arith)
    | inr h ↦ rw (h, refresh_requests (record c { reads = c.reads + 1 })) (omega arith)
  ]

  pub jwks_requests : (force : Bool) (c : Cache) → (jwks w force c).1.requests ≤ c.requests + 1
  unfolding jwks
  jwks_requests true c = rw (refresh_requests c) (omega arith)
  jwks_requests false c = if_fresh_requests c c.entry
