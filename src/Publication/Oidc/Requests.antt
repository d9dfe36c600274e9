-- ===== src/Publication/Oidc/Requests.antt =====
-- publication.py, `_jwks` and `verify_github_oidc`: the cache of keys and the requests for them.
use postgresbuild.Prelude.{
  ℕ, ◌+◌, ◌≤◌, ◌≡◌, refl, ap, ◌∙◌, Bool, true, false, Option, none, some, Result, ok, err, ok-eq,
  arith, ltb, ◌-◌,
}
use postgresbuild.Prelude.Text.{Text}
use postgresbuild.Json.{Json, Fields}
use postgresbuild.Publication.Platform.{Platform}
use postgresbuild.Publication.Policy.{Policy}
use postgresbuild.Publication.Oidc.{
  Jwt, World, Cache, Cached, jwks_ttl, key_set, answered, refresh, if_fresh, jwks, select,
  select_in, or_forced, find_key, with_key, checked_claims, with_kid, key_id, verify_github_oidc,
}
use postgresbuild.Publication.Oidc.Keys.{
  EntryIsServed, IsServedBy-entry, jwks-IsServedBy, jwks_requests,
}

module _ (jwt : Jwt) (platform : Platform) (policy : Policy) (w : World) where
  open jwt use {Key}

  -- The parts behind `jwks` do not touch the cache.
  select_in_cache :
      (kid : Text) (out : Cached Fields) → (select_in jwt platform policy w kid out).1 ≡ out.1
  select_in_cache kid (err e, c) = refl
  select_in_cache kid (ok m, c) = refl

  with_key_cache :
      (token audience : Text) (out : Cached (Option Key))
      → (with_key jwt platform policy w token audience out).1 ≡ out.1
  with_key_cache token audience (err e, c) = refl
  with_key_cache token audience (ok found, c) = refl

  or_forced_requests :
      (kid : Text) (out : Cached (Option Key))
      → (or_forced jwt platform policy w kid out).1.requests ≤ out.1.requests + 1
  or_forced_requests kid (err e, c) = omega arith
  or_forced_requests kid (ok none, c) =
      rw (select_in_cache kid (jwks w true c)) (jwks_requests w true c)
  or_forced_requests kid (ok (some k), c) = omega arith

  find_key_requests :
      (kid : Text) (c : Cache) → (find_key jwt platform policy w kid c).1.requests ≤ c.requests + 2
  unfolding find_key
  find_key_requests kid c =
      let first = select_in jwt platform policy w kid (jwks w false c) in
      let a = or_forced_requests kid first in
      let b = jwks_requests w false c in
      let e = ap (λ (x : Cache). x.requests) (select_in_cache kid (jwks w false c)) in omega arith

  with_kid_requests :
      (token audience : Text) (c : Cache) (id : Result Text)
      → (with_kid jwt platform policy w token audience c id).1.requests ≤ c.requests + 2
  with_kid_requests token audience c (err e) = omega arith
  with_kid_requests token audience c (ok kid) =
      rw (with_key_cache token audience (find_key jwt platform policy w kid c))
        (find_key_requests kid c)

  -- Every call of `verify_github_oidc`, also one that fails, asks the key server at most twice.
  pub verify_requests :
      (token audience : Text) (c : Cache)
      → (verify_github_oidc jwt platform policy w token audience c).1.requests ≤ c.requests + 2
  unfolding verify_github_oidc
  verify_requests token audience c = with_kid_requests token audience c _

  jwks-EntryIsServed :
      (force : Bool) (c : Cache)
      → EntryIsServed w c.entry
      → EntryIsServed w (jwks w force c).1.entry
  jwks-EntryIsServed force c s = IsServedBy-entry w (jwks w force c) (jwks-IsServedBy w force c s)

  or_forced-EntryIsServed :
      (kid : Text) (out : Cached (Option Key))
      → EntryIsServed w out.1.entry
      → EntryIsServed w (or_forced jwt platform policy w kid out).1.entry
  or_forced-EntryIsServed kid (err e, c) s = s
  or_forced-EntryIsServed kid (ok none, c) s =
      rw (select_in_cache kid (jwks w true c)) (jwks-EntryIsServed true c s)
  or_forced-EntryIsServed kid (ok (some k), c) s = s

  with_kid-EntryIsServed :
      (token audience : Text) (c : Cache) (id : Result Text)
      → EntryIsServed w c.entry
      → EntryIsServed w (with_kid jwt platform policy w token audience c id).1.entry
  unfolding find_key
  with_kid-EntryIsServed token audience c (err e) s = s
  with_kid-EntryIsServed token audience c (ok kid) s =
      rw (with_key_cache token audience (find_key jwt platform policy w kid c)) (
        or_forced-EntryIsServed kid (select_in jwt platform policy w kid (jwks w false c))
          (rw (select_in_cache kid (jwks w false c)) (jwks-EntryIsServed false c s)))

  -- Where the cache holds nothing or a document of the key server, so it does after every call of
  -- `verify_github_oidc`, also after one that fails.
  pub verify-EntryIsServed :
      (token audience : Text) (c : Cache)
      → EntryIsServed w c.entry
      → EntryIsServed w (verify_github_oidc jwt platform policy w token audience c).1.entry
  unfolding verify_github_oidc
  verify-EntryIsServed token audience c s = with_kid-EntryIsServed token audience c _ s

  fresh_entry :
      (c : Cache) (o : Option (ℕ × Fields)) {time : ℕ} {m : Fields}
      → o ≡ some (time, m)
      → ltb (w.clock c.reads - time) jwks_ttl ≡ true
      → if_fresh w c o ≡ (ok m, record c { reads = c.reads + 1 })
  fresh_entry c o e h = rw (e, h) refl

  find_key_rotated :
      (kid : Text) (c : Cache) {time : ℕ} {old new : Fields}
      → c.entry ≡ some (time, old)
      → ltb (w.clock c.reads - time) jwks_ttl ≡ true
      → select jwt platform policy w kid old ≡ ok none
      → answered w (w.answer c.requests) ≡ ok new
      → (find_key jwt platform policy w kid c).0 ≡ select jwt platform policy w kid new
  unfolding find_key jwks refresh
  find_key_rotated kid c e h missing fetched = rw (fresh_entry c c.entry e h, missing, fetched) refl

  with_key_found :
      (token audience : Text) (out : Cached (Option Key)) {found : Option Key}
      → out.0 ≡ ok found
      → (with_key jwt platform policy w token audience out).0
        ≡ checked_claims jwt platform policy w token audience found
  with_key_found token audience (err e, c) h = cc
  with_key_found token audience (ok f, c) h =
      ap (checked_claims jwt platform policy w token audience) (ok-eq h)

  -- Where a fresh cached document lacks the key ID of the token's header, and the key server's
  -- next answer is a well-formed document, the claims are checked with the key, if any, that
  -- the new document has under that ID: a token that is signed with a new key need not wait
  -- until the cached document is too old.
  pub verify_rotated :
      (token audience kid : Text) (c : Cache) {time : ℕ} {old new : Fields} {v : Json}
      {found : Option Key}
      → key_id jwt platform policy w token ≡ ok kid
      → c.entry ≡ some (time, old)
      → ltb (w.clock c.reads - time) jwks_ttl ≡ true
      → select jwt platform policy w kid old ≡ ok none
      → w.answer c.requests ≡ ok v
      → key_set v ≡ ok new
      → select jwt platform policy w kid new ≡ ok found
      → (verify_github_oidc jwt platform policy w token audience c).0
        ≡ checked_claims jwt platform policy w token audience found
  unfolding verify_github_oidc
  verify_rotated token audience kid c i e h missing fetched well_formed listed = rw i (
      with_key_found token audience (find_key jwt platform policy w kid c)
        (find_key_rotated kid c e h missing (ap (answered w) fetched ∙ well_formed) ∙ listed))
