-- ===== src/Publication/Oidc/Authorized.antt =====
-- publication.py, `verify_github_oidc`: what is known of the claims that it returns.
use postgresbuild.Prelude.{
  ◌≡◌, refl, ap, ◌∙◌, true, false, Option, none, some, find, find-eq-some, In, Result, ok, err,
  ok-eq, in-result, in-value, in-check, in-call, subst,
}
use postgresbuild.Prelude.Text.{Text, codes}
use postgresbuild.Json.{Json, null, bool, int, str, arr, obj, Fields, get, as_str}
use postgresbuild.Publication.Platform.{Platform}
use postgresbuild.Publication.Policy.{Policy}
use postgresbuild.Publication.Oidc.{
  Jwt, World, Cache, Cached, has_kid, keys_of, key_from, select, select_in, or_forced, find_key,
  key_id, checked_claims, with_key, with_kid, verify_github_oidc,
}
use postgresbuild.Publication.Oidc.Claims.{
  none-neq, expect-eq, some-eq, and-eq, IsAuthorized, check_claims-IsAuthorized,
}
use postgresbuild.Publication.Oidc.Keys.{
  is_str-eq, IsServed, EntryIsServed, IsServedBy, jwks-IsServedBy,
}

module _ (jwt : Jwt) (w : World) where
  open jwt use {Key, get_unverified_header, from_jwk, decode, decode-has_subject}

  -- A key that the server lists under this key ID.
  pub record IsKey (key_name : Text) (key : Key) : Type 0 where
    pub document : Fields
    pub served : IsServed w document
    pub item : Fields
    pub listed : In (obj item) (keys_of document)
    pub kid : get item "kid" ≡ str key_name
    pub kty : get item "kty" ≡ str (codes "RSA")
    pub parsed : from_jwk item ≡ ok key

  -- The token is signed with such a key.
  pub record IsGenuine (token audience : Text) (claims : Fields) : Type 0 where
    pub header : Fields
    pub header_of : get_unverified_header token ≡ ok header
    pub alg : get header "alg" ≡ str (codes "RS256")
    pub kid : Text
    pub kid_of : get header "kid" ≡ str kid
    pub key : Key
    pub known : IsKey kid key
    pub decoded : decode token key audience ≡ ok claims

  unfoldable pub IsKnownBy : Text → Cached (Option Key) → Type 0
  unfolding EntryIsServed
  IsKnownBy kid (err e, c) = EntryIsServed w c.entry
  IsKnownBy kid (ok none, c) = EntryIsServed w c.entry
  IsKnownBy kid (ok (some k), c) = IsKey kid k × EntryIsServed w c.entry

  module _ (platform : Platform) (policy : Policy) where
    key_from-IsKey :
        (kid : Text) (m : Fields) (o : Option Json) {key : Key}
        → IsServed w m
        → find (has_kid kid) (keys_of m) ≡ o
        → key_from jwt platform policy w o ≡ ok (some key)
        → IsKey kid key
    key_from-IsKey kid m none s f h = cc
    key_from-IsKey kid m (some (obj i)) s f h =
        let (listed, p) = find-eq-some (has_kid kid) _ f in
        let (a, b) = and-eq _ _ p in
        in-result _ _ h (λ k g q. record {
          document = m;
          served = s;
          item = i;
          listed = listed;
          kid = is_str-eq _ _ a;
          kty = is_str-eq _ _ b;
          parsed = g ∙ ap ok (some-eq (ok-eq q));
        })
    key_from-IsKey kid m (some null) s f h = cc
    key_from-IsKey kid m (some (bool b)) s f h = cc
    key_from-IsKey kid m (some (int n)) s f h = cc
    key_from-IsKey kid m (some (str t)) s f h = cc
    key_from-IsKey kid m (some (arr vs)) s f h = cc

    known_of :
        (kid : Text) (r : Result (Option Key)) (c : Cache)
        → EntryIsServed w c.entry
        → ((k : Key) → r ≡ ok (some k) → IsKey kid k)
        → IsKnownBy kid (r, c)
    unfolding IsKnownBy
    known_of kid (err e) c s f = s
    known_of kid (ok none) c s f = s
    known_of kid (ok (some k)) c s f = (f k refl, s)

    select_in-IsKnownBy :
        (kid : Text) (out : Cached Fields)
        → IsServedBy w out
        → IsKnownBy kid (select_in jwt platform policy w kid out)
    unfolding IsServedBy IsKnownBy select
    select_in-IsKnownBy kid (err e, c) s = s
    select_in-IsKnownBy kid (ok m, c) (s, t) =
        known_of kid _ c t (λ k h. key_from-IsKey kid m _ s refl h)

    or_forced-IsKnownBy :
        (kid : Text) (out : Cached (Option Key))
        → IsKnownBy kid out
        → IsKnownBy kid (or_forced jwt platform policy w kid out)
    unfolding IsKnownBy
    or_forced-IsKnownBy kid (err e, c) s = s
    or_forced-IsKnownBy kid (ok none, c) s = select_in-IsKnownBy kid _ (jwks-IsServedBy w true c s)
    or_forced-IsKnownBy kid (ok (some k), c) s = s

    find_key-IsKnownBy :
        (kid : Text) (c : Cache)
        → EntryIsServed w c.entry
        → IsKnownBy kid (find_key jwt platform policy w kid c)
    unfolding find_key
    find_key-IsKnownBy kid c s =
        or_forced-IsKnownBy kid _ (select_in-IsKnownBy kid _ (jwks-IsServedBy w false c s))

    -- The claims pass, and the payload is the one that the key verified.
    checked_claims-eq-ok :
        (token audience : Text) (found : Option Key) {claims : Fields}
        → checked_claims jwt platform policy w token audience found ≡ ok claims
        → (k : Key) × (found ≡ some k)
          × (decode token k audience ≡ ok claims)
          × IsAuthorized platform policy claims
    unfolding checked_claims
    checked_claims-eq-ok token audience found {claims} h = in-value _ _ _ h (λ k f h.
        in-result _ _ h (λ payload d h. in-call _ _ h (λ a h.
          let e = ok-eq h in
          let n = decode-has_subject token k audience payload d in
          (
            k,
            f,
            d ∙ ap ok e,
            subst (IsAuthorized platform policy) e
                (check_claims-IsAuthorized platform policy payload n a),
          ))))

    -- What is known of claims that `verify_github_oidc` returns.
    abbrev pub IsVerified : Text → Text → Fields → Type 0
    IsVerified token audience claims =
        IsAuthorized platform policy claims × IsGenuine token audience claims

    with_key-IsVerified :
        (token audience kid : Text) (header : Fields) (out : Cached (Option Key)) {claims : Fields}
        → get_unverified_header token ≡ ok header
        → get header "alg" ≡ str (codes "RS256")
        → get header "kid" ≡ str kid
        → IsKnownBy kid out
        → (with_key jwt platform policy w token audience out).0 ≡ ok claims
        → IsVerified token audience claims
    unfolding IsKnownBy
    with_key-IsVerified token audience kid header (err e, c) g a n s h = cc
    with_key-IsVerified token audience kid header (ok none, c) g a n s h =
        let (k, f, _, _) = checked_claims-eq-ok token audience none h in elim (none-neq f) [ ]
    with_key-IsVerified token audience kid header (ok (some key), c) g a n (s, t) h =
        let (k, f, d, authorized) = checked_claims-eq-ok token audience (some key) h in
        (
          authorized,
          record {
            header = header;
            header_of = g;
            alg = a;
            kid = kid;
            kid_of = n;
            key = k;
            known = subst (IsKey kid) (some-eq f) s;
            decoded = d;
          },
        )

    as_str-eq : (v : Json) {s : Text} → as_str v ≡ some s → v ≡ str s
    as_str-eq (str t) h = ap str (some-eq h)
    as_str-eq null h = cc
    as_str-eq (bool b) h = cc
    as_str-eq (int n) h = cc
    as_str-eq (arr vs) h = cc
    as_str-eq (obj m) h = cc

    key_id-eq-ok :
        (token : Text) {kid : Text}
        → key_id jwt platform policy w token ≡ ok kid
        → (header : Fields) × (get_unverified_header token ≡ ok header)
          × (get header "alg" ≡ str (codes "RS256"))
          × (get header "kid" ≡ str kid)
    unfolding key_id
    key_id-eq-ok token h = in-result _ _ h (λ header g h.
        in-check _ _ _ h (λ a h. (header, g, is_str-eq _ _ a, as_str-eq _ (expect-eq _ _ h))))

    with_kid-IsVerified :
        (token audience : Text) (c : Cache) (id : Result Text) {claims : Fields}
        → EntryIsServed w c.entry
        → key_id jwt platform policy w token ≡ id
        → (with_kid jwt platform policy w token audience c id).0 ≡ ok claims
        → IsVerified token audience claims
    with_kid-IsVerified token audience c (err e) s i h = cc
    with_kid-IsVerified token audience c (ok kid) s i h =
        let (header, g, a, n) = key_id-eq-ok token i in
        with_key-IsVerified token audience kid header _ g a n (find_key-IsKnownBy kid c s) h

    -- Where the cache holds nothing or a document of the key server, claims that
    -- `verify_github_oidc` returns are the payload of a token that an RSA key of that server
    -- verified, one listed under the key ID of the token's RS256 header; and they name the
    -- policy's repository, ref, workflow and owner, an allowed event, and one of the two subjects
    -- of the policy's environment.
    pub verify-IsVerified :
        (token audience : Text) (c : Cache) {claims : Fields}
        → EntryIsServed w c.entry
        → (verify_github_oidc jwt platform policy w token audience c).0 ≡ ok claims
        → IsVerified token audience claims
    unfolding verify_github_oidc
    verify-IsVerified token audience c s h = with_kid-IsVerified token audience c _ s refl h
