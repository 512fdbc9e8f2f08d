-- ===== src/Caller/LetIn.antt =====
-- A request that signServicePlaneJwkRequest of src/shared/jwk-auth.ts signs is let in by
-- jwkServiceClientAuth of src/control-plane/caller-auth.ts.
use service_plane.Prelude.{
  ℕ, ◌+◌, ◌/◌, ◌≤◌, ◌<◌, ◌≡◌, refl, sym, ap, ◌∙◌, inl, inr, true, false, some, List, [], ◌∷◌, map,
  arith,
}
use service_plane.Prelude.Tests.{Bool-cases}
use service_plane.Prelude.Lists.{is_nil, find?}
use service_plane.Prelude.Text.{Text, text, ◌==◌, eq_refl, trim}
use service_plane.Prelude.Number.{
  JsNumber, nan, infinite, finite, pos, negsuc, whole, floor_of, exceeds, is_safe_integer,
}
use service_plane.Shared.Result.{Result, ok, Result-cases}
use service_plane.Shared.Jwk.{Jwk, public_jwk_from_private_jwk, service_plane_jwk_signing_key}
use service_plane.Shared.Crypto.{Crypto}
use service_plane.Shared.Body.{
  bounded_request_body_bytes, bytes_of_body, bounded_request_body_bytes-bytes,
}
use service_plane.Shared.Assertion.{
  AssertionClaims, CallerRequest, RequestParts, Hono, SignOptions, trimmed, upper_unit, lower_unit,
  extract_assertion, jwk_authorization, named_request, request_parts, service_plane_jwk_assertion,
  sign_service_plane_jwk_request, service_plane_jwk_signer, service_plane_jwk_thumbprint,
  normalize_assertion_ttl_seconds,
}
use service_plane.Shared.Assertion.Carried.{extract_assertion-authorization}
use service_plane.Caller.{JwkServiceClient, JwkAuth, validate_jwk_assertion_claims}
use service_plane.Caller.Authenticate.{
  authorized, resolve_jwk_service_client, service_of, check_assertion, authenticate_jwk_caller,
}
use service_plane.Caller.Signed.{
  assertion_header, assertion_value, Unpadded, trimmed-Unpadded, parse-assertion_value,
  validate-assertion_header, validate_timestamps-signed, validate_claims-signed, Agrees, IsSigner,
  sent,
}

-- The claims that are signed for a request.
unfoldable pub claims_of : Hono → SignOptions → ℕ → ℕ → Text → CallerRequest → AssertionClaims
unfolding named_request
claims_of hono o signed_at ttl fresh_id request = record {
  aud = trim o.audience;
  body_hash = hono.sha256_bytes (bytes_of_body request.body);
  exp = whole (signed_at / 1000 + ttl);
  iat = whole (signed_at / 1000);
  iss = o.client_id;
  jti = fresh_id;
  key_id = o.key_id;
  method = map upper_unit request.method;
  nbf = whole (signed_at / 1000);
  path = request.path_with_query;
  request_id = trimmed ((named_request o request).header o.request_id_header);
  sub = o.client_id;
}

unfoldable pub assertion_of : Hono → SignOptions → ℕ → ℕ → Text → CallerRequest → Text
unfolding claims_of
assertion_of hono o signed_at ttl fresh_id request =
    hono.sign_assertion (claims_of hono o signed_at ttl fresh_id request)
      (service_plane_jwk_signing_key o.private_key o.key_id)

floor_of-positive : (n : JsNumber) → is_safe_integer n ≡ true → exceeds n 0 ≡ true → 0 < floor_of n
unfolding is_safe_integer exceeds floor_of
floor_of-positive nan h e = ground arith
floor_of-positive (infinite negative) h e = ground arith
floor_of-positive (finite (pos m) f) h e = ground arith
floor_of-positive (finite (negsuc m) f) h e = ground arith

normalized-floor :
    (n : JsNumber) (ttl : ℕ)
    → normalize_assertion_ttl_seconds n ≡ ok ttl
    → (ttl ≡ floor_of n) × (0 < floor_of n)
unfolding normalize_assertion_ttl_seconds
normalized-floor n ttl h = (ground arith, floor_of-positive n (ground arith) (ground arith))

same_request : {r q : CallerRequest} → ◌≡◌ {A = Result CallerRequest} (ok r) (ok q) → r ≡ q
same_request e = cc

sign_ok :
    (hono : Hono) (o : SignOptions) (signed_at : ℕ) (fresh_id : Text) (request : CallerRequest)
    → bounded_request_body_bytes o.max_body_bytes request.declared request.body
      ≡ ok (bytes_of_body request.body)
    → normalize_assertion_ttl_seconds o.ttl_seconds ≡ ok (floor_of o.ttl_seconds)
    → is_nil (trim o.audience) ≡ false
    → sign_service_plane_jwk_request hono o signed_at fresh_id request
      ≡ ok
          (sent o (assertion_of hono o signed_at (floor_of o.ttl_seconds) fresh_id request) request)
unfolding sign_service_plane_jwk_request request_parts service_plane_jwk_assertion sent assertion_of
    named_request
sign_ok hono o signed_at fresh_id request read normal named = rw (read, normal, named) refl

sign-sent :
    (hono : Hono) (o : SignOptions) (signed_at : ℕ) (fresh_id : Text)
    (request signed : CallerRequest)
    → sign_service_plane_jwk_request hono o signed_at fresh_id request ≡ ok signed
    → (0 < floor_of o.ttl_seconds)
      × (signed
          ≡ sent o
              (assertion_of hono o signed_at (floor_of o.ttl_seconds) fresh_id request)
              request)
unfolding sign_service_plane_jwk_request request_parts service_plane_jwk_assertion sent assertion_of
    named_request
sign-sent hono o signed_at fresh_id request signed h =
    elim (Result-cases
      (bounded_request_body_bytes o.max_body_bytes request.declared request.body)) [
        | inr (e, refused) ↦ absurd (ground arith)
        | inl (bytes, read) ↦ elim (Result-cases (normalize_assertion_ttl_seconds o.ttl_seconds)) [
          | inr (e, refused) ↦ absurd (ground arith)
          | inl (ttl, normal) ↦ elim (Bool-cases (is_nil (trim o.audience))) [
            | inl blank ↦ absurd (ground arith)
            | inr named ↦ (
              (normalized-floor o.ttl_seconds ttl normal).1,
              same_request (
                  sym h
                  ∙ sign_ok hono o signed_at fresh_id request
                      (read
                        ∙ ap ok (
                            bounded_request_body_bytes-bytes o.max_body_bytes request.declared
                              request.body bytes read))
                      (normal ∙ ap ok (normalized-floor o.ttl_seconds ttl normal).0) named),
            )
          ]
        ]
      ]

-- What the plane reads of the request that is sent.
module _ (o : SignOptions) (auth : JwkAuth) (client : JwkServiceClient)
    (agrees : Agrees o auth client) (assertion : Text) (request : CallerRequest) where
  sent-authorization :
      (sent o assertion request).header (text "authorization") ≡ some (jwk_authorization assertion)
  unfolding sent ◌==◌
  sent-authorization = refl

  sent-client : (sent o assertion request).header auth.client_id_header ≡ some o.client_id
  unfolding sent named_request
  sent-client =
      rw
        (
          agrees.client_header,
          agrees.client_not_authorization,
          agrees.client_apart,
          eq_refl (map lower_unit o.client_id_header),
        )
        refl

  sent-key : (sent o assertion request).header auth.key_id_header ≡ some o.key_id
  unfolding sent named_request
  sent-key =
      rw (agrees.key_header, agrees.key_not_authorization, eq_refl (map lower_unit o.key_id_header))
        refl

  sent-request :
      (sent o assertion request).header auth.request_id_header
      ≡ (named_request o request).header o.request_id_header
  unfolding sent named_request
  sent-request = rw (agrees.request_header, agrees.request_not_authorization) refl

not_empty :
    (keys : List Jwk) (kid : Text) (key : Jwk)
    → service_plane_jwk_signer keys kid ≡ ok key
    → is_nil keys ≡ false
unfolding service_plane_jwk_signer find?
not_empty [] kid key h = ground arith
not_empty (k ∷ keys) kid key h = refl

module _ (crypto : Crypto) (hono : Hono) (auth : JwkAuth) (now : ℕ) (request : CallerRequest) where
  authenticate-check :
      (client_id assertion : Text) (client : JwkServiceClient)
      → trimmed (request.header auth.client_id_header) ≡ some client_id
      → extract_assertion request ≡ ok assertion
      → resolve_jwk_service_client auth client_id ≡ some client
      → is_nil client.jwks ≡ false
      → authenticate_jwk_caller crypto hono auth now request
        ≡ check_assertion crypto hono auth now request client_id assertion client
  unfolding authenticate_jwk_caller
  authenticate-check client_id assertion client named carried registered keys =
      rw (named, carried, registered, keys) refl

  check-authorized :
      (client_id assertion kid jkt : Text) (client : JwkServiceClient) (claims : AssertionClaims)
      (key : Jwk)
      → hono.verify_with_jwks assertion client.jwks ≡ true
      → crypto.decode assertion ≡ some (assertion_header kid, assertion_value claims)
      → Unpadded claims.request_id
      → trimmed (request.header auth.key_id_header) ≡ some kid
      → validate_jwk_assertion_claims hono request auth claims client_id kid kid now ≡ ok tt
      → service_plane_jwk_signer client.jwks kid ≡ ok key
      → service_plane_jwk_thumbprint crypto key ≡ ok jkt
      → check_assertion crypto hono auth now request client_id assertion client
        ≡ authorized (record { jkt = jkt; service_id = service_of client })
  unfolding check_assertion
  check-authorized client_id assertion kid jkt client claims key v d u k c s t =
      rw (v, d, parse-assertion_value claims u, k, validate-assertion_header kid, c, s, t) refl

claims_of-validated :
    (hono : Hono) (o : SignOptions) (auth : JwkAuth) (client : JwkServiceClient) (signed_at now : ℕ)
    (fresh_id assertion : Text) (request : CallerRequest) (bytes : List ℕ)
    → Agrees o auth client
    → bounded_request_body_bytes (some (whole auth.max_body_bytes)) request.declared request.body
      ≡ ok bytes
    → signed_at / 1000 ≤ now / 1000 + auth.max_skew_seconds
    → now / 1000 < signed_at / 1000 + floor_of o.ttl_seconds + auth.max_skew_seconds
    → 0 < floor_of o.ttl_seconds
    → floor_of o.ttl_seconds ≤ auth.max_assertion_ttl_seconds
    → validate_jwk_assertion_claims hono
        (sent o assertion request)
        auth
        (claims_of hono o signed_at (floor_of o.ttl_seconds) fresh_id request)
        o.client_id
        o.key_id
        o.key_id
        now
      ≡ ok tt
unfolding claims_of request_parts sent named_request
claims_of-validated hono o auth client signed_at now fresh_id assertion request bytes agrees fits
      begun live positive short =
    let claims : AssertionClaims =
      claims_of hono o signed_at (floor_of o.ttl_seconds) fresh_id request in
    let r : CallerRequest = sent o assertion request in
    let parts : RequestParts = record {
      body_hash = hono.sha256_bytes bytes;
      client_id = o.client_id;
      key_id = o.key_id;
      method = map upper_unit request.method;
      path_with_query = request.path_with_query;
      request_id = trimmed (r.header auth.request_id_header);
    } in
    validate_claims-signed hono r auth o.client_id o.key_id claims parts now refl refl
      agrees.audience refl (sym (ap trimmed (sent-request o auth client agrees assertion request)))
      (validate_timestamps-signed claims (signed_at / 1000) (floor_of o.ttl_seconds) (now / 1000)
        auth.max_skew_seconds auth.max_assertion_ttl_seconds refl refl refl positive short begun
        live)
      (rw fits refl) refl refl
      (ap hono.sha256_bytes (
        sym (
          bounded_request_body_bytes-bytes (some (whole auth.max_body_bytes)) request.declared
            request.body bytes fits)))
      refl

sent-let_in :
    (crypto : Crypto) (hono : Hono) (o : SignOptions) (auth : JwkAuth) (client : JwkServiceClient)
    (signed_at now : ℕ) (fresh_id : Text) (request : CallerRequest) (bytes : List ℕ) (jkt : Text)
    → IsSigner crypto hono
        (claims_of hono o signed_at (floor_of o.ttl_seconds) fresh_id request)
        o.private_key
        o.key_id
    → Agrees o auth client
    → service_plane_jwk_thumbprint crypto (public_jwk_from_private_jwk o.private_key o.key_id)
      ≡ ok jkt
    → bounded_request_body_bytes (some (whole auth.max_body_bytes)) request.declared request.body
      ≡ ok bytes
    → signed_at / 1000 ≤ now / 1000 + auth.max_skew_seconds
    → now / 1000 < signed_at / 1000 + floor_of o.ttl_seconds + auth.max_skew_seconds
    → 0 < floor_of o.ttl_seconds
    → floor_of o.ttl_seconds ≤ auth.max_assertion_ttl_seconds
    → authenticate_jwk_caller crypto hono auth now
        (sent o (assertion_of hono o signed_at (floor_of o.ttl_seconds) fresh_id request) request)
      ≡ authorized (record { jkt = jkt; service_id = service_of client })
unfolding assertion_of claims_of
sent-let_in crypto hono o auth client signed_at now fresh_id request bytes jkt signer agrees thumb
      fits begun live positive short =
    let claims : AssertionClaims =
      claims_of hono o signed_at (floor_of o.ttl_seconds) fresh_id request in
    let assertion : Text =
      assertion_of hono o signed_at (floor_of o.ttl_seconds) fresh_id request in
    let r : CallerRequest = sent o assertion request in
    let word = signer.word in
    let carried = extract_assertion-authorization r word.0 word.1 word.3 (
      sent-authorization o auth client agrees assertion request
      ∙ ap (λ a. some (jwk_authorization a)) word.2) in
    authenticate-check crypto hono auth now r o.client_id assertion client
      (ap trimmed (sent-client o auth client agrees assertion request) ∙ agrees.client_id)
      (carried ∙ ap ok (sym word.2)) agrees.registered (not_empty client.jwks o.key_id _ agrees.key)
    ∙ check-authorized crypto hono auth now r o.client_id assertion o.key_id jkt client claims
        (public_jwk_from_private_jwk o.private_key o.key_id)
        (signer.accepted client.jwks agrees.key) signer.decoded
        (trimmed-Unpadded ((named_request o request).header o.request_id_header))
        (ap trimmed (sent-key o auth client agrees assertion request) ∙ agrees.key_id)
        (claims_of-validated hono o auth client signed_at now fresh_id assertion request bytes
          agrees fits begun live positive short)
        agrees.key thumb

-- A request that is signed for a configured or published client is let in as that client, with the
-- thumbprint of its public key: where the two sides agree on headers, audience, client and key, the body
-- fits the plane's limit, the clocks differ by no more than the skew, the assertion has not expired, and it
-- lasts no longer than the plane allows. hono's `sign` and `verifyWithJwks` are taken to make and
-- to accept a JWS of the claims.
pub authenticate_jwk_caller-sign :
    (crypto : Crypto) (hono : Hono) (o : SignOptions) (auth : JwkAuth) (client : JwkServiceClient)
    (signed_at now : ℕ) (fresh_id : Text) (request signed : CallerRequest) (bytes : List ℕ)
    (jkt : Text)
    → IsSigner crypto hono
        (claims_of hono o signed_at (floor_of o.ttl_seconds) fresh_id request)
        o.private_key
        o.key_id
    → Agrees o auth client
    → service_plane_jwk_thumbprint crypto (public_jwk_from_private_jwk o.private_key o.key_id)
      ≡ ok jkt
    → bounded_request_body_bytes (some (whole auth.max_body_bytes)) request.declared request.body
      ≡ ok bytes
    → signed_at / 1000 ≤ now / 1000 + auth.max_skew_seconds
    → now / 1000 < signed_at / 1000 + floor_of o.ttl_seconds + auth.max_skew_seconds
    → floor_of o.ttl_seconds ≤ auth.max_assertion_ttl_seconds
    → sign_service_plane_jwk_request hono o signed_at fresh_id request ≡ ok signed
    → authenticate_jwk_caller crypto hono auth now signed
      ≡ authorized (record { jkt = jkt; service_id = service_of client })
authenticate_jwk_caller-sign crypto hono o auth client signed_at now fresh_id request signed bytes
      jkt signer agrees thumb fits begun live short h =
    let s = sign-sent hono o signed_at fresh_id request signed h in
    ap (authenticate_jwk_caller crypto hono auth now) s.1
    ∙ sent-let_in crypto hono o auth client signed_at now fresh_id request bytes jkt signer agrees
        thumb fits begun live s.0 short
