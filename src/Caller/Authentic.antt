-- ===== src/Caller/Authentic.antt =====
-- What a request that jwkServiceClientAuth lets in shows of its caller.
use service_plane.Prelude.{
  ℕ, ◌+◌, ◌/◌, ◌≡◌, refl, sym, ap, subst, ◌∙◌, inl, inr, true, false, Option, none, some, List, map,
  arith,
}
use service_plane.Prelude.Tests.{Option-cases}
use service_plane.Prelude.Text.{Text, text, eq_iff}
use service_plane.Prelude.Number.{whole, exceeds, at_most_ℤ, exceeds_by, sub_ℕ}
use service_plane.Prelude.Value.{Value, undefined, null, bool, num, str, arr, obj, prop}
use service_plane.Shared.Result.{Result, ok, Result-cases}
use service_plane.Shared.Jwk.{Jwk}
use service_plane.Shared.Crypto.{Crypto}
use service_plane.Shared.Body.{bounded_request_body_bytes}
use service_plane.Shared.Assertion.{
  CallerRequest, AssertionClaims, trimmed, upper_unit, extract_assertion, Hono, request_parts,
  service_plane_jwk_signer, service_plane_jwk_thumbprint,
}
use service_plane.Caller.{
  JwkServiceClient, JwkAuth, parse_jwk_assertion_claims, validate_jwk_assertion_header,
  same_request_id, header_key_id, validate_jwk_assertion_timestamps, validate_jwk_assertion_claims,
}
use service_plane.Caller.Authenticate.{
  authorized, resolve_jwk_service_client, CallerAuth, service_of, check_assertion,
  authenticate_jwk_caller,
}

-- hono's verifyWithJwks: the token decodes, and the first key with the `kid` of its header verifies it.
pub record IsVerifier (crypto : Crypto) (hono : Hono) : Type 0 where
  pub verified :
      (token : Text) (keys : List Jwk)
      → hono.verify_with_jwks token keys ≡ true
      → (header : Value) × (payload : Value) × (kid : Text) × (key : Jwk) × (crypto.decode token
          ≡ some (header, payload))
        × (prop (text "kid") header ≡ str kid)
        × (service_plane_jwk_signer keys kid ≡ ok key)
        × (crypto.verifying key token ≡ true)

-- The claims name the caller and the plane, stand for this request and no other, and are fresh.
pub record IsForRequest (hono : Hono) (auth : JwkAuth) (now : ℕ) (request : CallerRequest)
    (client_id : Text) (claims : AssertionClaims) : Type 0 where
  pub issuer : claims.iss ≡ client_id
  pub subject : claims.sub ≡ client_id
  pub audience : claims.aud ≡ auth.audience
  pub request_id : claims.request_id ≡ trimmed (request.header auth.request_id_header)
  pub method : claims.method ≡ map upper_unit request.method
  pub path : claims.path ≡ request.path_with_query
  pub body :
      (bytes : List ℕ) × (bounded_request_body_bytes
          (some (whole auth.max_body_bytes))
          request.declared
          request.body
        ≡ ok bytes)
      × (claims.body_hash ≡ hono.sha256_bytes bytes)
  pub active : exceeds claims.nbf (now / 1000 + auth.max_skew_seconds) ≡ false
  pub begun : exceeds claims.iat (now / 1000 + auth.max_skew_seconds) ≡ false
  pub live : at_most_ℤ claims.exp (sub_ℕ (now / 1000) auth.max_skew_seconds) ≡ false
  pub short : exceeds_by claims.exp claims.iat auth.max_assertion_ttl_seconds ≡ false

same_request_id-eq : (a b : Option Text) → same_request_id a b ≡ true → a ≡ b
unfolding same_request_id
same_request_id-eq none none h = refl
same_request_id-eq (some a) (some b) h = ground (arith, eq_iff a b)
same_request_id-eq none (some b) h = ground arith
same_request_id-eq (some a) none h = ground arith

validate_jwk_assertion_claims-IsForRequest :
    (hono : Hono) (request : CallerRequest) (auth : JwkAuth) (claims : AssertionClaims)
    (client_id header_kid key_id : Text) (now : ℕ)
    → validate_jwk_assertion_claims hono request auth claims client_id header_kid key_id now ≡ ok tt
    → IsForRequest hono auth now request client_id claims × (claims.key_id ≡ header_kid)
unfolding validate_jwk_assertion_claims validate_jwk_assertion_timestamps request_parts
validate_jwk_assertion_claims-IsForRequest hono request auth claims client_id header_kid key_id now
      h =
    elim (Result-cases (
      bounded_request_body_bytes (some (whole auth.max_body_bytes)) request.declared
        request.body)) [
          | inl (bytes, read) ↦ (
            record {
              issuer = ground (arith, eq_iff claims.iss client_id);
              subject = ground (arith, eq_iff claims.sub client_id);
              audience = ground (arith, eq_iff claims.aud auth.audience);
              request_id =
                  same_request_id-eq claims.request_id
                    (trimmed (request.header auth.request_id_header)) (ground arith);
              method = ground (arith, eq_iff claims.method (map upper_unit request.method));
              path = ground (arith, eq_iff claims.path request.path_with_query);
              body =
                  (bytes, read, ground (arith, eq_iff claims.body_hash (hono.sha256_bytes bytes)));
              active = ground arith;
              begun = ground arith;
              live = ground arith;
              short = ground arith;
            },
            ground (arith, eq_iff claims.key_id header_kid),
          )
          | inr (e, refused) ↦ absurd (ground arith)
        ]

-- The caller that is let in has its keys configured, or published by a service that the registry knows; one
-- of them signed the assertion that the request carries, and it is the key to which a token for the caller
-- will be bound.
pub record IsAuthentic (crypto : Crypto) (hono : Hono) (auth : JwkAuth) (now : ℕ)
    (request : CallerRequest) (caller : CallerAuth) : Type 0 where
  pub client_id : Text
  pub client : JwkServiceClient
  pub assertion : Text
  pub header : Value
  pub payload : Value
  pub claims : AssertionClaims
  pub key : Jwk
  pub named : trimmed (request.header auth.client_id_header) ≡ some client_id
  pub registered : resolve_jwk_service_client auth client_id ≡ some client
  pub carried : extract_assertion request ≡ ok assertion
  pub decoded : crypto.decode assertion ≡ some (header, payload)
  pub parsed : parse_jwk_assertion_claims payload ≡ ok claims
  pub own_key : service_plane_jwk_signer client.jwks claims.key_id ≡ ok key
  pub signed : crypto.verifying key assertion ≡ true
  pub bound_key : service_plane_jwk_thumbprint crypto key ≡ ok caller.jkt
  pub for_request : IsForRequest hono auth now request client_id claims
  pub service : caller.service_id ≡ service_of client

header_key_id-str : (v : Value) (kid : Text) → header_key_id v ≡ ok kid → v ≡ str kid
unfolding header_key_id
header_key_id-str (str s) kid h = ground arith
header_key_id-str undefined kid h = ground arith
header_key_id-str null kid h = ground arith
header_key_id-str (bool b) kid h = ground arith
header_key_id-str (num x) kid h = ground arith
header_key_id-str (arr vs) kid h = ground arith
header_key_id-str (obj fs) kid h = ground arith

-- The header's key id is the one that was compared.
validate_jwk_assertion_header-kid :
    (header : Value) (key_id kid : Text)
    → validate_jwk_assertion_header header key_id ≡ ok kid
    → prop (text "kid") header ≡ str kid
unfolding validate_jwk_assertion_header
validate_jwk_assertion_header-kid header key_id kid h =
    header_key_id-str (prop (text "kid") header) kid
      (elim (Result-cases (header_key_id (prop (text "kid") header))) [
        | inl (found, e) ↦ ground arith
        | inr (error, e) ↦ absurd (ground arith)
      ])

module _ (crypto : Crypto) (hono : Hono) (auth : JwkAuth) (now : ℕ) (request : CallerRequest) where
  -- What the `try` block has passed.
  record IsChecked (client_id assertion : Text) (client : JwkServiceClient) (caller : CallerAuth)
      : Type 0 where
    header : Value
    payload : Value
    claims : AssertionClaims
    key_id : Text
    kid : Text
    key : Jwk
    accepted : hono.verify_with_jwks assertion client.jwks ≡ true
    decoded : crypto.decode assertion ≡ some (header, payload)
    parsed : parse_jwk_assertion_claims payload ≡ ok claims
    has_kid : validate_jwk_assertion_header header key_id ≡ ok kid
    checked :
        validate_jwk_assertion_claims hono request auth claims client_id kid key_id now ≡ ok tt
    own_key : service_plane_jwk_signer client.jwks kid ≡ ok key
    thumbprint : service_plane_jwk_thumbprint crypto key ≡ ok caller.jkt
    service : caller.service_id ≡ service_of client

  check_assertion-IsChecked :
      (client_id assertion : Text) (client : JwkServiceClient) (caller : CallerAuth)
      → check_assertion crypto hono auth now request client_id assertion client ≡ authorized caller
      → IsChecked client_id assertion client caller
  unfolding check_assertion
  check_assertion-IsChecked client_id assertion client caller h =
      elim (Option-cases (crypto.decode assertion)) [
        | inl undecoded ↦ absurd (ground arith)
        | inr ((header, payload), decoded) ↦
            elim (Result-cases (parse_jwk_assertion_claims payload)) [
              | inr (e, refused) ↦ absurd (ground arith)
              | inl (claims, parsed) ↦
                  elim (Option-cases (trimmed (request.header auth.key_id_header))) [
                    | inl missing ↦ absurd (ground arith)
                    | inr (key_id, given) ↦
                        elim (Result-cases (validate_jwk_assertion_header header key_id)) [
                          | inr (e, refused) ↦ absurd (ground arith)
                          | inl (kid, has_kid) ↦
                              elim (Result-cases (service_plane_jwk_signer client.jwks kid)) [
                                | inr (e, refused) ↦ absurd (ground arith)
                                | inl (key, own_key) ↦
                                    elim (Result-cases (
                                      validate_jwk_assertion_claims hono request auth claims
                                        client_id kid key_id now)) [
                                          | inr (e, refused) ↦ absurd (ground arith)
                                          | inl (unit, checked) ↦
                                              elim (Result-cases
                                                (service_plane_jwk_thumbprint crypto key)) [
                                                  | inr (e, refused) ↦ absurd (ground arith)
                                                  | inl (jkt, thumbprint) ↦ record {
                                                    header = header;
                                                    payload = payload;
                                                    claims = claims;
                                                    key_id = key_id;
                                                    kid = kid;
                                                    key = key;
                                                    accepted = ground arith;
                                                    decoded = decoded;
                                                    parsed = parsed;
                                                    has_kid = has_kid;
                                                    checked = checked;
                                                    own_key = own_key;
                                                    thumbprint = ground arith;
                                                    service = ground arith;
                                                  }
                                                ]
                                        ]
                              ]
                        ]
                  ]
            ]
      ]

same_text : {s t : Text} → ◌≡◌ {A = Value} (str s) (str t) → s ≡ t
same_text e = ground arith

same_header :
    {a b c d : Value} → ◌≡◌ {A = Option (Value × Value)} (some (a, b)) (some (c, d)) → a ≡ c
same_header e = ground arith

same_key : {k l : Jwk} → ◌≡◌ {A = Result Jwk} (ok k) (ok l) → k ≡ l
same_key e = cc

checked-IsAuthentic :
    (crypto : Crypto) (hono : Hono) (auth : JwkAuth) (now : ℕ) (request : CallerRequest)
    (client_id assertion : Text) (client : JwkServiceClient) (caller : CallerAuth)
    → IsVerifier crypto hono
    → trimmed (request.header auth.client_id_header) ≡ some client_id
    → resolve_jwk_service_client auth client_id ≡ some client
    → extract_assertion request ≡ ok assertion
    → IsChecked crypto hono auth now request client_id assertion client caller
    → IsAuthentic crypto hono auth now request caller
checked-IsAuthentic crypto hono auth now request client_id assertion client caller law named
      registered carried c =
    let v = law.verified assertion client.jwks c.accepted in
    let bound =
      validate_jwk_assertion_claims-IsForRequest hono request auth c.claims client_id c.kid c.key_id
        now c.checked in
    let same_kid = same_text (
      sym (validate_jwk_assertion_header-kid c.header c.key_id c.kid c.has_kid)
      ∙ ap (prop (text "kid")) (same_header (sym c.decoded ∙ v.4))
      ∙ v.5) in
    let same =
      same_key (sym v.6 ∙ ap (service_plane_jwk_signer client.jwks) (sym same_kid) ∙ c.own_key) in
    record {
      client_id = client_id;
      client = client;
      assertion = assertion;
      header = c.header;
      payload = c.payload;
      claims = c.claims;
      key = c.key;
      named = named;
      registered = registered;
      carried = carried;
      decoded = c.decoded;
      parsed = c.parsed;
      own_key = ap (service_plane_jwk_signer client.jwks) bound.1 ∙ c.own_key;
      signed = subst (λ k. crypto.verifying k assertion ≡ true) same v.7;
      bound_key = c.thumbprint;
      for_request = bound.0;
      service = c.service;
    }

-- A caller that is let in is authentic: one of its own keys, configured or published through the registry,
-- signed the assertion; the claims name this caller and this plane, stand for the method, path, body and
-- request id of this request, and are fresh up to the allowed skew and no longer than allowed; the service
-- that is reported is the client's, and the confirmation is the thumbprint of the key that signed. hono's
-- verification is taken to accept only a token that the first key with the header's key id verifies.
pub authenticate_jwk_caller-IsAuthentic :
    (crypto : Crypto) (hono : Hono) (auth : JwkAuth) (now : ℕ) (request : CallerRequest)
    (caller : CallerAuth)
    → IsVerifier crypto hono
    → authenticate_jwk_caller crypto hono auth now request ≡ authorized caller
    → IsAuthentic crypto hono auth now request caller
unfolding authenticate_jwk_caller
authenticate_jwk_caller-IsAuthentic crypto hono auth now request caller law h =
    elim (Option-cases (trimmed (request.header auth.client_id_header))) [
      | inl missing ↦ absurd (ground arith)
      | inr (client_id, named) ↦ elim (Result-cases (extract_assertion request)) [
        | inr (e, refused) ↦ absurd (ground arith)
        | inl (assertion, carried) ↦
            elim (Option-cases (resolve_jwk_service_client auth client_id)) [
              | inl unknown ↦ absurd (ground arith)
              | inr (client, registered) ↦
                  checked-IsAuthentic crypto hono auth now request client_id assertion client caller
                    law named registered carried
                    (check_assertion-IsChecked crypto hono auth now request client_id assertion
                      client caller (ground arith))
            ]
      ]
    ]
