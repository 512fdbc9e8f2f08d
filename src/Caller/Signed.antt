-- ===== src/Caller/Signed.antt =====
-- A request that signServicePlaneJwkRequest of src/shared/jwk-auth.ts signs, at jwkServiceClientAuth of
-- src/control-plane/caller-auth.ts.
use service_plane.Prelude.{
  ℕ, ◌+◌, ◌/◌, ◌≤◌, ◌<◌, ◌≡◌, refl, sym, ap, ◌∙◌, inl, inr, true, false, Option, none, some, List,
  ◌∷◌, map, arith,
}
use service_plane.Prelude.Tests.{Bool-cases}
use service_plane.Prelude.Lists.{is_nil}
use service_plane.Prelude.Text.{Text, text, ◌==◌, eq_refl, eq_iff, trim}
use service_plane.Prelude.Number.{
  whole, exceeds-whole, at_most_ℤ-sub_ℕ, at_most_number-whole, exceeds_by-whole,
}
use service_plane.Prelude.Value.{Value, undefined, num, str, obj, field, end, prop, own, is_object}
use service_plane.Shared.Result.{ok}
use service_plane.Shared.Jwk.{
  Jwk, es256, public_jwk_from_private_jwk, service_plane_jwk_signing_key,
}
use service_plane.Shared.Crypto.{Crypto}
use service_plane.Shared.Assertion.Carried.{IsWord}
use service_plane.Shared.Assertion.{
  AssertionClaims, CallerRequest, RequestParts, Hono, SignOptions, trimmed, lower_unit, set_header,
  jwk_authorization, named_request, request_parts, service_plane_jwk_signer,
}
use service_plane.Caller.{
  JwkServiceClient, JwkAuth, parse_jwk_assertion_claims, assertion_string, assertion_number,
  assertion_request, validate_jwk_assertion_header, validate_jwk_assertion_claims,
  validate_jwk_assertion_timestamps, header_key_id, is_this_text, same_request_id,
}
use service_plane.Caller.Authenticate.{resolve_jwk_service_client}

-- The header and the payload of a JWS that hono's `sign` makes of claims.
abbrev pub assertion_header : Text → Value
assertion_header kid = obj (
    field (text "alg") (str es256)
      (field (text "typ") (str (text "JWT")) (field (text "kid") (str kid) end)))

abbrev pub request_id_value : Option Text → Value
request_id_value none = undefined
request_id_value (some id) = str id

abbrev pub assertion_value : AssertionClaims → Value
assertion_value claims = obj (
    field (text "aud") (str claims.aud) (
      field (text "bodyHash") (str claims.body_hash) (
        field (text "exp") (num claims.exp) (
          field (text "iat") (num claims.iat) (
            field (text "iss") (str claims.iss) (
              field (text "jti") (str claims.jti) (
                field (text "keyId") (str claims.key_id) (
                  field (text "method") (str claims.method) (
                    field (text "nbf") (num claims.nbf) (
                      field (text "path") (str claims.path) (
                        field (text "requestId") (request_id_value claims.request_id)
                          (field (text "sub") (str claims.sub) end))))))))))))

abbrev pub Unpadded : Option Text → Type 0
Unpadded none = Unit
Unpadded (some id) = is_nil id ≡ false

pub trimmed-Unpadded : (o : Option Text) → Unpadded (trimmed o)
trimmed-Unpadded none = tt
trimmed-Unpadded (some s) = elim (Bool-cases (is_nil (trim s))) [
  | inl blank ↦ rw blank tt
  | inr named ↦ rw named named
]

assertion_request-value :
    (o : Option Text) → Unpadded o → assertion_request (request_id_value o) ≡ ok o
unfolding assertion_request
assertion_request-value none h = refl
assertion_request-value (some id) h = rw h refl

pub parse-assertion_value :
    (claims : AssertionClaims)
    → Unpadded claims.request_id
    → parse_jwk_assertion_claims (assertion_value claims) ≡ ok claims
unfolding parse_jwk_assertion_claims assertion_string assertion_number prop is_object own ◌==◌
parse-assertion_value claims h = rw (assertion_request-value claims.request_id h) refl

pub validate-assertion_header :
    (kid : Text) → validate_jwk_assertion_header (assertion_header kid) kid ≡ ok kid
unfolding validate_jwk_assertion_header header_key_id is_this_text prop is_object own ◌==◌
validate-assertion_header kid = rw (eq_refl kid) refl

same_request_id_refl : (o : Option Text) → same_request_id o o ≡ true
unfolding same_request_id
same_request_id_refl none = refl
same_request_id_refl (some id) = eq_refl id

-- The claims of a request that was signed at `signed_at` for `ttl` seconds, in seconds.
pub validate_timestamps-signed :
    (claims : AssertionClaims) (signed_at ttl now max_skew max_ttl : ℕ)
    → claims.nbf ≡ whole signed_at
    → claims.iat ≡ whole signed_at
    → claims.exp ≡ whole (signed_at + ttl)
    → 0 < ttl
    → ttl ≤ max_ttl
    → signed_at ≤ now + max_skew
    → now < signed_at + ttl + max_skew
    → validate_jwk_assertion_timestamps claims now max_skew max_ttl ≡ ok tt
unfolding validate_jwk_assertion_timestamps
validate_timestamps-signed claims signed_at ttl now max_skew max_ttl n i e positive short begun
      live =
    rw
      (
        n,
        i,
        e,
        exceeds-whole signed_at (now + max_skew) begun,
        at_most_ℤ-sub_ℕ (signed_at + ttl) now max_skew (omega arith),
        at_most_number-whole (signed_at + ttl) signed_at (omega arith),
        exceeds_by-whole signed_at ttl max_ttl short,
      )
      refl

-- What the two sides agree on, by the options of the signer and those of the plane.
pub record Agrees (o : SignOptions) (auth : JwkAuth) (client : JwkServiceClient) : Type 0 where
  pub client_header : auth.client_id_header ≡ o.client_id_header
  pub key_header : auth.key_id_header ≡ o.key_id_header
  pub request_header : auth.request_id_header ≡ o.request_id_header
  pub client_apart : (map lower_unit o.client_id_header == map lower_unit o.key_id_header) ≡ false
  pub client_not_authorization : (map lower_unit o.client_id_header == text "authorization") ≡ false
  pub key_not_authorization : (map lower_unit o.key_id_header == text "authorization") ≡ false
  pub request_not_authorization :
      (map lower_unit o.request_id_header == text "authorization") ≡ false
  pub audience : trim o.audience ≡ auth.audience
  pub client_id : trimmed (some o.client_id) ≡ some o.client_id
  pub key_id : trimmed (some o.key_id) ≡ some o.key_id
  pub registered : resolve_jwk_service_client auth o.client_id ≡ some client
  pub key :
      service_plane_jwk_signer client.jwks o.key_id
      ≡ ok (public_jwk_from_private_jwk o.private_key o.key_id)

-- hono's `sign` and `verifyWithJwks` at these claims: the assertion is a JWS of them without a space, and a
-- key set whose key of that id is the public half accepts it.
pub record IsSigner (crypto : Crypto) (hono : Hono) (claims : AssertionClaims) (private : Jwk)
    (kid : Text) : Type 0 where
  pub word :
      (c : ℕ) × (s : Text) × (hono.sign_assertion claims (service_plane_jwk_signing_key private kid)
        ≡ c ∷ s)
      × IsWord (c ∷ s)
  pub decoded :
      crypto.decode (hono.sign_assertion claims (service_plane_jwk_signing_key private kid))
      ≡ some (assertion_header kid, assertion_value claims)
  pub accepted :
      (keys : List Jwk)
      → service_plane_jwk_signer keys kid ≡ ok (public_jwk_from_private_jwk private kid)
      → hono.verify_with_jwks
          (hono.sign_assertion claims (service_plane_jwk_signing_key private kid))
          keys
        ≡ true

equal : {s t : Text} → s ≡ t → (s == t) ≡ true
equal {s} {t} h = (eq_iff s t).1 h

-- `request` as it is sent: named by `o`, with the assertion.
unfoldable pub sent : SignOptions → Text → CallerRequest → CallerRequest
unfolding named_request
sent o assertion request = record (named_request o request) {
  header =
      set_header (text "authorization") (jwk_authorization assertion)
        (named_request o request).header;
}

pub validate_claims-signed :
    (hono : Hono) (request : CallerRequest) (auth : JwkAuth) (client_id key_id : Text)
    (claims : AssertionClaims) (parts : RequestParts) (now : ℕ)
    → claims.iss ≡ client_id
    → claims.sub ≡ client_id
    → claims.aud ≡ auth.audience
    → claims.key_id ≡ key_id
    → claims.request_id ≡ trimmed (request.header auth.request_id_header)
    → validate_jwk_assertion_timestamps claims
        (now / 1000)
        auth.max_skew_seconds
        auth.max_assertion_ttl_seconds
      ≡ ok tt
    → request_parts hono request client_id claims.key_id auth.request_id_header
        (some (whole auth.max_body_bytes))
      ≡ ok parts
    → claims.method ≡ parts.method
    → claims.path ≡ parts.path_with_query
    → claims.body_hash ≡ parts.body_hash
    → claims.key_id ≡ parts.key_id
    → validate_jwk_assertion_claims hono request auth claims client_id key_id key_id now ≡ ok tt
unfolding validate_jwk_assertion_claims
validate_claims-signed hono request auth client_id key_id claims parts now iss sub aud key rid times
      p m path body pkey =
    rw
      (
        equal iss,
        equal sub,
        equal aud,
        equal key,
        ap (same_request_id claims.request_id) (sym rid) ∙ same_request_id_refl claims.request_id,
        times,
        p,
        equal m,
        equal path,
        equal body,
        equal pkey,
      )
      refl
