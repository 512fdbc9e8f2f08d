-- ===== src/Caller.antt =====
-- jwkServiceClientAuth of src/control-plane/caller-auth.ts: the caller of the token endpoint is who signed
-- its request. The log events and the response carry no more than the reason that is kept here.
pub mod Authenticate
pub mod Authentic
pub mod Hmac
pub mod LetIn
pub mod Signed
use service_plane.Prelude.{
  ℕ, ◌+◌, ◌/◌, Bool, true, false, ◌&&◌, ◌||◌, not, Option, none, some, List, [],
}
use service_plane.Prelude.Tests.{if◌then◌else◌}
use service_plane.Prelude.Lists.{is_nil, find?}
use service_plane.Prelude.Text.{Text, text, ◌==◌}
use service_plane.Prelude.Number.{
  JsNumber, is_safe_integer, exceeds, floor_of, whole, at_most_ℤ, at_most_number, exceeds_by, sub_ℕ,
}
use service_plane.Prelude.Value.{Value, undefined, str, num, prop, is_object}
use service_plane.Shared.Message.{
  Message, bad_assertion_encoding, bad_assertion_claims, bad_assertion_header, bad_assertion_key,
  assertion_caller, assertion_audience, assertion_request_id, assertion_not_active,
  assertion_in_future, assertion_expired, assertion_lifetime, assertion_binding, bad_auth_limit,
}
use service_plane.Shared.Errors.{ServicePlaneError, auth_error}
use service_plane.Shared.Result.{Result, ok, err, ◌>>=◌, ◌>>◌, require}
use service_plane.Shared.Jwk.{Jwk, es256}
use service_plane.Shared.Crypto.{Crypto}
use service_plane.Shared.Assertion.{
  CallerRequest, RequestParts, AssertionClaims, trimmed, extract_assertion, Hono, request_parts,
  service_plane_jwk_signer, service_plane_jwk_thumbprint,
}

-- `jwks` is the key set that the client's, or its function, gives.
pub record JwkServiceClient : Type 0 where
  pub client_id : Text
  pub jwks : List Jwk
  pub service_id : Option Text

-- A service of the registry's snapshot, with the keys of its `callerAuth`.
pub record SnapshotService : Type 0 where
  pub id : Text
  pub caller_keys : Option (List Jwk)

-- The options, with what their functions give for the request; `services` is the snapshot of the registry,
-- where services are configured.
pub record JwkAuth : Type 0 where
  pub audience : Text
  pub client_id_header : Text
  pub clients : List JwkServiceClient
  pub key_id_header : Text
  pub max_assertion_ttl_seconds : ℕ
  pub max_body_bytes : ℕ
  pub max_skew_seconds : ℕ
  pub request_id_header : Text
  pub services : Option (List SnapshotService)

-- normalizePositiveAuthLimit(value, name)
unfoldable pub normalize_positive_auth_limit : JsNumber → Result ℕ
normalize_positive_auth_limit limit = do
  require (is_safe_integer limit && exceeds limit 0) (auth_error bad_auth_limit 500)
  ok (floor_of limit)

assertion_string : Value → Result Text
assertion_string (str s) = ok s
assertion_string _ = err (auth_error bad_assertion_claims 401)

assertion_number : Value → Result JsNumber
assertion_number (num x) = ok x
assertion_number _ = err (auth_error bad_assertion_claims 401)

-- `requestId !== undefined && typeof requestId !== 'string'`; an empty one is dropped.
assertion_request : Value → Result (Option Text)
assertion_request undefined = ok none
assertion_request (str s) = ok (if is_nil s then none else some s)
assertion_request _ = err (auth_error bad_assertion_claims 401)

-- parseJwkAssertionClaims(value)
unfoldable pub parse_jwk_assertion_claims : Value → Result AssertionClaims
unfolding assertion_string assertion_number assertion_request
parse_jwk_assertion_claims value = do
  require (is_object value) (auth_error bad_assertion_claims 401)
  aud ← assertion_string (prop (text "aud") value)
  body_hash ← assertion_string (prop (text "bodyHash") value)
  exp ← assertion_number (prop (text "exp") value)
  iat ← assertion_number (prop (text "iat") value)
  iss ← assertion_string (prop (text "iss") value)
  jti ← assertion_string (prop (text "jti") value)
  key_id ← assertion_string (prop (text "keyId") value)
  method ← assertion_string (prop (text "method") value)
  nbf ← assertion_number (prop (text "nbf") value)
  path ← assertion_string (prop (text "path") value)
  sub ← assertion_string (prop (text "sub") value)
  request_id ← assertion_request (prop (text "requestId") value)
  ok (record {
    aud = aud;
    body_hash = body_hash;
    exp = exp;
    iat = iat;
    iss = iss;
    jti = jti;
    key_id = key_id;
    method = method;
    nbf = nbf;
    path = path;
    request_id = request_id;
    sub = sub;
  })

header_key_id : Value → Result Text
header_key_id (str kid) = ok kid
header_key_id _ = err (auth_error bad_assertion_header 401)

is_this_text : Value → Text → Bool
is_this_text (str s) t = s == t
is_this_text _ t = false

-- validateJwkAssertionHeader(header, expectedKeyId)
unfoldable pub validate_jwk_assertion_header : Value → Text → Result Text
unfolding header_key_id is_this_text
validate_jwk_assertion_header header expected = do
  require (is_object header && is_this_text (prop (text "alg") header) es256)
      (auth_error bad_assertion_header 401)
  kid ← header_key_id (prop (text "kid") header)
  require (kid == expected) (auth_error bad_assertion_key 401)
  ok kid

-- validateJwkAssertionTimestamps(claims, now, maxSkewSeconds, maxAssertionTtlSeconds), of the time in
-- seconds
unfoldable pub validate_jwk_assertion_timestamps : AssertionClaims → ℕ → ℕ → ℕ → Result (Unit {0})
validate_jwk_assertion_timestamps claims now max_skew max_ttl = do
  require (not (exceeds claims.nbf (now + max_skew))) (auth_error assertion_not_active 401)
  require (not (exceeds claims.iat (now + max_skew))) (auth_error assertion_in_future 401)
  require (not (at_most_ℤ claims.exp (sub_ℕ now max_skew))) (auth_error assertion_expired 401)
  require (not (at_most_number claims.exp claims.iat || exceeds_by claims.exp claims.iat max_ttl))
      (auth_error assertion_lifetime 401)
  ok tt

same_request_id : Option Text → Option Text → Bool
same_request_id none none = true
same_request_id (some a) (some b) = a == b
same_request_id _ _ = false

-- validateJwkAssertionClaims(context, claims, options)
unfoldable pub validate_jwk_assertion_claims :
    Hono → CallerRequest → JwkAuth → AssertionClaims → Text → Text → Text → ℕ → Result (Unit {0})
unfolding same_request_id
validate_jwk_assertion_claims hono request auth claims client_id header_kid key_id now = do
  require (claims.iss == client_id && claims.sub == client_id) (auth_error assertion_caller 401)
  require (claims.aud == auth.audience) (auth_error assertion_audience 401)
  require (claims.key_id == key_id && claims.key_id == header_kid)
      (auth_error bad_assertion_key 401)
  require (same_request_id claims.request_id (trimmed (request.header auth.request_id_header)))
      (auth_error assertion_request_id 401)
  validate_jwk_assertion_timestamps claims (now / 1000) auth.max_skew_seconds
      auth.max_assertion_ttl_seconds
  parts ←
      request_parts hono request client_id claims.key_id auth.request_id_header
        (some (whole auth.max_body_bytes))
  require
      (claims.method == parts.method
        && claims.path == parts.path_with_query
        && claims.body_hash == parts.body_hash
        && claims.key_id == parts.key_id)
      (auth_error assertion_binding 401)
  ok tt
