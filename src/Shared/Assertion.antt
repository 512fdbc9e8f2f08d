-- ===== src/Shared/Assertion.antt =====
-- The request assertions of src/shared/jwk-auth.ts: what a caller signs of its request, and how the
-- assertion travels.
pub mod Carried
use service_plane.Prelude.{
  ℕ, ◌+◌, ◌-◌, ◌/◌, Bool, false, ◌&&◌, not, Option, none, some, List, [], ◌∷◌, ◌++◌, map,
}
use service_plane.Prelude.Tests.{leb, if◌then◌else◌}
use service_plane.Prelude.Lists.{is_nil, find?}
use service_plane.Prelude.Text.{Text, text, ◌==◌, trim, is_space}
use service_plane.Prelude.Number.{JsNumber, is_safe_integer, exceeds, floor_of, whole}
use service_plane.Shared.Message.{
  missing_assertion, bad_assertion_scheme, bad_assertion_ttl, signer_missing, thumbprint_needs_ec,
  assertion_audience_empty,
}
use service_plane.Shared.Errors.{auth_error}
use service_plane.Shared.Result.{Result, ok, err, ◌>>=◌, ◌>>◌, require}
use service_plane.Shared.Jwk.{Jwk, service_plane_jwk_signing_key}
use service_plane.Shared.Crypto.{Crypto}
use service_plane.Shared.Body.{bounded_request_body_bytes}

-- A request, as far as the authentication reads it: its headers by name, the path with the query, and its
-- body. The declared length is the number that the header's text is.
pub record CallerRequest : Type 0 where
  pub header : Text → Option Text
  pub method : Text
  pub path_with_query : Text
  pub declared : Option JsNumber
  pub body : Option (List (List ℕ))

pub record RequestParts : Type 0 where
  pub body_hash : Text
  pub client_id : Text
  pub key_id : Text
  pub method : Text
  pub path_with_query : Text
  pub request_id : Option Text

pub record AssertionClaims : Type 0 where
  pub aud : Text
  pub body_hash : Text
  pub exp : JsNumber
  pub iat : JsNumber
  pub iss : Text
  pub jti : Text
  pub key_id : Text
  pub method : Text
  pub nbf : JsNumber
  pub path : Text
  pub request_id : Option Text
  pub sub : Text

-- `header?.trim() || undefined`
abbrev pub trimmed : Option Text → Option Text
trimmed none = none
trimmed (some value) = let t = trim value in if is_nil t then none else some t

-- `toUpperCase` and `toLowerCase`: a method and the value of a header are ASCII where they matter.
abbrev pub upper_unit : ℕ → ℕ
upper_unit c = if leb b'a' c && leb c b'z' then c - 32 else c

abbrev pub lower_unit : ℕ → ℕ
lower_unit c = if leb b'A' c && leb c b'Z' then c + 32 else c

-- `s.split(/\s+/u)`
begins_with_space : Text → Bool
begins_with_space [] = false
begins_with_space (c ∷ s) = is_space c

add_to_first : ℕ → List Text → List Text
add_to_first c [] = (c ∷ []) ∷ []
add_to_first c (piece ∷ pieces) = (c ∷ piece) ∷ pieces

unfoldable pub split_spaces : Text → List Text
unfolding begins_with_space add_to_first
split_spaces [] = [] ∷ []
split_spaces (c ∷ s) =
    let rest = split_spaces s in
    if is_space c then (if begins_with_space s then rest else [] ∷ rest) else add_to_first c rest

two_parts : List Text → Result Text
two_parts (scheme ∷ assertion ∷ []) =
    if map lower_unit scheme == text "serviceplane-jwk" && not (is_nil assertion)
    then ok assertion
    else err (auth_error bad_assertion_scheme 401)
two_parts _ = err (auth_error bad_assertion_scheme 401)

authorization_parts : Option Text → Result Text
unfolding two_parts
authorization_parts none = err (auth_error missing_assertion 401)
authorization_parts (some authorization) = two_parts (split_spaces authorization)

-- extractServicePlaneJwkAssertion(request)
unfoldable pub extract_assertion : CallerRequest → Result Text
unfolding authorization_parts
extract_assertion request = authorization_parts (trimmed (request.header (text "authorization")))

-- What the code takes from hono for assertions, and SHA-256 of bytes.
pub record Hono : Type 0 where
  -- `verifyWithJwks(token, …)` with the algorithm ES256 only: false where it throws
  pub verify_with_jwks : Text → List Jwk → Bool
  -- `sign(claims, key, 'ES256')`
  pub sign_assertion : AssertionClaims → Jwk → Text
  -- `sha256Base64Url(bytes)`
  pub sha256_bytes : List ℕ → Text

-- servicePlaneJwkRequestParts(request, clientId, keyId, requestIdHeaderName, maxBodyBytes)
unfoldable pub request_parts :
    Hono → CallerRequest → Text → Text → Text → Option JsNumber → Result RequestParts
request_parts hono request client_id key_id request_id_header max = do
  bytes ← bounded_request_body_bytes max request.declared request.body
  ok (record {
    body_hash = hono.sha256_bytes bytes;
    client_id = client_id;
    key_id = key_id;
    method = map upper_unit request.method;
    path_with_query = request.path_with_query;
    request_id = trimmed (request.header request_id_header);
  })

-- normalizeAssertionTtlSeconds(ttlSeconds)
unfoldable pub normalize_assertion_ttl_seconds : JsNumber → Result ℕ
normalize_assertion_ttl_seconds ttl = do
  require (is_safe_integer ttl && exceeds ttl 0 && not (exceeds ttl 300))
      (auth_error bad_assertion_ttl 500)
  ok (floor_of ttl)

-- servicePlaneJwkAssertion(options), of the time in milliseconds and a fresh id
unfoldable pub service_plane_jwk_assertion :
    Hono → Text → ℕ → RequestParts → Jwk → JsNumber → Text → Result Text
service_plane_jwk_assertion hono audience now parts private ttl fresh_id = do
  ttl_seconds ← normalize_assertion_ttl_seconds ttl
  require (not (is_nil (trim audience))) (auth_error assertion_audience_empty 500)
  ok (
      hono.sign_assertion
        (record {
          aud = trim audience;
          body_hash = parts.body_hash;
          exp = whole (now / 1000 + ttl_seconds);
          iat = whole (now / 1000);
          iss = parts.client_id;
          jti = fresh_id;
          key_id = parts.key_id;
          method = parts.method;
          nbf = whole (now / 1000);
          path = parts.path_with_query;
          request_id = parts.request_id;
          sub = parts.client_id;
        })
        (service_plane_jwk_signing_key private parts.key_id))

-- `headers.set(name, value)`: the names of headers have no case.
abbrev pub set_header : Text → Text → (Text → Option Text) → Text → Option Text
set_header name value header other =
    if map lower_unit other == map lower_unit name then some value else header other

-- servicePlaneJwkAuthorization(assertion)
abbrev pub jwk_authorization : Text → Text
jwk_authorization assertion = text "ServicePlane-JWK " ++ assertion

pub record SignOptions : Type 0 where
  pub ttl_seconds : JsNumber
  pub audience : Text
  pub client_id : Text
  pub client_id_header : Text
  pub key_id : Text
  pub key_id_header : Text
  pub max_body_bytes : Option JsNumber
  pub private_key : Jwk
  pub request_id_header : Text

-- `new Request(request, { headers })` with the id of the client and of its key
unfoldable pub named_request : SignOptions → CallerRequest → CallerRequest
named_request o request = record request {
  header =
      set_header o.key_id_header o.key_id
        (set_header o.client_id_header o.client_id request.header);
}

-- signServicePlaneJwkRequest(request, options), of the time in milliseconds and a fresh id
unfoldable pub sign_service_plane_jwk_request :
    Hono → SignOptions → ℕ → Text → CallerRequest → Result CallerRequest
unfolding named_request
sign_service_plane_jwk_request hono o now fresh_id request = do
  let signed = named_request o request
  parts ← request_parts hono signed o.client_id o.key_id o.request_id_header o.max_body_bytes
  assertion ←
      service_plane_jwk_assertion hono o.audience now parts o.private_key o.ttl_seconds fresh_id
  ok (record signed {
    header = set_header (text "authorization") (jwk_authorization assertion) signed.header;
  })

-- servicePlaneJwkSigner(jwks, keyId)
names_key : Text → Jwk → Bool
names_key key_id key = elim key.kid [ none ↦ false | some kid ↦ kid == key_id ]

signer_of : Option Jwk → Result Jwk
signer_of none = err (auth_error signer_missing 401)
signer_of (some key) = ok key

unfoldable pub service_plane_jwk_signer : List Jwk → Text → Result Jwk
unfolding signer_of names_key
service_plane_jwk_signer keys key_id = signer_of (find? (names_key key_id) keys)

is_ec : Option Text → Bool
is_ec none = false
is_ec (some kty) = kty == text "EC"

thumbprint_of : Crypto → Option Text → Option Text → Option Text → Result Text
thumbprint_of crypto (some crv) (some x) (some y) = ok (crypto.sha256_of_key crv x y)
thumbprint_of crypto _ _ _ = err (auth_error thumbprint_needs_ec 500)

-- servicePlaneJwkThumbprint(jwk)
unfoldable pub service_plane_jwk_thumbprint : Crypto → Jwk → Result Text
unfolding is_ec thumbprint_of
service_plane_jwk_thumbprint crypto key = do
  require (is_ec key.kty) (auth_error thumbprint_needs_ec 500)
  thumbprint_of crypto key.crv key.x key.y
