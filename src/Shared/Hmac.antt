-- ===== src/Shared/Hmac.antt =====
-- src/shared/hmac-auth.ts: the signature of a request with a shared secret.
pub mod Canonical
pub mod Carried
use service_plane.Prelude.{
  Bool, true, false, ◌&&◌, not, Option, none, some, List, [], ◌∷◌, ◌++◌, map, ℕ,
}
use service_plane.Prelude.Tests.{if◌then◌else◌}
use service_plane.Prelude.Lists.{is_nil}
use service_plane.Prelude.Text.{Text, text, ◌==◌, trim}
use service_plane.Prelude.Number.{JsNumber}
use service_plane.Shared.Message.{missing_hmac, bad_hmac_scheme, hmac_secret_empty}
use service_plane.Shared.Errors.{auth_error}
use service_plane.Shared.Result.{Result, ok, err, ◌>>=◌, ◌>>◌, require}
use service_plane.Shared.Body.{bounded_request_body_bytes}
use service_plane.Shared.Assertion.{
  CallerRequest, trimmed, upper_unit, lower_unit, split_spaces, set_header,
}

pub record HmacRequestParts : Type 0 where
  pub body_hash : Text
  pub client_id : Text
  pub method : Text
  pub path_with_query : Text
  pub request_id : Option Text
  pub timestamp : Text

-- What the code takes from WebCrypto: HMAC with SHA-256, of a secret and a text, and SHA-256 of bytes, both
-- in base64url.
pub record Mac : Type 0 where
  pub hmac : Text → Text → Text
  pub sha256_bytes : List ℕ → Text

-- servicePlaneHmacRequestParts(request, clientId, timestamp, requestIdHeaderName, maxBodyBytes)
unfoldable pub hmac_request_parts :
    Mac → CallerRequest → Text → Text → Text → Option JsNumber → Result HmacRequestParts
hmac_request_parts mac request client_id timestamp request_id_header max = do
  bytes ← bounded_request_body_bytes max request.declared request.body
  ok (record {
    body_hash = mac.sha256_bytes bytes;
    client_id = client_id;
    method = map upper_unit request.method;
    path_with_query = request.path_with_query;
    request_id = trimmed (request.header request_id_header);
    timestamp = timestamp;
  })

abbrev pub or_empty : Option Text → Text
or_empty none = []
or_empty (some s) = s

-- `xs.join('\n')`
abbrev pub joined_lines : List Text → Text
joined_lines [] = []
joined_lines (x ∷ []) = x
joined_lines (x ∷ y ∷ xs) = x ++ 10 ∷ joined_lines (y ∷ xs)

-- servicePlaneHmacCanonicalString(parts)
unfoldable pub hmac_canonical_string : HmacRequestParts → Text
hmac_canonical_string parts = joined_lines (
    text "service-plane-hmac-v1"
    ∷ map upper_unit parts.method
    ∷ parts.path_with_query
    ∷ parts.body_hash
    ∷ parts.timestamp
    ∷ parts.client_id
    ∷ or_empty parts.request_id
    ∷ [])

-- servicePlaneHmacSignature(secret, parts)
unfoldable pub hmac_signature : Mac → Text → HmacRequestParts → Result Text
unfolding hmac_canonical_string
hmac_signature mac secret parts = do
  require (not (is_nil (trim secret))) (auth_error hmac_secret_empty 500)
  ok (mac.hmac (trim secret) (hmac_canonical_string parts))

unfoldable pub hmac_parts : List Text → Result Text
hmac_parts (scheme ∷ signature ∷ []) =
    if map lower_unit scheme == text "serviceplane-hmac" && not (is_nil signature)
    then ok signature
    else err (auth_error bad_hmac_scheme 401)
hmac_parts _ = err (auth_error bad_hmac_scheme 401)

hmac_authorization : Option Text → Result Text
unfolding hmac_parts
hmac_authorization none = err (auth_error missing_hmac 401)
hmac_authorization (some authorization) = hmac_parts (split_spaces authorization)

-- extractServicePlaneHmacSignature(request)
unfoldable pub extract_hmac_signature : CallerRequest → Result Text
unfolding hmac_authorization
extract_hmac_signature request =
    hmac_authorization (trimmed (request.header (text "authorization")))

-- servicePlaneHmacAuthorization(signature)
abbrev pub hmac_authorization_header : Text → Text
hmac_authorization_header signature = text "ServicePlane-HMAC " ++ signature

pub record SignHmacOptions : Type 0 where
  pub client_id : Text
  pub client_id_header : Text
  pub max_body_bytes : Option JsNumber
  pub request_id_header : Text
  pub secret : Text
  pub timestamp_header : Text

-- `new Request(request, { headers })` with the client's id and the time
unfoldable pub stamped_request : SignHmacOptions → Text → CallerRequest → CallerRequest
stamped_request o timestamp request = record request {
  header =
      set_header o.timestamp_header timestamp
        (set_header o.client_id_header o.client_id request.header);
}

-- signServicePlaneHmacRequest(request, options), of the ISO form of the time
unfoldable pub sign_service_plane_hmac_request :
    Mac → SignHmacOptions → Text → CallerRequest → Result CallerRequest
unfolding stamped_request
sign_service_plane_hmac_request mac o timestamp request = do
  let signed = stamped_request o timestamp request
  parts ← hmac_request_parts mac signed o.client_id timestamp o.request_id_header o.max_body_bytes
  signature ← hmac_signature mac o.secret parts
  ok (record signed {
    header = set_header (text "authorization") (hmac_authorization_header signature) signed.header;
  })
