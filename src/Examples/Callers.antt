-- ===== src/Examples/Callers.antt =====
-- Runs of the authentication of a caller: a request that is signed, and let in.
use service_plane.Prelude.{
  ℕ, ◌≡◌, ◌↔◌, ◌≤◌, refl, true, Bool, false, Option, none, some, List, [], ◌∷◌, arith,
}
use service_plane.Prelude.Lists.{length}
use service_plane.Prelude.Text.{Text, text, ◌==◌}
use service_plane.Prelude.Value.{Value}
use service_plane.Prelude.Number.{whole, is_safe_integer, exceeds, floor_of}
use service_plane.Shared.Result.{Result, ok, err}
use service_plane.Shared.Jwk.{Jwk, public_jwk_from_private_jwk}
use service_plane.Shared.Crypto.{Crypto}
use service_plane.Shared.Body.{bounded_request_body_bytes}
use service_plane.Shared.Assertion.{
  CallerRequest, AssertionClaims, Hono, SignOptions, service_plane_jwk_signer,
  sign_service_plane_jwk_request, named_request, set_header,
}
use service_plane.Caller.{JwkServiceClient, JwkAuth}
use service_plane.Caller.Authenticate.{CallerAuth, authorized, authenticate_jwk_caller}
use service_plane.Caller.Authentic.{IsVerifier, IsAuthentic, authenticate_jwk_caller-IsAuthentic}
use service_plane.Caller.Signed.{assertion_header, assertion_value}
use service_plane.Examples.Plane.{demo_key}
use service_plane.Caller.Signed.{Agrees, IsSigner}
use service_plane.Caller.LetIn.{authenticate_jwk_caller-sign}
use service_plane.Prelude.{not}
use service_plane.Prelude.Tests.{nat_eq}
use service_plane.Prelude.Lists.{all, All}
use service_plane.Prelude.Number.{ℤ, pos}
use service_plane.Shared.Hmac.{Mac, HmacRequestParts, hmac_canonical_string}
use service_plane.Shared.Hmac.Canonical.{IsLine, shown_lines, hmac_canonical_string_unique}
use service_plane.Caller.Hmac.{HmacServiceClient, HmacAuth, accepted, authenticate_hmac_caller}
use service_plane.Caller.Hmac.Genuine.{IsGenuine, authenticate_hmac_caller-IsGenuine}
use service_plane.Shared.Hmac.{SignHmacOptions}
use service_plane.Caller.Hmac.LetIn.{AgreesHmac, authenticate_hmac_caller-sign}

abbrev caller_claims : AssertionClaims
caller_claims = record {
  aud = text "plane";
  body_hash = [];
  exp = whole 160;
  iat = whole 100;
  iss = text "a";
  jti = text "id";
  key_id = text "k1";
  method = text "POST";
  nbf = whole 100;
  path = text "/t";
  request_id = none;
  sub = text "a";
}

abbrev caller_crypto : Crypto
caller_crypto = record {
  decode = λ token. some (assertion_header (text "k1"), assertion_value caller_claims);
  verifying = λ key token. true;
  verify_proof = λ proof key. false;
  sha256 = λ s. s;
  sha256_of_key = λ crv x y. x;
  sign = λ claims key. text "h.p.s";
  random_id = text "id";
}

is_found : Result Jwk → Bool
is_found (ok key) = true
is_found (err error) = false

abbrev caller_hono : Hono
unfolding is_found
caller_hono = record {
  verify_with_jwks = λ token keys. is_found (service_plane_jwk_signer keys (text "k1"));
  sign_assertion = λ claims key. text "h.p.s";
  sha256_bytes = λ bytes. bytes;
}

found_key : (r : Result Jwk) → is_found r ≡ true → (key : Jwk) × (r ≡ ok key)
unfolding is_found
found_key (ok key) h = (key, refl)
found_key (err error) h = ground arith

caller_hono-IsVerifier : IsVerifier caller_crypto caller_hono
unfolding is_found caller_hono service_plane.Prelude.Value.prop ◌==◌
caller_hono-IsVerifier = record {
  verified = λ token keys h.
      let found = found_key (service_plane_jwk_signer keys (text "k1")) h in
      (
        assertion_header (text "k1"),
        assertion_value caller_claims,
        text "k1",
        found.0,
        refl,
        refl,
        found.1,
        refl,
      );
}

abbrev plain_request : CallerRequest
plain_request = record {
  header = λ name. none;
  method = text "post";
  path_with_query = text "/t";
  declared = none;
  body = none;
}

abbrev caller_options : SignOptions
caller_options = record {
  ttl_seconds = whole 60;
  audience = text "plane";
  client_id = text "a";
  client_id_header = text "X-Client";
  key_id = text "k1";
  key_id_header = text "X-Key";
  max_body_bytes = none;
  private_key = demo_key;
  request_id_header = text "X-Id";
}

abbrev signed_request : CallerRequest
unfolding named_request
signed_request = record (named_request caller_options plain_request) {
  header =
      set_header (text "authorization") (text "ServicePlane-JWK h.p.s")
        (named_request caller_options plain_request).header;
}

signed_by_client :
    sign_service_plane_jwk_request caller_hono caller_options 100000 (text "id") plain_request
    ≡ ok signed_request
unfolding sign_service_plane_jwk_request service_plane.Shared.Assertion.request_parts
    bounded_request_body_bytes service_plane.Shared.Assertion.service_plane_jwk_assertion
    service_plane.Shared.Assertion.normalize_assertion_ttl_seconds is_safe_integer exceeds
    service_plane.Prelude.Text.trim caller_hono
signed_by_client = refl

abbrev caller_auth : JwkAuth
caller_auth = record {
  audience = text "plane";
  client_id_header = text "X-Client";
  clients =
      record {
        client_id = text "a";
        jwks = public_jwk_from_private_jwk demo_key (text "k1") ∷ [];
        service_id = none;
      }
      ∷ [];
  key_id_header = text "X-Key";
  max_assertion_ttl_seconds = 300;
  max_body_bytes = 65536;
  max_skew_seconds = 60;
  request_id_header = text "X-Id";
  services = none;
}

abbrev let_in : CallerAuth
let_in = record { jkt = text "x"; service_id = text "a" }

signed_request-let_in :
    authenticate_jwk_caller caller_crypto caller_hono caller_auth 101000 signed_request
    ≡ authorized let_in
unfolding authenticate_jwk_caller signed_request ◌==◌ service_plane.Prelude.Text.trim
    service_plane.Shared.Assertion.extract_assertion service_plane.Shared.Assertion.split_spaces
    service_plane.Caller.Authenticate.resolve_jwk_service_client service_plane.Prelude.Lists.find?
    caller_hono service_plane_jwk_signer public_jwk_from_private_jwk
    service_plane.Caller.parse_jwk_assertion_claims service_plane.Prelude.Value.is_object
    service_plane.Prelude.Value.prop service_plane.Caller.validate_jwk_assertion_header
    service_plane.Caller.validate_jwk_assertion_claims
    service_plane.Caller.validate_jwk_assertion_timestamps exceeds
    service_plane.Prelude.Number.at_most_ℤ service_plane.Prelude.Number.at_most_number
    service_plane.Prelude.Number.exceeds_by service_plane.Shared.Assertion.request_parts
    bounded_request_body_bytes is_safe_integer
    service_plane.Shared.Assertion.service_plane_jwk_thumbprint
signed_request-let_in = refl

authenticate_jwk_caller-IsAuthentic_example :
    IsAuthentic caller_crypto caller_hono caller_auth 101000 signed_request let_in
authenticate_jwk_caller-IsAuthentic_example =
    authenticate_jwk_caller-IsAuthentic caller_crypto caller_hono caller_auth 101000 signed_request
      let_in caller_hono-IsVerifier signed_request-let_in

abbrev the_client : JwkServiceClient
the_client = record {
  client_id = text "a";
  jwks = public_jwk_from_private_jwk demo_key (text "k1") ∷ [];
  service_id = none;
}

signed-IsSigner : IsSigner caller_crypto caller_hono caller_claims demo_key (text "k1")
unfolding caller_hono service_plane.Prelude.Text.is_space
signed-IsSigner = record {
  word = (b'h', text ".p.s", refl, (refl, (refl, (refl, (refl, (refl, tt))))));
  decoded = refl;
  accepted = λ keys h. rw h refl;
}

options-Agrees : Agrees caller_options caller_auth the_client
unfolding ◌==◌ service_plane.Prelude.Text.trim
    service_plane.Caller.Authenticate.resolve_jwk_service_client service_plane.Prelude.Lists.find?
    service_plane_jwk_signer public_jwk_from_private_jwk
options-Agrees = record {
  client_header = refl;
  key_header = refl;
  request_header = refl;
  client_apart = refl;
  client_not_authorization = refl;
  key_not_authorization = refl;
  request_not_authorization = refl;
  audience = refl;
  client_id = refl;
  key_id = refl;
  registered = refl;
  key = refl;
}

authenticate_jwk_caller-sign_example :
    authenticate_jwk_caller caller_crypto caller_hono caller_auth 101000 signed_request
    ≡ authorized let_in
unfolding caller_hono service_plane.Caller.LetIn.claims_of service_plane.Prelude.Text.trim floor_of
    ◌==◌ service_plane.Shared.Assertion.service_plane_jwk_thumbprint public_jwk_from_private_jwk
    bounded_request_body_bytes is_safe_integer exceeds
authenticate_jwk_caller-sign_example =
    authenticate_jwk_caller-sign caller_crypto caller_hono caller_options caller_auth the_client
      100000 101000 (text "id") plain_request signed_request [] (text "x") signed-IsSigner
      options-Agrees refl refl (omega arith) (omega arith) (omega arith) signed_by_client

abbrev demo_mac : Mac
demo_mac = record { hmac = λ secret s. secret; sha256_bytes = λ bytes. bytes }

abbrev hmac_auth : HmacAuth
hmac_auth = record {
  client_id_header = text "X-Client";
  clients = record { client_id = text "a"; secret = text "s"; service_id = some (text "svc") } ∷ [];
  max_body_bytes = 65536;
  max_skew_seconds = 60;
  request_id_header = text "X-Id";
  timestamp_header = text "X-Time";
}

abbrev hmac_request : CallerRequest
hmac_request = record plain_request {
  header = set_header (text "authorization") (text "ServicePlane-HMAC s") (
      set_header (text "X-Time") (text "T")
        (set_header (text "X-Client") (text "a") plain_request.header));
}

date_of : Text → Option ℤ
date_of timestamp = some (pos 100000)

hmac_request-accepted :
    authenticate_hmac_caller demo_mac date_of hmac_auth 101000 hmac_request ≡ accepted (text "svc")
unfolding date_of authenticate_hmac_caller ◌==◌ service_plane.Prelude.Text.trim
    service_plane.Shared.Hmac.extract_hmac_signature service_plane.Shared.Assertion.split_spaces
    service_plane.Prelude.Lists.find? service_plane.Shared.Hmac.hmac_request_parts
    bounded_request_body_bytes is_safe_integer exceeds service_plane.Shared.Hmac.hmac_signature
hmac_request-accepted = refl

authenticate_hmac_caller-IsGenuine_example :
    IsGenuine demo_mac date_of hmac_auth 101000 hmac_request (text "svc")
authenticate_hmac_caller-IsGenuine_example =
    authenticate_hmac_caller-IsGenuine demo_mac date_of hmac_auth 101000 hmac_request (text "svc")
      hmac_request-accepted

all-IsLine : (s : Text) → all (λ c. not (nat_eq c 10)) s ≡ true → IsLine s
unfolding all
all-IsLine [] h = tt
all-IsLine (c ∷ s) h = (λ e. ground arith, all-IsLine s (ground arith))

abbrev lower_parts : HmacRequestParts
lower_parts = record {
  body_hash = text "h";
  client_id = text "a";
  method = text "post";
  path_with_query = text "/t";
  request_id = none;
  timestamp = text "T";
}

abbrev upper_parts : HmacRequestParts
upper_parts = record lower_parts { method = text "POST" }

method_case-canonical : hmac_canonical_string lower_parts ≡ hmac_canonical_string upper_parts
unfolding hmac_canonical_string
method_case-canonical = refl

parts_lines : All IsLine (shown_lines upper_parts)
unfolding all
parts_lines = (
  all-IsLine (text "POST") refl,
  (
    all-IsLine (text "/t") refl,
    (
      all-IsLine (text "h") refl,
      (all-IsLine (text "T") refl, (all-IsLine (text "a") refl, (tt, tt))),
    ),
  ),
)

hmac_canonical_string_unique_example : shown_lines lower_parts ≡ shown_lines upper_parts
hmac_canonical_string_unique_example =
    hmac_canonical_string_unique lower_parts upper_parts parts_lines parts_lines
      method_case-canonical

abbrev hmac_options : SignHmacOptions
hmac_options = record {
  client_id = text "a";
  client_id_header = text "X-Client";
  max_body_bytes = none;
  request_id_header = text "X-Id";
  secret = text "s";
  timestamp_header = text "X-Time";
}

abbrev hmac_client : HmacServiceClient
hmac_client = record { client_id = text "a"; secret = text "s"; service_id = some (text "svc") }

hmac_options-AgreesHmac : AgreesHmac hmac_options hmac_auth hmac_client
unfolding ◌==◌ service_plane.Prelude.Text.trim service_plane.Prelude.Lists.find?
hmac_options-AgreesHmac = record {
  client_header = refl;
  timestamp_header = refl;
  request_header = refl;
  apart = refl;
  client_not_authorization = refl;
  timestamp_not_authorization = refl;
  request_not_authorization = refl;
  client_id = refl;
  configured = refl;
  secret = refl;
}

authenticate_hmac_caller-sign_example :
    authenticate_hmac_caller demo_mac date_of hmac_auth 101000 hmac_request ≡ accepted (text "svc")
unfolding service_plane.Prelude.Text.trim date_of bounded_request_body_bytes is_safe_integer exceeds
    service_plane.Shared.Hmac.sign_service_plane_hmac_request
    service_plane.Shared.Hmac.hmac_request_parts service_plane.Shared.Hmac.hmac_signature
authenticate_hmac_caller-sign_example =
    authenticate_hmac_caller-sign demo_mac date_of hmac_options hmac_auth hmac_client 101000
      (text "T") (pos 100000) plain_request hmac_request [] b's' [] hmac_options-AgreesHmac refl
      refl (omega arith) refl refl (refl, tt) refl
