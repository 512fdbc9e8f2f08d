-- ===== src/Caller/Authenticate.antt =====
-- The handler of jwkServiceClientAuth of src/control-plane/caller-auth.ts.
use service_plane.Prelude.{ℕ, Bool, true, false, not, Option, none, some, List}
use service_plane.Prelude.Lists.{is_nil, find?}
use service_plane.Prelude.Text.{Text, ◌==◌}
use service_plane.Prelude.Value.{Value}
use service_plane.Shared.Message.{bad_assertion_encoding}
use service_plane.Shared.Errors.{ServicePlaneError, auth_error}
use service_plane.Shared.Result.{Result, ok, err}
use service_plane.Shared.Crypto.{Crypto}
use service_plane.Shared.Assertion.{
  CallerRequest, trimmed, extract_assertion, Hono, service_plane_jwk_signer,
  service_plane_jwk_thumbprint,
}
use service_plane.Caller.{
  JwkServiceClient, SnapshotService, JwkAuth, parse_jwk_assertion_claims,
  validate_jwk_assertion_header, validate_jwk_assertion_claims,
}

-- The reasons of the log events, with the error whose message the event carries.
pub data Reason : Type 0 where
  missing_client client_not_found missing_key invalid_assertion : Reason
  missing_signature invalid_claims : ServicePlaneError → Reason

-- A response of status 401, or what the handler goes on with.
pub data Caller {ℓ} (A : Type ℓ) : Type ℓ where
  unauthorized : Reason → Caller A
  authorized : A → Caller A

infixl 5 ◌>>=◌
abbrev pub ◌>>=◌ {ℓ κ} : {A : Type ℓ} {B : Type κ} → Caller A → (A → Caller B) → Caller B
unauthorized reason >>= next = unauthorized reason
authorized a >>= next = next a

infixl 5 ◌>>◌
abbrev pub ◌>>◌ {ℓ} : {B : Type ℓ} → Caller (Unit {0}) → Caller B → Caller B
first >> second = first >>= λ _. second

-- A missing value, a test and a call that may throw, with the reason that they give.
abbrev pub present {ℓ} : {A : Type ℓ} → Option A → Reason → Caller A
present none reason = unauthorized reason
present (some a) reason = authorized a

abbrev pub known : Bool → Reason → Caller (Unit {0})
known false reason = unauthorized reason
known true reason = authorized tt

abbrev pub attempt {ℓ} : {A : Type ℓ} → Result A → (ServicePlaneError → Reason) → Caller A
attempt (err error) reason = unauthorized (reason error)
attempt (ok a) reason = authorized a

abbrev pub decoded_assertion : Option (Value × Value) → Result (Value × Value)
decoded_assertion none = err (auth_error bad_assertion_encoding 401)
decoded_assertion (some parts) = ok parts

-- The client that the registry knows by its id, where it publishes keys.
service_client : Option SnapshotService → Option JwkServiceClient
service_client none = none
service_client (some service) = elim service.caller_keys [
  | none ↦ none
  | some keys ↦ some (record { client_id = service.id; jwks = keys; service_id = some service.id })
]

registered_client : Option (List SnapshotService) → Text → Option JwkServiceClient
unfolding service_client
registered_client none client_id = none
registered_client (some services) client_id =
    service_client (find? (λ (s : SnapshotService). s.id == client_id) services)

configured_or : Option JwkServiceClient → Option JwkServiceClient → Option JwkServiceClient
configured_or none other = other
configured_or (some client) other = some client

-- resolveJwkServiceClient(context, options, clientId); timingSafeEqual is equality here.
unfoldable pub resolve_jwk_service_client : JwkAuth → Text → Option JwkServiceClient
unfolding registered_client configured_or
resolve_jwk_service_client auth client_id =
    configured_or (find? (λ (c : JwkServiceClient). c.client_id == client_id) auth.clients)
      (registered_client auth.services client_id)

-- `{ confirmation: { jkt }, serviceId }`
pub record CallerAuth : Type 0 where
  pub jkt : Text
  pub service_id : Text

abbrev pub service_of : JwkServiceClient → Text
service_of client = elim client.service_id [ none ↦ client.client_id | some id ↦ id ]

module _ (crypto : Crypto) (hono : Hono) (auth : JwkAuth) (now : ℕ) (request : CallerRequest) where
  -- the `try` block, of the client and its keys
  unfoldable pub check_assertion : Text → Text → JwkServiceClient → Caller CallerAuth
  check_assertion client_id assertion client = do
    known (hono.verify_with_jwks assertion client.jwks) invalid_assertion
    parts ← attempt (decoded_assertion (crypto.decode assertion)) invalid_claims
    claims ← attempt (parse_jwk_assertion_claims parts.1) invalid_claims
    key_id ← present (trimmed (request.header auth.key_id_header)) missing_key
    header_kid ← attempt (validate_jwk_assertion_header parts.0 key_id) invalid_claims
    _ ←
        attempt
          (validate_jwk_assertion_claims hono request auth claims client_id header_kid key_id now)
          invalid_claims
    signer ← attempt (service_plane_jwk_signer client.jwks header_kid) invalid_claims
    jkt ← attempt (service_plane_jwk_thumbprint crypto signer) invalid_claims
    authorized (record { jkt = jkt; service_id = service_of client })

  -- the handler that jwkServiceClientAuth(options) returns, with its limits normalized
  unfoldable pub authenticate_jwk_caller : Caller CallerAuth
  unfolding check_assertion
  authenticate_jwk_caller = do
    client_id ← present (trimmed (request.header auth.client_id_header)) missing_client
    assertion ← attempt (extract_assertion request) missing_signature
    client ← present (resolve_jwk_service_client auth client_id) client_not_found
    known (not (is_nil client.jwks)) missing_key
    check_assertion client_id assertion client
