-- ===== src/Service/Shell.antt =====
-- The shell of a service, src/service/service.ts: which requests open a session with an ability, and what
-- the session's root does with the token that it is shown. The handler factory of the application is
-- called last; what it returns is an argument.
pub mod Brokered
pub mod Admitted
use service_plane.Prelude.{
  ℕ, ◌+◌, Bool, true, false, ◌&&◌, ◌||◌, not, Option, none, some, List, [], ◌∷◌, map,
}
use service_plane.Prelude.Tests.{if◌then◌else◌}
use service_plane.Prelude.Lists.{is_nil, any, filter, find?}
use service_plane.Prelude.Text.{Text, text, ◌==◌, trim, includes, unique}
use service_plane.Prelude.Number.{JsNumber, whole}
use service_plane.Prelude.Value.{Value}
use service_plane.Shared.Message.{
  brokered_token_required, auth_unconfigured, ingress_unconfigured, transport_disabled,
  ability_not_found,
}
use service_plane.Shared.Errors.{auth_error, or_default}
use service_plane.Shared.Result.{Result, ok, err, ◌>>=◌, ◌>>◌, require}
use service_plane.Shared.Types.{
  AbilityAccess, AbilityTransport, cloudflare_binding_rpc, http_batch, websocket,
  CapabilityIdentity,
}
use service_plane.Shared.Jwk.{Jwk}
use service_plane.Shared.Crypto.{Crypto}
use service_plane.Shared.Idempotency.{normalize_idempotency_key, idempotency_key_from_request}
use service_plane.Shared.Deadline.{TimeoutPolicy, resolve_timeout_ms, timeout_ms_from_request}
use service_plane.Shared.Tokens.Verify.{VerifyOptions, non_empty}
use service_plane.Service.Access.{verify_ability_access, verify_authentication_token}
use service_plane.Service.Reply.{Reply, raised, own}
use service_plane.Service.Handler.{Ability, Method, HandlerState, create_validating_handler}

-- The key set is that of `jwks`, or of the control plane's binding; without either there is none.
pub record ServiceAuth : Type 0 where
  pub expected_audience : Option Text
  pub issuer : Option Text
  pub jwks : Option (Result (List Jwk))
  pub now : ℕ

abbrev pub control_plane : Text
control_plane = text "control-plane"

resolved_jwks : Option (Result (List Jwk)) → Result (Result (List Jwk))
resolved_jwks none = err (auth_error auth_unconfigured 500)
resolved_jwks (some keys) = ok keys

-- The options of the verifier: serviceVerifier(auth, serviceId, context), with the ability and the proof.
unfoldable pub verifier : ServiceAuth → Text → Text → Option Text → Result VerifyOptions
unfolding resolved_jwks
verifier auth service_id ability_id proof = do
  jwks ← resolved_jwks auth.jwks
  ok (record {
    ability_id = some ability_id;
    expected_audience = or_default auth.expected_audience service_id;
    issuer = some (or_default auth.issuer control_plane);
    jwks = jwks;
    now = auth.now;
    proof = proof;
    required_scopes = [];
  })

-- resolveIngressBrokerServiceIds(context, auth, ingress), of `brokerServiceIds`
unfoldable pub ingress_brokers : ServiceAuth → Option (List Text) → Result (List Text)
ingress_brokers auth configured = do
  let ids = or_default configured (or_default auth.issuer control_plane ∷ [])
  let normalized = unique (filter (λ id. not (is_nil id)) (map trim ids))
  require (not (is_nil normalized)) (auth_error ingress_unconfigured 500)
  ok normalized

abbrev pub is_allowed : List Text → Option Text → Bool
is_allowed allowed none = false
is_allowed allowed (some broker) = includes allowed broker

-- The ingress of a service, if it has one: its `brokerServiceIds`.
abbrev pub Ingress : Type 0
Ingress = Option (Option (List Text))

-- verifyServiceIngress(auth, ingress, identity, context), of the identity's broker
unfoldable pub verify_service_ingress : ServiceAuth → Ingress → Option Text → Result (Unit {0})
verify_service_ingress auth none broker = ok tt
verify_service_ingress auth (some configured) broker = do
  allowed ← ingress_brokers auth configured
  require (is_allowed allowed (non_empty broker)) (auth_error brokered_token_required 403)

-- `ingress && identity.brokerServiceId ? normalizeConnInfo(connInfo) : undefined`, of what the
-- normalisation gives
unfoldable pub shown_conn_info : Ingress → Option Text → Option Value → Option Value
shown_conn_info none broker forwarded = none
shown_conn_info (some configured) none forwarded = none
shown_conn_info (some configured) (some broker) forwarded = forwarded

-- What the handler factory gets, without the context. The signal and the remaining time are those of the
-- deadline.
pub record FactoryInput : Type 0 where
  pub ability_id : Text
  pub conn_info : Option Value
  pub deadline_at : Option ℕ
  pub idempotency_key : Option Text
  pub identity : CapabilityIdentity

-- The root of a session: AuthRoot
pub record AuthRoot : Type 0 where
  pub ability : Ability
  pub allow_streaming : Bool
  pub auth : ServiceAuth
  pub conn_info : Option Value
  pub idempotency_key : Option Text
  pub ingress : Ingress
  pub service_id : Text
  pub timeout_ms : Option ℕ

abbrev pub deadline_of : ℕ → Option ℕ → Option ℕ
deadline_of started_at none = none
deadline_of started_at (some timeout_ms) = some (started_at + timeout_ms)

-- authenticate(token, proof), up to the call of the handler factory
unfoldable pub factory_input : Crypto → AuthRoot → ℕ → Text → Option Text → Result FactoryInput
factory_input crypto root started_at token proof = do
  options ← verifier root.auth root.service_id root.ability.id proof
  identity ← verify_authentication_token crypto token options
  verify_service_ingress root.auth root.ingress identity.broker_service_id
  verify_ability_access root.ability.id root.ability.access identity.caller_access
  ok (record {
    ability_id = root.ability.id;
    conn_info = shown_conn_info root.ingress (non_empty identity.broker_service_id) root.conn_info;
    deadline_at = deadline_of started_at root.timeout_ms;
    idempotency_key = non_empty root.idempotency_key;
    identity = identity;
  })

-- The end of `authenticate`, once the factory has its input; `bound` says whether the handler that it
-- returns has an identity already.
abbrev pub created : AuthRoot → (FactoryInput → Bool) → Result FactoryInput → Reply HandlerState
created root bound (err e) = raised (own e)
created root bound (ok input) =
    create_validating_handler root.ability (bound input) input.identity root.allow_streaming
      input.deadline_at

-- authenticate(token, proof)
unfoldable pub authenticate :
    Crypto → AuthRoot → (FactoryInput → Bool) → ℕ → Text → Option Text → Reply HandlerState
authenticate crypto root bound started_at token proof =
    created root bound (factory_input crypto root started_at token proof)

abbrev pub transport_eq : AbilityTransport → AbilityTransport → Bool
transport_eq http_batch http_batch = true
transport_eq websocket websocket = true
transport_eq cloudflare_binding_rpc cloudflare_binding_rpc = true
transport_eq a b = false

abbrev pub enables : AbilityTransport → List AbilityTransport → Bool
enables t = any (transport_eq t)

-- What the route of an ability answers: a 405, or a session over the request.
pub data Opened : Type 0 where
  websocket_disabled wrong_method batch_disabled : Opened
  session : AuthRoot → Opened

-- `this.timeoutPolicy?.maxMs === undefined ? undefined : { maxMs }`
abbrev pub session_policy : Option TimeoutPolicy → Option TimeoutPolicy
session_policy none = none
session_policy (some policy) = elim policy.max_ms [
  | none ↦ none
  | some ms ↦ some (record { default_ms = none; max_ms = some ms })
]

-- What a request carries, as far as the route reads it: its method, the upgrade, what is forwarded about
-- the connection, and the header and query parameter of the key and of the budget.
pub record AbilityRequest : Type 0 where
  pub upgrade : Bool
  pub method : Text
  pub conn_info : Option Value
  pub key_header : Option Text
  pub key_query : Option Text
  pub timeout_header : Option Text
  pub timeout_query : Option Text

-- The input of `connectAbility`, without the request id.
pub record ConnectInput : Type 0 where
  pub ability_id : Text
  pub conn_info : Option Value
  pub idempotency_key : Option Text
  pub proof : Option Text
  pub timeout_ms : Option JsNumber
  pub token : Text

abbrev pub number_of : Option ℕ → Option JsNumber
number_of none = none
number_of (some n) = some (whole n)

abbrev pub has_id : Text → Ability × List AbilityTransport → Bool
has_id id (ability, transports) = ability.id == id

abbrev pub known_ability :
    Text → Option (Ability × List AbilityTransport) → Result (Ability × List AbilityTransport)
known_ability id none = err (auth_error (ability_not_found id) 404)
known_ability id (some found) = ok found

module _ (service_id : Text) (auth : ServiceAuth) (ingress : Ingress)
    (policy : Option TimeoutPolicy) where
  -- The handler that `mountAbility(ability)` installs at the ability's path.
  unfoldable pub open_session : Ability → List AbilityTransport → AbilityRequest → Opened
  open_session ability transports request =
      if request.upgrade && not (enables websocket transports)
      then websocket_disabled
      else if not request.upgrade && not (request.method == text "POST")
      then wrong_method
      else if not request.upgrade && not (enables http_batch transports)
      then batch_disabled
      else session (record {
        ability = ability;
        allow_streaming = request.upgrade;
        auth = auth;
        conn_info = request.conn_info;
        idempotency_key = idempotency_key_from_request request.key_header request.key_query;
        ingress = ingress;
        service_id = service_id;
        timeout_ms =
            resolve_timeout_ms
              (number_of (timeout_ms_from_request request.timeout_header request.timeout_query))
              (if request.upgrade then session_policy policy else policy);
      })

  -- connectAbility(input), up to the call of `root.authenticate`
  unfoldable pub connect_root :
      List (Ability × List AbilityTransport) → ConnectInput → Result AuthRoot
  connect_root abilities input = do
    found ← known_ability input.ability_id (find? (has_id input.ability_id) abilities)
    require (enables cloudflare_binding_rpc found.1)
        (auth_error (transport_disabled found.0.id) 405)
    ok (record {
      ability = found.0;
      allow_streaming = true;
      auth = auth;
      conn_info = input.conn_info;
      idempotency_key = normalize_idempotency_key input.idempotency_key;
      ingress = ingress;
      service_id = service_id;
      timeout_ms = resolve_timeout_ms input.timeout_ms (session_policy policy);
    })

  abbrev authenticated :
      Crypto → (FactoryInput → Bool) → ℕ → ConnectInput → Result AuthRoot → Reply HandlerState
  authenticated crypto bound started_at input (err e) = raised (own e)
  authenticated crypto bound started_at input (ok root) =
      authenticate crypto root bound started_at input.token input.proof

  -- connectAbility(input)
  unfoldable pub connect_ability :
      Crypto
      → List (Ability × List AbilityTransport)
      → (FactoryInput → Bool)
      → ℕ
      → ConnectInput
      → Reply HandlerState
  connect_ability crypto abilities bound started_at input =
      authenticated crypto bound started_at input (connect_root abilities input)
