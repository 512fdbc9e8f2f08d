-- ===== src/Broker.antt =====
-- src/control-plane/broker.ts: from a caller and an ability to the session that the plane opens for it.
-- The session itself is of src/service/capabilities.ts: an argument here.
pub mod Connect
pub mod Logged
pub mod Transports
pub mod Budget
pub mod Class
pub mod Attributed
pub mod Sessions
pub mod Tokens
use service_plane.Prelude.{
  ℕ, Bool, true, false, ◌&&◌, ◌||◌, not, Option, none, some, List, [], ◌∷◌, ◌++◌, map,
}
use service_plane.Prelude.Tests.{nat_eq, if◌then◌else◌}
use service_plane.Prelude.Lists.{is_nil, any, filter, find?}
use service_plane.Prelude.Text.{Text, text, ◌==◌, trim, includes, unique}
use service_plane.Prelude.Number.{JsNumber, whole}
use service_plane.Shared.Message.{
  Message, no_ability, no_transport, path_not_relative, connect_without_scope, needs_service_access,
  undeclared_scope, deadline_exhausted,
}
use service_plane.Shared.Errors.{
  ErrorName, capability_auth_error, ServicePlaneError, auth_error, timeout_error_of,
}
use service_plane.Shared.Result.{Result, ok, err, ◌>>=◌, ◌>>◌, require}
use service_plane.Shared.Types.{
  AbilityAccess, plane, service, AbilityTransport, cloudflare_binding_rpc, http_batch, websocket,
  CapabilitySubject, IssuedCapabilityToken, IssueCapabilityTokenInput,
}
use service_plane.Shared.Crypto.{Crypto}
use service_plane.Shared.Deadline.{remaining_timeout_ms}
use service_plane.Shared.Tokens.{normalize_capability_subject}
use service_plane.Shared.Tokens.Verify.{non_empty}
use service_plane.Shared.Catalog.{
  ServiceAbilityMethodDiscovery, ServiceEndpoint, DiscoveredServiceAbility,
}
use service_plane.Shared.Paths.{is_origin_relative_path}
use service_plane.Issuer.Issue.{
  CapabilityIssuer, issue_capability_token, issue_brokered_capability_token,
}

pub data CallerKind : Type 0 where
  service_caller user : CallerKind

pub record BrokerCaller : Type 0 where
  pub id : Text
  pub kind : CallerKind
  pub org_id : Option Text
  pub principal_kind : Option Text

unfoldable pub is_user : CallerKind → Bool
is_user service_caller = false
is_user user = true

unfoldable pub trimmed_org : Option Text → Option Text
trimmed_org none = none
trimmed_org (some org) = non_empty (some (trim org))

unfoldable pub subject_of : BrokerCaller → Result (Option CapabilitySubject)
unfolding trimmed_org
subject_of caller = do
  subject ←
      normalize_capability_subject (record {
        id = caller.id;
        kind = caller.principal_kind;
        org_id = trimmed_org caller.org_id;
      })
  ok (some subject)

-- brokerCallerSubject(caller)
unfoldable pub broker_caller_subject : Option BrokerCaller → Result (Option CapabilitySubject)
unfolding subject_of is_user
broker_caller_subject none = ok none
broker_caller_subject (some caller) = if is_user caller.kind then subject_of caller else ok none

-- brokerCallerAccess(caller)
unfoldable pub broker_caller_access : Option BrokerCaller → AbilityAccess
unfolding is_user
broker_caller_access none = plane
broker_caller_access (some caller) = if is_user caller.kind then plane else service

-- brokerRequestToken(options)(input), at the time `now`
unfoldable pub broker_request_token :
    Crypto
    → DiscoveredServiceAbility
    → Text
    → Option BrokerCaller
    → CapabilityIssuer
    → ℕ
    → IssueCapabilityTokenInput
    → Result IssuedCapabilityToken
broker_request_token crypto ability broker caller issuer now input =
    let access = broker_caller_access caller in
    if ability.ingress_required
    then issue_brokered_capability_token crypto issuer broker access now input
    else issue_capability_token crypto issuer access now input

pub record CallerLogFields : Type 0 where
  pub caller_id : Option Text
  pub caller_kind : Option CallerKind
  pub caller_org_id : Option Text
  pub caller_principal_kind : Option Text

trimmed_principal : CallerKind → Option Text → Option Text
trimmed_principal service_caller kind = none
trimmed_principal user none = none
trimmed_principal user (some kind) = non_empty (some (trim kind))

-- brokerCallerLogFields(caller)
unfoldable pub broker_caller_log_fields : Option BrokerCaller → CallerLogFields
unfolding trimmed_principal
broker_caller_log_fields none = record {
  caller_id = none;
  caller_kind = none;
  caller_org_id = none;
  caller_principal_kind = none;
}
broker_caller_log_fields (some caller) = record {
  caller_id = some caller.id;
  caller_kind = some caller.kind;
  caller_org_id = non_empty caller.org_id;
  caller_principal_kind = trimmed_principal caller.kind caller.principal_kind;
}

unfoldable pub is_plane : AbilityAccess → Bool
is_plane plane = true
is_plane service = false

-- authorizeAbility(ability, caller)
unfoldable pub authorize_ability :
    DiscoveredServiceAbility → Option BrokerCaller → Result (Unit {0})
unfolding is_plane
authorize_ability ability caller =
    require (is_plane ability.access || not (is_plane (broker_caller_access caller)))
      (auth_error needs_service_access 403)

-- The transport that is built, with what it is built from.
pub data Transport : Type 0 where
  native_rpc : ServiceEndpoint → Transport
  service_binding_rpc : ServiceEndpoint → Text → Text → Transport
  -- the path and the base of the URL
  websocket_rpc : Text → Text → Transport

unfoldable pub is_transport : AbilityTransport → AbilityTransport → Bool
is_transport cloudflare_binding_rpc cloudflare_binding_rpc = true
is_transport http_batch http_batch = true
is_transport websocket websocket = true
is_transport _ _ = false

-- `ability.rpc.transports.includes(transport)`
unfoldable pub offers : DiscoveredServiceAbility → AbilityTransport → Bool
unfolding is_transport any
offers ability transport = any (is_transport transport) ability.transports

-- `origin.replace(/^http/u, 'ws')`
unfoldable pub ws_origin : Text → Text
ws_origin (a ∷ b ∷ c ∷ d ∷ rest) =
    if nat_eq a b'h' && nat_eq b b't' && nat_eq c b't' && nat_eq d b'p'
    then b'w' ∷ b's' ∷ rest
    else a ∷ b ∷ c ∷ d ∷ rest
ws_origin origin = origin

-- abilityWebSocketTransport(ability)
unfoldable pub ability_web_socket_transport : DiscoveredServiceAbility → Result Transport
ability_web_socket_transport ability = do
  require (is_origin_relative_path ability.path)
      (auth_error (path_not_relative ability.service_id ability.id) 500)
  ok (websocket_rpc ability.path (ws_origin ability.service.origin))

-- `Object.values(ability.methods).some((method) => method.stream)`
unfoldable pub has_stream : DiscoveredServiceAbility → Bool
unfolding any
has_stream ability = any (λ (m : Text × ServiceAbilityMethodDiscovery). m.1.stream) ability.methods

abbrev pub or_has_stream : Option Bool → DiscoveredServiceAbility → Bool
or_has_stream none ability = has_stream ability
or_has_stream (some b) ability = b

-- transportForAbility(ability, { requiresStreaming })
unfoldable pub transport_for_ability : DiscoveredServiceAbility → Option Bool → Result Transport
transport_for_ability ability requires_streaming =
    let streaming = or_has_stream requires_streaming ability in
    if ability.service.ability_rpc && offers ability cloudflare_binding_rpc
    then ok (native_rpc ability.service)
    else if streaming && offers ability websocket
    then ability_web_socket_transport ability
    else if offers ability http_batch
    then ok (service_binding_rpc ability.service ability.path ability.service.origin)
    else if offers ability websocket
    then ability_web_socket_transport ability
    else err (auth_error (no_transport ability.service_id ability.id) 500)
