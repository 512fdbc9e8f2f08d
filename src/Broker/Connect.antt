-- ===== src/Broker/Connect.antt =====
-- createControlPlaneRpcBroker, BrokerRoot and BrokeredAbility of src/control-plane/broker.ts.
use service_plane.Prelude.{ℕ, Bool, false, ◌&&◌, not, Option, none, some, List, [], ◌∷◌, map}
use service_plane.Prelude.Tests.{nat_eq, if◌then◌else◌}
use service_plane.Prelude.Lists.{is_nil, filter, find?}
use service_plane.Prelude.Text.{Text, ◌==◌, trim, includes, unique}
use service_plane.Prelude.Number.{JsNumber, finite, whole, sub_ℕ}
use service_plane.Prelude.Value.{number_value}
use service_plane.Shared.Message.{
  no_ability, connect_without_scope, undeclared_scope, deadline_exhausted,
}
use service_plane.Shared.Errors.{auth_error, timeout_error_of, or_default}
use service_plane.Shared.Result.{Result, ok, err, ◌>>=◌, ◌>>◌, require}
use service_plane.Shared.Types.{CapabilitySubject, IssuedCapabilityToken, IssueCapabilityTokenInput}
use service_plane.Shared.Crypto.{Crypto}
use service_plane.Shared.Deadline.{normalize_timeout_ms, remaining_timeout_ms}
use service_plane.Shared.Idempotency.{normalize_idempotency_key}
use service_plane.Shared.Tokens.Verify.{non_empty}
use service_plane.Shared.Catalog.{ServiceAbilityMethodDiscovery, DiscoveredServiceAbility}
use service_plane.Issuer.Issue.{CapabilityIssuer}
use service_plane.Broker.{
  BrokerCaller, Transport, is_user, broker_caller_subject, broker_request_token, authorize_ability,
  transport_for_ability,
}

-- `abilities` is what the registry gives, or the error of its discovery. Connection info, which is
-- passed on unread, is left out.
pub record CreateBrokerOptions : Type 0 where
  pub abilities : Result (List DiscoveredServiceAbility)
  pub control_plane_service_id : Text
  pub idempotency_key : Option Text
  pub received_at : Option ℕ
  pub request_id : Option Text
  pub timeout_ms : Option JsNumber

-- The options and the caller of a BrokerRoot.
pub record BrokerRoot : Type 0 where
  pub abilities : Result (List DiscoveredServiceAbility)
  pub allow_streaming : Bool
  pub caller : Option BrokerCaller
  pub control_plane_service_id : Text
  pub idempotency_key : Option Text
  pub received_at : ℕ
  pub request_id : Option Text
  pub timeout_ms : Option ℕ

-- rootCapability(caller, rootOptions) of createControlPlaneRpcBroker(options), at the time `now`
unfoldable pub root_capability : CreateBrokerOptions → ℕ → Option BrokerCaller → Bool → BrokerRoot
root_capability o now caller allow_streaming = record {
  abilities = o.abilities;
  allow_streaming = allow_streaming;
  caller = caller;
  control_plane_service_id = o.control_plane_service_id;
  idempotency_key = normalize_idempotency_key o.idempotency_key;
  received_at = or_default o.received_at now;
  request_id = non_empty o.request_id;
  timeout_ms = normalize_timeout_ms (number_value o.timeout_ms);
}

-- The input of a BrokeredAbility.
pub record BrokeredAbility : Type 0 where
  pub ability : DiscoveredServiceAbility
  pub root : BrokerRoot
  pub caller_service_id : Text

unfoldable pub caller_service : Text → Option BrokerCaller → Text
unfolding is_user
caller_service plane_id none = plane_id
caller_service plane_id (some caller) = if is_user caller.kind then plane_id else caller.id

ability_or_error : Text → Text → Option DiscoveredServiceAbility → Result DiscoveredServiceAbility
ability_or_error service_id ability_id none =
    err (auth_error (no_ability service_id ability_id) 404)
ability_or_error service_id ability_id (some ability) = ok ability

-- `candidate.serviceId === serviceId && candidate.id === abilityId`
unfoldable pub is_ability : Text → Text → DiscoveredServiceAbility → Bool
is_ability service_id ability_id ability =
    ability.service_id == service_id && ability.id == ability_id

-- ability(serviceId, abilityId) of a BrokerRoot
unfoldable pub root_ability : BrokerRoot → Text → Text → Result BrokeredAbility
unfolding caller_service ability_or_error
root_ability root service_id ability_id = do
  abilities ← root.abilities
  ability ←
      ability_or_error service_id ability_id (find? (is_ability service_id ability_id) abilities)
  authorize_ability ability root.caller
  ok (record {
    ability = ability;
    root = root;
    caller_service_id = caller_service root.control_plane_service_id root.caller;
  })

-- What `abilitySession` is called with.
pub record AbilitySessionOptions : Type 0 where
  pub ability_id : Text
  pub caller_service_id : Text
  pub idempotency_key : Option Text
  pub subject : Option CapabilitySubject
  pub reject_stream_methods : List Text
  pub request_id : Option Text
  pub request_token : ℕ → IssueCapabilityTokenInput → Result IssuedCapabilityToken
  pub scopes : List Text
  pub target_service_id : Text
  pub timeout_ms : Option ℕ
  pub transport : Transport

-- `[...new Set(scopes.map((scope) => scope.trim()).filter(Boolean))]`
unfoldable pub requested_scopes : List Text → List Text
requested_scopes scopes = unique (filter (λ scope. not (is_nil scope)) (map trim scopes))

unfoldable pub declared_scopes : List Text → List Text → Result (Unit {0})
declared_scopes declared [] = ok tt
declared_scopes declared (scope ∷ scopes) = do
  require (includes declared scope) (auth_error (undeclared_scope scope) 403)
  declared_scopes declared scopes

unfoldable pub is_exhausted : Option ℕ → Bool
is_exhausted none = false
is_exhausted (some left) = nat_eq left 0

abbrev pub as_option : Option ℕ → Option JsNumber
as_option none = none
as_option (some n) = some (whole n)

-- The names of the streaming methods.
unfoldable pub stream_methods : DiscoveredServiceAbility → List Text
stream_methods ability =
    map (λ (m : Text × ServiceAbilityMethodDiscovery). m.0)
      (filter (λ (m : Text × ServiceAbilityMethodDiscovery). m.1.stream) ability.methods)

module _ (crypto : Crypto) (issuer : CapabilityIssuer) where
  -- connect(scopes) of a BrokeredAbility at the time `now`, up to its call of `abilitySession`
  unfoldable pub session_options : ℕ → BrokeredAbility → List Text → Result AbilitySessionOptions
  session_options now input scopes = do
    let root = input.root
    let ability = input.ability
    let requested = requested_scopes scopes
    require (not (is_nil requested)) (auth_error connect_without_scope 400)
    declared_scopes ability.scopes requested
    subject ← broker_caller_subject root.caller
    let left =
        remaining_timeout_ms (as_option root.timeout_ms) (finite (sub_ℕ now root.received_at) 0)
    require (not (is_exhausted left)) (timeout_error_of (deadline_exhausted))
    transport ← transport_for_ability ability (if root.allow_streaming then none else some false)
    ok (record {
      ability_id = ability.id;
      caller_service_id = input.caller_service_id;
      idempotency_key = root.idempotency_key;
      subject = subject;
      reject_stream_methods = if root.allow_streaming then [] else stream_methods ability;
      request_id = root.request_id;
      request_token =
          broker_request_token crypto ability root.control_plane_service_id root.caller issuer;
      scopes = requested;
      target_service_id = ability.service_id;
      timeout_ms = left;
      transport = transport;
    })
