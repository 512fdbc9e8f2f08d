-- ===== src/Broker/Logged.antt =====
-- The log events of src/control-plane/broker.ts, and the calls of BrokerRoot and BrokeredAbility with the
-- events that they log.
use service_plane.Prelude.{ℕ, Bool, false, Option, none, some, List, [], ◌∷◌}
use service_plane.Prelude.Text.{Text}
use service_plane.Prelude.Number.{JsNumber}
use service_plane.Shared.Message.{Message}
use service_plane.Shared.Errors.{ErrorName, capability_auth_error, ServicePlaneError}
use service_plane.Shared.Result.{Result, ok, err, ◌>>=◌}
use service_plane.Shared.Crypto.{Crypto}
use service_plane.Shared.Tokens.Verify.{non_empty}
use service_plane.Issuer.Issue.{CapabilityIssuer}
use service_plane.Broker.{BrokerCaller, CallerLogFields, broker_caller_log_fields}
use service_plane.Broker.Connect.{
  BrokerRoot, BrokeredAbility, root_ability, AbilitySessionOptions, requested_scopes,
  session_options,
}

-- `service_plane.broker.connect.completed` and `.failed`, with the fields of the latter in `failure`.
pub record BrokerFailure : Type 0 where
  pub message : Message
  pub name : ErrorName
  pub status : Option JsNumber

pub record BrokerLogEvent : Type 0 where
  pub ability_id : Text
  pub caller : CallerLogFields
  pub brokered : Bool
  pub failure : Option BrokerFailure
  pub request_id : Option Text
  pub scopes : List Text
  pub service_id : Text

auth_status : ErrorName → JsNumber → Option JsNumber
auth_status capability_auth_error status = some status
auth_status _ status = none

-- brokerConnectFailedEvent(error, context)
unfoldable pub broker_connect_failed_event :
    ServicePlaneError → Text → Option BrokerCaller → Option Text → Text → BrokerLogEvent
unfolding auth_status
broker_connect_failed_event e ability_id caller request_id service_id = record {
  ability_id = ability_id;
  caller = broker_caller_log_fields caller;
  brokered = false;
  failure =
      some (record { message = e.message; name = e.name; status = auth_status e.name e.status });
  request_id = non_empty request_id;
  scopes = [];
  service_id = service_id;
}

-- ability(serviceId, abilityId) with the event that it logs
unfoldable pub logged_ability :
    BrokerRoot → Text → Text → Result BrokeredAbility × List BrokerLogEvent
logged_ability root service_id ability_id = elim (root_ability root service_id ability_id) [
  | ok input ↦ (ok input, [])
  | err e ↦
      (err e, broker_connect_failed_event e ability_id root.caller root.request_id service_id ∷ [])
]

-- connect(scopes) with the event that it logs, where `open_session` is `abilitySession`
unfoldable pub connect :
    {S : Type 0}
    → (AbilitySessionOptions → Result S)
    → Crypto
    → CapabilityIssuer
    → ℕ
    → BrokeredAbility
    → List Text
    → Result S × BrokerLogEvent
connect open_session crypto issuer now input scopes =
    let opened = session_options crypto issuer now input scopes >>= open_session in
    let root = input.root in
    let ability = input.ability in
    elim opened [
      | ok session ↦ (
        ok session,
        record {
          ability_id = ability.id;
          caller = broker_caller_log_fields root.caller;
          brokered = ability.ingress_required;
          failure = none;
          request_id = root.request_id;
          scopes = requested_scopes scopes;
          service_id = ability.service_id;
        },
      )
      | err e ↦ (
        err e,
        broker_connect_failed_event e ability.id root.caller root.request_id ability.service_id,
      )
    ]
