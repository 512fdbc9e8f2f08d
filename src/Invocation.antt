-- ===== src/Invocation.antt =====
-- src/control-plane/invocation.ts: one unary call through a session that is opened for it. The session
-- and its disposal are of src/service/capabilities.ts: arguments here.
pub mod Sessions
use service_plane.Prelude.{ℕ, Bool, true, false, ◌||◌, not, Option, none, some, List, [], ◌∷◌}
use service_plane.Prelude.Text.{Text}
use service_plane.Prelude.Number.{JsNumber, finite, sub_ℕ}
use service_plane.Shared.Message.{
  needs_service_access, not_published, deadline_exhausted, no_method,
}
use service_plane.Shared.Errors.{ServicePlaneError, auth_error, timeout_error_of, or_default}
use service_plane.Shared.Result.{Result, ok, err, ◌>>=◌, ◌>>◌, require}
use service_plane.Shared.Types.{
  AbilityAccess, plane, service, AbilityExposure, published, private_exposure,
}
use service_plane.Shared.Crypto.{Crypto}
use service_plane.Shared.Deadline.{remaining_timeout_ms}
use service_plane.Shared.Tokens.Verify.{non_empty}
use service_plane.Shared.Catalog.{ServiceAbilityMethodDiscovery, DiscoveredServiceAbility}
use service_plane.Issuer.{get}
use service_plane.Issuer.Issue.{CapabilityIssuer}
use service_plane.Broker.{
  BrokerCaller, is_user, is_plane, broker_caller_access, broker_caller_subject,
  broker_request_token, transport_for_ability,
}
use service_plane.Broker.Connect.{AbilitySessionOptions, is_exhausted, caller_service}

pub record ControlPlaneMethodInvocation : Type 0 where
  pub ability : DiscoveredServiceAbility
  pub method : Text
  pub scopes : List Text

pub record ControlPlaneInvocationOptions : Type 0 where
  pub caller : Option BrokerCaller
  pub control_plane_service_id : Text
  pub idempotency_key : Option Text
  pub issuer : CapabilityIssuer
  pub received_at : Option ℕ
  pub request_id : Option Text
  pub timeout_ms : Option JsNumber

is_exposed : AbilityExposure → Bool
is_exposed published = true
is_exposed private_exposure = false

-- authorizePublishedAbility(ability, caller)
unfoldable pub authorize_published_ability :
    DiscoveredServiceAbility → Option BrokerCaller → Result (Unit {0})
unfolding is_exposed is_plane
authorize_published_ability ability caller = do
  require (is_exposed ability.exposure) (auth_error not_published 404)
  require (is_plane ability.access || not (is_plane (broker_caller_access caller)))
      (auth_error needs_service_access 403)

-- `invocation.ability.methods[invocation.method]?.stream === true`
is_stream : Option ServiceAbilityMethodDiscovery → Bool
is_stream none = false
is_stream (some method) = method.stream

-- What openControlPlaneMethodSession calls `abilitySession` with, at the time `now`.
unfoldable pub method_session_options :
    Crypto
    → ℕ
    → ControlPlaneMethodInvocation
    → ControlPlaneInvocationOptions
    → Result AbilitySessionOptions
unfolding is_stream
method_session_options crypto now i o = do
  authorize_published_ability i.ability o.caller
  subject ← broker_caller_subject o.caller
  let left = remaining_timeout_ms o.timeout_ms (finite (sub_ℕ now (or_default o.received_at now)) 0)
  require (not (is_exhausted left)) (timeout_error_of deadline_exhausted)
  transport ← transport_for_ability i.ability (some (is_stream (get i.method i.ability.methods)))
  ok (record {
    ability_id = i.ability.id;
    caller_service_id = caller_service o.control_plane_service_id o.caller;
    idempotency_key = non_empty o.idempotency_key;
    subject = subject;
    reject_stream_methods = [];
    request_id = non_empty o.request_id;
    request_token =
        broker_request_token crypto i.ability o.control_plane_service_id o.caller o.issuer;
    scopes = i.scopes;
    target_service_id = i.ability.service_id;
    timeout_ms = left;
    transport = transport;
  })

-- The method that a session has under a name, applied to the input.
pub call_method : {I V : Type 0} → Text → I → Option (I → Result V) → Result V
call_method name input none = err (auth_error (no_method name) 500)
call_method name input (some method) = method input

disposed_after : {S V : Type 0} → (S → Result V) → Result S → Result V × List S
disposed_after call (err e) = (err e, [])
disposed_after call (ok session) = (call session, session ∷ [])

-- invokeControlPlaneMethod(invocation, input, options): its result, and the sessions that it disposes of
unfoldable pub invoke_control_plane_method :
    {S I V : Type 0}
    → (AbilitySessionOptions → Result S)
    → (S → Text → Option (I → Result V))
    → Crypto
    → ℕ
    → ControlPlaneMethodInvocation
    → I
    → ControlPlaneInvocationOptions
    → Result V × List S
unfolding call_method disposed_after
invoke_control_plane_method open_session api crypto now i input o =
    disposed_after (λ session. call_method i.method input (api session i.method))
      (method_session_options crypto now i o >>= open_session)
