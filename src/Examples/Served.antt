-- ===== src/Examples/Served.antt =====
-- Runs of the service side: a service with one method, its document, a session with it, and a call.
use service_plane.Prelude.{
  ℕ, ◌≡◌, ◌≢◌, ◌↔◌, ◌≤◌, ◌⊎◌, refl, inl, inr, Bool, true, false, Option, none, some, List, [], ◌∷◌,
  arith,
}
use service_plane.Prelude.Lists.{length, any, find?}
use service_plane.Prelude.Text.{Text, text, ◌==◌, trim, unique, includes, split}
use service_plane.Prelude.Value.{Value, Fields, num, str, obj, field, end, undefined}
use service_plane.Prelude.Number.{whole}
use service_plane.Shared.Message.{session_disposed}
use service_plane.Shared.Errors.{auth_error}
use service_plane.Shared.Result.{ok, map_ok}
use service_plane.Shared.Types.{plane, private_exposure, http_batch}
use service_plane.Shared.Deadline.Race.{resolved, fired}
use service_plane.Issuer.Issue.Claims.{expected_identity}
use service_plane.Service.Reply.{value}
use service_plane.Service.Schema.{Schema, answered}
use service_plane.Service.Session.{
  NativeSession, new_session, Event, call, token_ready, proof_ready, target_ready, disposal, thrown,
  run, invoke_method,
}
use service_plane.Service.Session.Released.{run-IsReleased}
use service_plane.Service.Session.Closed.{StaysClosed, run-StaysClosed}
use service_plane.Service.Handler.{
  Method, Ability, HandlerState, Output, Answer, unary, admit, run_method,
}
use service_plane.Service.Handler.Admitted.{IsAdmitted, admit_iff}
use service_plane.Service.Handler.Contained.{IsContained, run_method-IsContained}
use service_plane.Service.Shell.{ServiceAuth, AuthRoot, FactoryInput, authenticate}
use service_plane.Service.Shell.Admitted.{IsLetIn, IsFresh, authenticate-IsLetIn}
use service_plane.Examples.Plane.{demo_issuer, demo_input, demo_crypto, demo_key}
use service_plane.Shared.Jwk.{public_jwk_from_private_jwk}

-- The target arrives after the session has been disposed.
abbrev late_target : List Event
late_target = call (text "m") ∷ token_ready 1 ∷ proof_ready 1 ∷ disposal ∷ target_ready 1 7 ∷ []

abbrev late_session : NativeSession
late_session = record {
  disposed = true;
  native_binding = none;
  native_target = some 7;
  native_target_disposed = true;
  release_pending = some 1;
  latest = 1;
  progress = service_plane.Service.Session.rejected;
  abandoned = [];
  connects = 1 ∷ [];
  connected = 7 ∷ [];
  released = 7 ∷ [];
  invoked = [];
}

abbrev rejects_none : Text → Bool
rejects_none m = false

abbrev has_every : ℕ → Text → Bool
has_every t m = true

late_target-released : run false rejects_none has_every late_target new_session ≡ late_session
unfolding run
late_target-released = refl

run-IsReleased_example :
    let s = run false rejects_none has_every late_target new_session in
    (length s.connected ≤ 1)
    × (s.abandoned ≡ [])
    × (s.released ≡ (service_plane.Prelude.Tests.if◌then◌else◌ s.disposed s.connected []))
run-IsReleased_example = run-IsReleased false rejects_none has_every late_target

run-StaysClosed_example :
    let t = run false rejects_none has_every (call (text "n") ∷ disposal ∷ []) late_session in
    StaysClosed late_session t
    × ((invoke_method false rejects_none has_every (text "m") t).1
        ≡ thrown (auth_error session_disposed 410))
run-StaysClosed_example =
    run-StaysClosed false rejects_none has_every (call (text "n") ∷ disposal ∷ []) late_session
      (text "m") refl

-- A schema that accepts everything as it is.
abbrev any_value : Schema
any_value v = answered (obj (field (text "value") v end))

abbrev echo_method : Method
echo_method = record {
  input = any_value;
  output = any_value;
  scopes = text "r" ∷ [];
  stream = false;
  timeout_ms = some 100;
}

abbrev echo_ability : Ability
echo_ability = record { access = plane; id = text "e"; methods = (text "m", echo_method) ∷ [] }

abbrev echo_state : HandlerState
echo_state = record {
  ability_id = text "e";
  allow_streaming = false;
  deadline_at = none;
  disposed = false;
  identity =
      expected_identity demo_issuer demo_input plane none (text "r" ∷ []) none 125 (text "id");
  methods = (text "m", echo_method) ∷ [];
  disposals = 0;
}

abbrev implements_every : Text → Bool
implements_every m = true

abbrev seven : Value
seven = num (whole 7)

admit_iff_example :
    (admit implements_every echo_state echo_state (text "m") (seven ∷ [])
      ≡ value (echo_method, seven))
    ↔ IsAdmitted implements_every echo_state echo_state (text "m") (seven ∷ []) echo_method seven
admit_iff_example =
    admit_iff implements_every echo_state echo_state (text "m") (seven ∷ []) echo_method seven

echo-admitted :
    admit implements_every echo_state echo_state (text "m") (seven ∷ [])
    ≡ value (echo_method, seven)
unfolding admit service_plane.Issuer.get ◌==◌ service_plane.Service.Access.require_scopes
    service_plane.Issuer.normalize_scopes map_ok service_plane.Issuer.normalize_scope trim any
    unique includes service_plane.Service.Schema.validate_ability_value
echo-admitted = refl

abbrev seven_output : Output
seven_output = record { as_value = seven; is_source = false }

echo-run :
    run_method echo_state echo_method (text "m") 0 (resolved seven_output ∷ fired ∷ [])
    ≡ some (value (unary seven))
unfolding run_method service_plane.Shared.Deadline.Race.run service_plane.Shared.Deadline.Race.begin
    service_plane.Shared.Deadline.Race.race_deadline
    service_plane.Service.Schema.validate_ability_value ◌==◌
echo-run = refl

run_method-IsContained_example :
    IsContained echo_method (text "m") (seven_output ∷ []) (value (unary seven))
run_method-IsContained_example =
    run_method-IsContained echo_state echo_method (text "m") 0 (resolved seven_output ∷ fired ∷ [])
      (value (unary seven)) echo-run

abbrev demo_auth : ServiceAuth
demo_auth = record {
  expected_audience = none;
  issuer = some (text "p");
  jwks = some (ok (public_jwk_from_private_jwk demo_key (text "k1") ∷ []));
  now = 6000;
}

abbrev demo_root : AuthRoot
demo_root = record {
  ability = echo_ability;
  allow_streaming = false;
  auth = demo_auth;
  conn_info = none;
  idempotency_key = none;
  ingress = none;
  service_id = text "b";
  timeout_ms = none;
}

abbrev unbound : FactoryInput → Bool
unbound input = false

demo_session-started :
    authenticate demo_crypto demo_root unbound 6000 (text "h.p.s") none ≡ value echo_state
unfolding authenticate service_plane.Service.Shell.factory_input
    service_plane.Service.Shell.verifier service_plane.Service.Access.verify_authentication_token
    service_plane.Shared.Tokens.Verify.verify_capability_token
    service_plane.Shared.Tokens.Verify.authenticate split service_plane.Prelude.Value.is_object
    service_plane.Prelude.Value.prop ◌==◌ find? service_plane.Shared.Tokens.Verify.has_kid
    public_jwk_from_private_jwk service_plane.Shared.Tokens.parse_capability_claims
    service_plane.Shared.Tokens.Parse.claims_value service_plane.Shared.Tokens.string_claim
    service_plane.Issuer.Issue.claims_body service_plane.Shared.Tokens.number_claim
    service_plane.Shared.Tokens.access_claim service_plane.Shared.Types.access_of_text
    service_plane.Shared.Tokens.optional_claim service_plane.Shared.Tokens.scope_claim
    service_plane.Shared.Tokens.object_claim service_plane.Shared.Tokens.org_claim
    service_plane.Shared.Tokens.Verify.check_claims service_plane.Prelude.Number.exceeds
    service_plane.Prelude.Number.at_most service_plane.Service.Shell.verify_service_ingress
    service_plane.Service.Access.verify_ability_access
    service_plane.Service.Handler.create_validating_handler
    service_plane.Shared.Tokens.Verify.identity_of
demo_session-started = refl

authenticate-IsLetIn_example :
    (input : FactoryInput) × IsLetIn demo_crypto demo_root (text "h.p.s") none echo_state.identity
    × IsFresh demo_root 6000 echo_state
    × (unbound input ≡ false)
    × (input.identity ≡ echo_state.identity)
authenticate-IsLetIn_example =
    authenticate-IsLetIn demo_crypto demo_root unbound 6000 (text "h.p.s") none echo_state
      demo_session-started
