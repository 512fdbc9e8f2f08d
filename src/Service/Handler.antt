-- ===== src/Service/Handler.antt =====
-- The validating handler of src/service/discovery.ts: which call of a method reaches the service's own
-- implementation, and what of the outcome goes back to the caller.
pub mod Admitted
pub mod Contained
use service_plane.Prelude.{
  ℕ, suc, Bool, true, false, ◌||◌, not, Option, none, some, List, [], ◌∷◌, ◌++◌,
}
use service_plane.Prelude.Tests.{if◌then◌else◌}
use service_plane.Prelude.Text.{Text}
use service_plane.Prelude.Number.{whole}
use service_plane.Prelude.Value.{Value}
use service_plane.Shared.Message.{
  Message, streaming_needs_session, unknown_method, not_implemented, handler_failed, single_input,
  method_deadline, method_ceiling, handler_disposed, shared_handler, not_iterable,
}
use service_plane.Shared.Errors.{
  ServicePlaneError, auth_error, timeout_error_of, validation_error_of, service_plane_error_of,
  error_info, ErrorInfo,
}
use service_plane.Shared.Types.{AbilityAccess, CapabilityIdentity}
use service_plane.Shared.Deadline.Race.{
  RaceDeadlineOptions, race_deadline, Start, timed, Event, Outcome, settled, failed, timed_out,
  begin, run,
}
use service_plane.Issuer.{get}
use service_plane.Service.Reply.{
  Thrown, foreign, type_error, Reply, value, raised, ◌>>=◌, ◌>>◌, check, of_result,
}
use service_plane.Service.Schema.{Schema, validate_ability_value}
use service_plane.Service.Access.{verify_ability_access, require_scopes}

pub record Method : Type 0 where
  pub input : Schema
  pub output : Schema
  pub scopes : List Text
  pub stream : Bool
  pub timeout_ms : Option ℕ

pub record Ability : Type 0 where
  pub access : AbilityAccess
  pub id : Text
  pub methods : List (Text × Method)

-- `disposals` counts the calls of the handler's own `Symbol.dispose`, where it has one.
pub record HandlerState : Type 0 where
  pub ability_id : Text
  pub allow_streaming : Bool
  pub deadline_at : Option ℕ
  pub disposed : Bool
  pub identity : CapabilityIdentity
  pub methods : List (Text × Method)
  pub disposals : ℕ

abbrev invalid_call : Message → ℕ → ServicePlaneError
invalid_call message status = validation_error_of message (whole status)

-- createValidatingAbilityHandler(ability, handler, identity, options); `bound` says whether the handler
-- has an identity already.
unfoldable pub create_validating_handler :
    Ability → Bool → CapabilityIdentity → Bool → Option ℕ → Reply HandlerState
create_validating_handler ability bound identity allow_streaming deadline_at = do
  of_result (verify_ability_access ability.id ability.access identity.caller_access)
  check (not bound) (auth_error (shared_handler ability.id) 500)
  value (record {
    ability_id = ability.id;
    allow_streaming = allow_streaming;
    deadline_at = deadline_at;
    disposed = false;
    identity = identity;
    methods = ability.methods;
    disposals = 0;
  })

-- disposeValidatingAbilityHandler(target)
unfoldable pub dispose_handler : HandlerState → HandlerState
dispose_handler s =
    if s.disposed then s else record s { disposed = true; disposals = suc s.disposals }

-- activeValidatingAbilityHandlerState(target), of a target that is initialized
unfoldable pub active : HandlerState → Reply (Unit {0})
active s = check (not s.disposed) (invalid_call (handler_disposed s.ability_id) 410)

unfoldable pub known_method : Text → Option Method → Reply Method
known_method name none = raised (Thrown.own (invalid_call (unknown_method name) 404))
known_method name (some method) = value method

-- `args.length !== 1`, and `args[0]`
unfoldable pub single_argument : Text → List Value → Reply Value
single_argument name (arg ∷ []) = value arg
single_argument name args = raised (Thrown.own (invalid_call (single_input name) 422))

-- invokeValidatingAbilityMethod(target, methodName, args), up to the call of the implementation: the
-- method and its input. `implements` says which members of the handler are functions, and `later` is
-- the state of the target once the input has been validated.
unfoldable pub admit :
    (Text → Bool) → HandlerState → HandlerState → Text → List Value → Reply (Method × Value)
unfolding active known_method single_argument
admit implements s later name args = do
  active s
  method ← known_method name (get name s.methods)
  check (not method.stream || s.allow_streaming) (invalid_call (streaming_needs_session name) 405)
  arg ← single_argument name args
  _ ← of_result (require_scopes (some s.identity) method.scopes)
  check (implements name) (invalid_call (not_implemented name) 500)
  input ← validate_ability_value (method.input arg) name 422
  active later
  value (method, input)

-- What an implementation returns, and whether it is an iterable, an async iterable or a stream.
pub record Output : Type 0 where
  pub as_value : Value
  pub is_source : Bool

-- What the caller gets: a validated value, or a stream of validated items.
pub data Answer : Type 0 where
  unary : Value → Answer
  streamed : Answer

abbrev pub opaque_failure : Text → Thrown
opaque_failure name = Thrown.own (
    service_plane_error_of (handler_failed name) (whole 500)
      (record { code = none; retryable = none }))

abbrev pub foreign_failure : Text → Value → Option ErrorInfo → Thrown
foreign_failure name error (some info) = foreign error
foreign_failure name error none = opaque_failure name

-- abilityHandlerFailure(error, methodName, onFailure): what the caller sees
unfoldable pub handler_failure : Text → Thrown → Thrown
handler_failure name (Thrown.own e) = Thrown.own e
handler_failure name type_error = opaque_failure name
handler_failure name (foreign error) = foreign_failure name error (error_info error)

-- What `onFailure` is told: the errors that are replaced.
abbrev pub reported_foreign : Value → Option ErrorInfo → List Thrown
reported_foreign error (some info) = []
reported_foreign error none = foreign error ∷ []

unfoldable pub failure_report : Thrown → List Thrown
failure_report (Thrown.own e) = []
failure_report type_error = type_error ∷ []
failure_report (foreign error) = reported_foreign error (error_info error)

-- `if (method.stream) return validatedAbilityItemStream(…)`, and the validation of a single value
unfoldable pub answer : Bool → Schema → Text → Output → Reply Answer
answer true schema name output = do
  check output.is_source (invalid_call (not_iterable name) 500)
  value streamed
answer false schema name output = do
  v ← validate_ability_value (schema output.as_value) name 500
  value (unary v)

-- The bounds of the call, which `raceDeadline` gets.
unfoldable pub call_bounds : HandlerState → Method → Text → RaceDeadlineOptions
call_bounds s method name = record {
  ceiling_error = some (λ ms. timeout_error_of (method_ceiling ms name));
  ceiling_ms = if method.stream then none else method.timeout_ms;
  deadline_at = s.deadline_at;
  deadline_error = timeout_error_of (method_deadline name);
}

-- What the caller sees of the race, once it is decided.
unfoldable pub conclude : Method → Text → Option (Outcome Output Thrown) → Option (Reply Answer)
unfolding answer handler_failure
conclude method name none = none
conclude method name (some (settled output)) = some (answer method.stream method.output name output)
conclude method name (some (failed t)) = some (raised (handler_failure name t))
conclude method name (some (timed_out e)) = some (raised (handler_failure name (Thrown.own e)))

-- The error of the timer, where there is one.
abbrev timer_error : Start → ServicePlaneError → ServicePlaneError
timer_error (timed wait e) none_armed = e
timer_error start none_armed = none_armed

-- The whole of an admitted call, at the time `now`: `events` are what happens to the implementation,
-- which runs in any case, and to the timer. `none` says that the call is still open.
unfoldable pub run_method :
    HandlerState → Method → Text → ℕ → List (Event Output Thrown) → Option (Reply Answer)
unfolding call_bounds conclude
run_method s method name now events =
    let bounds = call_bounds s method name in
    let start = race_deadline now bounds in
    conclude method name
      (run (timer_error start bounds.deadline_error) events (begin start)).outcome
