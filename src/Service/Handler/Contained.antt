-- ===== src/Service/Handler/Contained.antt =====
-- What goes back to the caller of an admitted call.
use service_plane.Prelude.{
  ℕ, ◌≡◌, ◌≢◌, refl, subst, ◌⊎◌, inl, inr, Bool, true, false, Option, none, some, List, [], ◌∷◌,
  arith,
}
use service_plane.Prelude.Tests.{Bool-cases}
use service_plane.Prelude.Lists.{Among}
use service_plane.Prelude.Text.{Text}
use service_plane.Prelude.Value.{Value, undefined, null, bool, num, str, arr, obj, is_object}
use service_plane.Shared.Errors.{ServicePlaneError, ErrorInfo, error_info}
use service_plane.Shared.Deadline.Race.{
  Event, fired, resolved, rejected, Outcome, settled, failed, timed_out, Race, race_deadline, Start,
  expired, untimed, timed, begin, step, run, values,
}
use service_plane.Service.Reply.{
  Thrown, own, foreign, type_error, Reply, value, raised, Reply-cases,
}
use service_plane.Service.Schema.{SchemaAnswer, threw, answered, validated, validate_ability_value}
use service_plane.Service.Handler.{
  Method, HandlerState, Output, Answer, unary, streamed, handler_failure, answer, conclude,
  foreign_failure, call_bounds, timer_error, run_method,
}

module _ {V F : Type 0} (e : ServicePlaneError) where
  from_timer :
      (r : Race V F) (v : V)
      → (step e fired r).outcome ≡ some (settled v)
      → r.outcome ≡ some (settled v)
  unfolding step
  from_timer r v h = ground arith

  from_failure :
      (f : F) (r : Race V F) (v : V)
      → (step e (rejected f) r).outcome ≡ some (settled v)
      → r.outcome ≡ some (settled v)
  unfolding step
  from_failure f r v h = ground arith

  from_value :
      (w : V) (xs : List (Event V F)) (r : Race V F) (v : V)
      → (step e (resolved w) r).outcome ≡ some (settled v)
      → (r.outcome ≡ some (settled v)) ⊎ (w ≡ v) ⊎ Among v (values xs)
  unfolding step
  from_value w xs r v h = ground arith

-- A value that a race settles with came from the call.
run-settled :
    {V F : Type 0} (e : ServicePlaneError) (xs : List (Event V F)) (r : Race V F) (v : V)
    → (run e xs r).outcome ≡ some (settled v)
    → (r.outcome ≡ some (settled v)) ⊎ Among v (values xs)
unfolding run
run-settled e [] r v h = inl h
run-settled e (fired ∷ xs) r v h = elim (run-settled e xs (step e fired r) v h) [
  | inl now ↦ inl (from_timer e r v now)
  | inr later ↦ inr later
]
run-settled e (resolved w ∷ xs) r v h = elim (run-settled e xs (step e (resolved w) r) v h) [
  | inl now ↦ from_value e w xs r v now
  | inr later ↦ inr (inr later)
]
run-settled e (rejected f ∷ xs) r v h = elim (run-settled e xs (step e (rejected f) r) v h) [
  | inl now ↦ inl (from_failure e f r v now)
  | inr later ↦ inr later
]

begin-settled :
    {V F : Type 0} (start : Start) (v : V)
    → (begin {V = V} {F = F} start).outcome ≢ some (settled v)
unfolding begin
begin-settled (expired e) v h = cc
begin-settled untimed v h = cc
begin-settled (timed w e) v h = cc

settled-Among :
    {V F : Type 0} (e : ServicePlaneError) (start : Start) (xs : List (Event V F)) (v : V)
    → (run e xs (begin start)).outcome ≡ some (settled v)
    → Among v (values xs)
settled-Among e start xs v h = elim (run-settled e xs (begin start) v h) [
  | inl now ↦ absurd (begin-settled start v now)
  | inr later ↦ later
]

-- What a caller may see of a failure: an error of the program, a foreign error that carries the program's
-- taxonomy, or the TypeError of an output schema that answered with a primitive.
abbrev pub IsShown : Method → List Output → Thrown → Type 0
IsShown method outputs (own e) = Unit
IsShown method outputs (foreign error) = (info : ErrorInfo) × (error_info error ≡ some info)
IsShown method outputs type_error =
    (output : Output) × (result : Value) × Among output outputs
    × (method.output output.as_value ≡ answered result)
    × (is_object result ≡ false)

-- What a caller gets: a value that the implementation gave and the output schema accepted, a stream where
-- the method streams, or a failure that it may see.
abbrev pub IsContained : Method → Text → List Output → Reply Answer → Type 0
IsContained method name outputs (value (unary v)) =
    (output : Output) × Among output outputs
    × (method.stream ≡ false)
    × (validate_ability_value (method.output output.as_value) name 500 ≡ value v)
IsContained method name outputs (value streamed) =
    (output : Output) × Among output outputs × (method.stream ≡ true) × (output.is_source ≡ true)
IsContained method name outputs (raised t) = IsShown method outputs t

foreign_failure-IsShown :
    (method : Method) (outputs : List Output) (name : Text) (v : Value) (o : Option ErrorInfo)
    → error_info v ≡ o
    → IsShown method outputs (foreign_failure name v o)
foreign_failure-IsShown method outputs name v none h = tt
foreign_failure-IsShown method outputs name v (some info) h = (info, h)

handler_failure-IsShown :
    (method : Method) (outputs : List Output) (name : Text) (t : Thrown)
    → IsShown method outputs (handler_failure name t)
unfolding handler_failure
handler_failure-IsShown method outputs name (own e) = tt
handler_failure-IsShown method outputs name type_error = tt
handler_failure-IsShown method outputs name (foreign v) =
    foreign_failure-IsShown method outputs name v (error_info v) refl

-- How the validation of a value may fail.
abbrev Fails : SchemaAnswer → Thrown → Type 0
Fails a (own e) = Unit
Fails a (foreign v) = ⊥
Fails a type_error = (result : Value) × (a ≡ answered result) × (is_object result ≡ false)

validated-Fails :
    (source : Text) (status : ℕ) (result : Value) (t : Thrown)
    → validated source status result ≡ raised t
    → (t ≢ type_error) ⊎ (is_object result ≡ false)
unfolding validated is_object
validated-Fails source status undefined t h = inr refl
validated-Fails source status null t h = inr refl
validated-Fails source status (bool b) t h = inr refl
validated-Fails source status (num x) t h = inr refl
validated-Fails source status (str s) t h = inr refl
validated-Fails source status (arr vs) t h = inl (λ e. ground arith)
validated-Fails source status (obj fs) t h = inl (λ e. ground arith)

not_foreign :
    (a : SchemaAnswer) (source : Text) (status : ℕ) (v : Value)
    → validate_ability_value a source status ≢ raised (foreign v)
unfolding validate_ability_value
not_foreign threw source status v h = ground arith
not_foreign (answered undefined) source status v h = ground arith
not_foreign (answered null) source status v h = ground arith
not_foreign (answered (bool b)) source status v h = ground arith
not_foreign (answered (num x)) source status v h = ground arith
not_foreign (answered (str s)) source status v h = ground arith
not_foreign (answered (arr vs)) source status v h = ground arith
not_foreign (answered (obj fs)) source status v h = ground arith

type_error_of_primitive :
    (a : SchemaAnswer) (source : Text) (status : ℕ)
    → validate_ability_value a source status ≡ raised type_error
    → (result : Value) × (a ≡ answered result) × (is_object result ≡ false)
unfolding validate_ability_value
type_error_of_primitive threw source status h = absurd (ground arith)
type_error_of_primitive (answered result) source status h =
    (result, refl, ground (arith, validated-Fails source status result type_error))

validate-Fails :
    (a : SchemaAnswer) (source : Text) (status : ℕ) (t : Thrown)
    → validate_ability_value a source status ≡ raised t
    → Fails a t
validate-Fails a source status (own e) h = tt
validate-Fails a source status (foreign v) h = absurd (not_foreign a source status v h)
validate-Fails a source status type_error h = type_error_of_primitive a source status h

IsShown-of :
    (method : Method) (outputs : List Output) (output : Output) (t : Thrown)
    → Among output outputs
    → Fails (method.output output.as_value) t
    → IsShown method outputs t
IsShown-of method outputs output (own e) among h = tt
IsShown-of method outputs output (foreign v) among h = absurd h
IsShown-of method outputs output type_error among (result, answers, primitive) =
    (output, result, among, answers, primitive)

unary-IsContained :
    (method : Method) (name : Text) (outputs : List Output) (output : Output)
    → method.stream ≡ false
    → Among output outputs
    → IsContained method name outputs (answer false method.output name output)
unfolding answer
unary-IsContained method name outputs output plain among =
    elim (Reply-cases (validate_ability_value (method.output output.as_value) name 500)) [
      | inl (v, valid) ↦ rw valid (output, among, plain, valid)
      | inr (t, refused) ↦
          rw refused
            (IsShown-of method outputs output t among (validate-Fails _ name 500 t refused))
    ]

streamed-IsContained :
    (method : Method) (name : Text) (outputs : List Output) (output : Output)
    → method.stream ≡ true
    → Among output outputs
    → IsContained method name outputs (answer true method.output name output)
unfolding answer
streamed-IsContained method name outputs output streams among = elim (Bool-cases output.is_source) [
  | inl source ↦ rw source (output, among, streams, source)
  | inr other ↦ rw other tt
]

answer-IsContained :
    (method : Method) (name : Text) (outputs : List Output) (output : Output) (stream : Bool)
    → method.stream ≡ stream
    → Among output outputs
    → IsContained method name outputs (answer stream method.output name output)
answer-IsContained method name outputs output true h among =
    streamed-IsContained method name outputs output h among
answer-IsContained method name outputs output false h among =
    unary-IsContained method name outputs output h among

conclude-IsContained :
    (method : Method) (name : Text) (outputs : List Output)
    (outcome : Option (Outcome Output Thrown)) (reply : Reply Answer)
    → ((output : Output) → outcome ≡ some (settled output) → Among output outputs)
    → conclude method name outcome ≡ some reply
    → IsContained method name outputs reply
unfolding conclude
conclude-IsContained method name outputs none reply from h = absurd (ground arith)
conclude-IsContained method name outputs (some (settled output)) reply from h =
    let e : answer method.stream method.output name output ≡ reply = ground arith in
    subst (IsContained method name outputs) e
      (answer-IsContained method name outputs output method.stream refl (from output refl))
conclude-IsContained method name outputs (some (failed t)) reply from h =
    let e : raised (handler_failure name t) ≡ reply = ground arith in
    subst (IsContained method name outputs) e (handler_failure-IsShown method outputs name t)
conclude-IsContained method name outputs (some (timed_out e)) reply from h =
    let k : raised (handler_failure name (own e)) ≡ reply = ground arith in
    subst (IsContained method name outputs) k (handler_failure-IsShown method outputs name (own e))

-- Whatever the implementation of an admitted call does, and however its outcome and the timer interleave:
-- once the call is decided, its caller gets a value that the implementation returned and that passes the
-- output schema, a stream where the method streams, an error of the program, or a foreign error that
-- carries the program's taxonomy; or the TypeError that the validation raises where the output schema
-- answers with a primitive.
pub run_method-IsContained :
    (s : HandlerState) (method : Method) (name : Text) (now : ℕ)
    (events : List (Event Output Thrown)) (reply : Reply Answer)
    → run_method s method name now events ≡ some reply
    → IsContained method name (values events) reply
unfolding run_method
run_method-IsContained s method name now events reply h =
    let bounds = call_bounds s method name in
    let start = race_deadline now bounds in
    let e = timer_error start bounds.deadline_error in
    conclude-IsContained method name (values events) (run e events (begin start)).outcome reply
      (λ output k. settled-Among e start events output k) h
