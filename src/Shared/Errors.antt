-- ===== src/Shared/Errors.antt =====
-- src/shared/errors.ts: the error taxonomy, and how a caught value is read back into it.
pub mod Laws
use service_plane.Prelude.{
  ℕ, zero, ◌≡◌, refl, List, [], Bool, true, false, ◌&&◌, ◌||◌, Option, none, some, arith,
}
use service_plane.Prelude.Tests.{nat_eq, if◌then◌else◌}
use service_plane.Prelude.Text.{Text, text, ◌==◌}
use service_plane.Prelude.Number.{JsNumber, finite, pos, whole, is_integer}
use service_plane.Prelude.Value.{Value, undefined, bool, num, str, obj, end, field, prop, is_object}
use service_plane.Shared.Message.{Message}

pub data ErrorCode : Type 0 where
  ability_validation capability_auth handler internal timeout : ErrorCode

-- `this.name`, which also stands for the class that `instanceof` tests.
pub data ErrorName : Type 0 where
  service_plane_error capability_auth_error timeout_error handler_error validation_error : ErrorName

pub record ServicePlaneError : Type 0 where
  pub name : ErrorName
  pub code : ErrorCode
  pub message : Message
  pub status : JsNumber
  pub retryable : Bool
  pub reason : Option Text

pub record ErrorOptions : Type 0 where
  pub code : Option ErrorCode
  pub retryable : Option Bool

unfoldable pub default_retryable : JsNumber → Bool
default_retryable (finite (pos status) zero) =
    nat_eq status 408
    || nat_eq status 429
    || nat_eq status 502
    || nat_eq status 503
    || nat_eq status 504
default_retryable _ = false

-- `option ?? default`
abbrev pub or_default {ℓ} : {A : Type ℓ} → Option A → A → A
or_default none d = d
or_default (some a) d = a

-- new ServicePlaneError(message, status, options)
unfoldable pub service_plane_error_of : Message → JsNumber → ErrorOptions → ServicePlaneError
unfolding default_retryable
service_plane_error_of message status options = record {
  name = service_plane_error;
  code = or_default options.code internal;
  message = message;
  status = status;
  retryable = or_default options.retryable (default_retryable status);
  reason = none;
}

-- the `super(message, status, { code })` that the subclasses share
abbrev coded : ErrorName → ErrorCode → Option Bool → Message → JsNumber → ServicePlaneError
coded name code retryable message status =
    let base =
      service_plane_error_of message status (record { code = some code; retryable = retryable }) in
    record base { name = name }

-- new CapabilityAuthError(message, status)
unfoldable pub capability_auth_error_of : Message → JsNumber → ServicePlaneError
unfolding service_plane_error_of
capability_auth_error_of = coded capability_auth_error capability_auth none

-- the same, with a status that the code writes out
unfoldable pub auth_error : Message → ℕ → ServicePlaneError
unfolding capability_auth_error_of
auth_error message status = capability_auth_error_of message (whole status)

-- new ServicePlaneTimeoutError(message)
unfoldable pub timeout_error_of : Message → ServicePlaneError
unfolding service_plane_error_of
timeout_error_of message = coded timeout_error timeout none message (whole 504)

-- new AbilityHandlerError(message, options)
unfoldable pub handler_error_of :
    Message → Option JsNumber → Option Bool → Option Text → ServicePlaneError
unfolding service_plane_error_of
handler_error_of message status retryable reason =
    let base = coded handler_error handler retryable message (or_default status (whole 500)) in
    record base { reason = reason }

-- new AbilityValidationError(message, status); the issues of the schema library are left out
unfoldable pub validation_error_of : Message → JsNumber → ServicePlaneError
unfolding service_plane_error_of
validation_error_of = coded validation_error ability_validation none

abbrev pub code_text : ErrorCode → Text
code_text ability_validation = text "ability_validation"
code_text capability_auth = text "capability_auth"
code_text handler = text "handler"
code_text internal = text "internal"
code_text timeout = text "timeout"

-- SERVICE_PLANE_ERROR_CODES.has(code), with the row that it is
unfoldable pub code_of_text : Text → Option ErrorCode
unfolding ◌==◌
code_of_text s =
    if s == text "ability_validation"
    then some ability_validation
    else if s == text "capability_auth"
    then some capability_auth
    else if s == text "handler"
    then some handler
    else if s == text "internal"
    then some internal
    else if s == text "timeout"
    then some timeout
    else none

pub record ErrorInfo : Type 0 where
  pub code : ErrorCode
  pub message : Text
  pub reason : Option Text
  pub retryable : Bool
  pub status : JsNumber

-- the last tests of `servicePlaneErrorInfo`, over the fields that it reads
info_of_fields : Value → Value → Value → Value → Value → Option ErrorInfo
unfolding code_of_text is_integer
info_of_fields (str code) message reason (bool retryable) (num status) = elim (code_of_text code) [
  | none ↦ none
  | some c ↦
      if is_integer status
      then some (record {
        code = c;
        message = elim message [ str m ↦ m | _ ↦ [] ];
        reason = elim reason [ str r ↦ some r | _ ↦ none ];
        retryable = retryable;
        status = status;
      })
      else none
]
info_of_fields _ message reason _ _ = none

-- servicePlaneErrorInfo(error)
unfoldable pub error_info : Value → Option ErrorInfo
unfolding info_of_fields is_object prop
error_info error =
    if is_object error
    then info_of_fields (prop (text "code") error) (prop (text "message") error)
        (prop (text "reason") error) (prop (text "retryable") error) (prop (text "status") error)
    else none

-- The error as the object that a `catch` clause holds, with its own properties; `render` spells the
-- message.
module _ (render : Message → Text) where
  abbrev with_reason : Option Text → Value
  with_reason none = undefined
  with_reason (some r) = str r

  unfoldable pub error_value : ServicePlaneError → Value
  error_value e = obj (
      field (text "code") (str (code_text e.code)) (
        field (text "message") (str (render e.message)) (
          field (text "reason") (with_reason e.reason) (
            field (text "retryable") (bool e.retryable)
              (field (text "status") (num e.status) end)))))
