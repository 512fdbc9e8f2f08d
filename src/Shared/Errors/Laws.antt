-- ===== src/Shared/Errors/Laws.antt =====
-- Reading the taxonomy back off a caught error.
use service_plane.Prelude.{◌≡◌, refl, Option, none, some, Bool}
use service_plane.Prelude.Tests.{if◌then◌else◌}
use service_plane.Prelude.Text.{Text}
use service_plane.Prelude.Number.{JsNumber, is_integer}
use service_plane.Shared.Message.{Message}
use service_plane.Shared.Errors.{
  ErrorCode, ability_validation, capability_auth, handler, internal, timeout, ServicePlaneError,
  code_text, code_of_text, error_info, info_of_fields, error_value, with_reason,
}
use service_plane.Prelude.Value.{bool, num, str}

pub code_of_text-code_text : (c : ErrorCode) → code_of_text (code_text c) ≡ some c
unfolding code_of_text
code_of_text-code_text ability_validation = refl
code_of_text-code_text capability_auth = refl
code_of_text-code_text handler = refl
code_of_text-code_text internal = refl
code_of_text-code_text timeout = refl

module _ (render : Message → Text) where
  info_of_fields_lem :
      (c : ErrorCode) (m : Text) (r : Option Text) (b : Bool) (status : JsNumber)
      → info_of_fields (str (code_text c)) (str m) (with_reason render r) (bool b) (num status) ≡ (
          if is_integer status
          then some (record { code = c; message = m; reason = r; retryable = b; status = status })
          else none)
  unfolding info_of_fields
  info_of_fields_lem c m none b status = rw (code_of_text-code_text c, info_of_fields)
  info_of_fields_lem c m (some r) b status = rw (code_of_text-code_text c, info_of_fields)

  -- An error of any of the program's classes, caught as the object that it is, reads back as its own
  -- code, message, reason, retryability and status where its status is an integer; any other status,
  -- which the constructors take as well, makes it read as no error of the taxonomy.
  pub error_info-error_value :
      (e : ServicePlaneError)
      → error_info (error_value render e) ≡ (
          if is_integer e.status
          then some (record {
            code = e.code;
            message = render e.message;
            reason = e.reason;
            retryable = e.retryable;
            status = e.status;
          })
          else none)
  unfolding error_info error_value
  error_info-error_value e =
      info_of_fields_lem e.code (render e.message) e.reason e.retryable e.status
