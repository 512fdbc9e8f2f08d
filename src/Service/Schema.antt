-- ===== src/Service/Schema.antt =====
-- validateAbilityValue of src/service/discovery.ts: a value of a caller or of a handler against a schema
-- of a library that the service chose. A schema is what its `validate` does; the texts of its issues are
-- left out.
use service_plane.Prelude.{ℕ, Bool, false, ◌||◌}
use service_plane.Prelude.Tests.{if◌then◌else◌}
use service_plane.Prelude.Text.{Text, text, ◌==◌}
use service_plane.Prelude.Number.{whole}
use service_plane.Prelude.Value.{Value, obj, arr, Fields, end, field, prop, own}
use service_plane.Shared.Message.{Message, no_schema_value, schema_issues, schema_threw}
use service_plane.Shared.Errors.{validation_error_of}
use service_plane.Registry.{is_truthy}
use service_plane.Service.Reply.{Thrown, type_error, Reply, value, raised}

-- What `schema['~standard'].validate(value)` does: it throws, or returns a result.
pub data SchemaAnswer : Type 0 where
  threw : SchemaAnswer
  answered : Value → SchemaAnswer

abbrev pub Schema : Type 0
Schema = Value → SchemaAnswer

-- `'value' in fields`
unfoldable pub has_field : Text → Fields → Bool
has_field k end = false
has_field k (field j v fs) = j == k || has_field k fs

abbrev pub invalid : Message → ℕ → Reply Value
invalid message status = raised (Thrown.own (validation_error_of message (whole status)))

-- `!result || !('value' in result)`, and `result.value`: `in` throws where its right side is a primitive.
unfoldable pub validated : Text → ℕ → Value → Reply Value
unfolding has_field is_truthy own
validated source status (obj fs) =
    if has_field (text "value") fs
    then value (own (text "value") fs)
    else invalid (no_schema_value source) status
validated source status (arr vs) = invalid (no_schema_value source) status
validated source status v =
    if is_truthy v then raised type_error else invalid (no_schema_value source) status

-- validateAbilityValue(schema, value, source, status), of what the schema does with the value
unfoldable pub validate_ability_value : SchemaAnswer → Text → ℕ → Reply Value
unfolding validated prop
validate_ability_value threw source status = invalid (schema_threw source) status
validate_ability_value (answered result) source status =
    if is_truthy (prop (text "issues") result)
    then invalid (schema_issues source) status
    else validated source status result
