-- ===== src/Service/Definition/Rest.antt =====
-- The REST projection and the schemas of an accepted method.
use service_plane.Prelude.{
  ℕ, ◌≤◌, ◌≡◌, ◌≢◌, inl, inr, Bool, true, Option, none, some, List, [], ◌∷◌, arith,
}
use service_plane.Prelude.Lists.{all}
use service_plane.Prelude.Text.{Text, includes}
use service_plane.Prelude.Number.{
  JsNumber, nan, infinite, finite, pos, negsuc, is_integer, exceeds, is_below, floor_of,
}
use service_plane.Prelude.Value.{Value, undefined, null, bool, num, str, arr, obj, is_record}
use service_plane.Shared.Result.{ok, Result-cases}
use service_plane.Shared.Paths.{is_origin_relative_path, path_template_variables}
use service_plane.Registry.{known_variables}
use service_plane.Service.Declared.{
  normalize_declared_path, normalize_rest_status, Rendering, not_standard, rendering_threw,
  rendered, with_schema_resource_id, ability_json_schema,
}
use service_plane.Service.Definition.{
  DeclaredRest, RestProjection, template_or_error, validate_rest_path_fields, normalize_rest,
}
use service_plane.Service.Definition.Routed.{normalize_declared_path-IsRelative}

abbrev pub IsSuccessStatus : Option ℕ → Type 0
IsSuccessStatus none = Unit
IsSuccessStatus (some n) = (200 ≤ n) × (n ≤ 299)

normalize_rest_status-IsSuccessStatus :
    (status : Option JsNumber) (n : Option ℕ)
    → normalize_rest_status status ≡ ok n
    → IsSuccessStatus n
unfolding normalize_rest_status is_integer exceeds is_below floor_of
normalize_rest_status-IsSuccessStatus none n h = ground arith
normalize_rest_status-IsSuccessStatus (some nan) n h = ground arith
normalize_rest_status-IsSuccessStatus (some (infinite b)) n h = ground arith
normalize_rest_status-IsSuccessStatus (some (finite (pos m) f)) n h = ground arith
normalize_rest_status-IsSuccessStatus (some (finite (negsuc m) f)) n h = ground arith

fields-known :
    (properties : Option (List Text)) (variables : List Text)
    → validate_rest_path_fields properties variables ≡ ok tt
    → known_variables (some variables) properties ≡ true
unfolding validate_rest_path_fields known_variables all includes
fields-known none [] h = ground arith
fields-known (some names) [] h = ground arith
fields-known none (v ∷ vs) h = absurd (ground arith)
fields-known (some names) (v ∷ vs) h = ground (arith, fields-known (some names) vs)

template_or_error-eq :
    (o : Option (List Text)) (vs : List Text) → template_or_error o ≡ ok vs → o ≡ some vs
unfolding template_or_error
template_or_error-eq none vs h = ground arith
template_or_error-eq (some us) vs h = ground arith

with_schema_resource_id-record :
    (schema : Value) (id : Text)
    → is_record schema ≡ true
    → is_record (with_schema_resource_id schema id) ≡ true
unfolding with_schema_resource_id is_record
with_schema_resource_id-record undefined id h = ground arith
with_schema_resource_id-record null id h = ground arith
with_schema_resource_id-record (bool b) id h = ground arith
with_schema_resource_id-record (num x) id h = ground arith
with_schema_resource_id-record (str s) id h = ground arith
with_schema_resource_id-record (arr vs) id h = ground arith
with_schema_resource_id-record (obj fs) id h = ground arith

pub ability_json_schema-record :
    (rendering : Rendering) (id : Text) (schema : Value)
    → ability_json_schema rendering id ≡ ok schema
    → is_record schema ≡ true
unfolding ability_json_schema
ability_json_schema-record not_standard id schema h = absurd (ground arith)
ability_json_schema-record rendering_threw id schema h = absurd (ground arith)
ability_json_schema-record (rendered v) id schema h =
    ground (arith, with_schema_resource_id-record v id)

module _ (reserved_member : Text → Bool) (root_properties : Value → Option (List Text))
    (encode : Text → Text) where
  pub record IsRest (input_schema : Value) (rest : RestProjection) : Type 0 where
    pub relative : is_origin_relative_path rest.path ≡ true
    pub successful : IsSuccessStatus rest.status
    pub known :
        known_variables (path_template_variables rest.path) (root_properties input_schema) ≡ true

  abbrev pub IsRestOption : Value → Option RestProjection → Type 0
  IsRestOption input_schema none = Unit
  IsRestOption input_schema (some rest) = IsRest input_schema rest

  module _ (service_id ability_id name : Text) (input_schema : Value) (declared : DeclaredRest)
      (rest : RestProjection)
      (accepted : normalize_rest reserved_member root_properties encode service_id ability_id name
          input_schema
          (some declared)
        ≡ ok (some rest)) where
    path-normalized : normalize_declared_path declared.path ≡ ok rest.path
    unfolding normalize_rest
    path-normalized = ground arith

    status-normalized : normalize_rest_status declared.status ≡ ok rest.status
    unfolding normalize_rest
    status-normalized = ground arith

    variables-known :
        known_variables (path_template_variables rest.path) (root_properties input_schema) ≡ true
    unfolding normalize_rest
    variables-known = elim (Result-cases (template_or_error (path_template_variables rest.path))) [
      | inr (e, refused) ↦ absurd (ground arith)
      | inl (vs, template) ↦
          rw (template_or_error-eq (path_template_variables rest.path) vs template)
            (fields-known (root_properties input_schema) vs (ground arith))
    ]

    normalize_rest-IsRest : IsRest input_schema rest
    normalize_rest-IsRest = record {
      relative = normalize_declared_path-IsRelative declared.path rest.path path-normalized;
      successful =
          normalize_rest_status-IsSuccessStatus declared.status rest.status status-normalized;
      known = variables-known;
    }

  rest-none :
      (service_id ability_id name : Text) (input_schema : Value) (rest : RestProjection)
      → normalize_rest reserved_member root_properties encode service_id ability_id name
          input_schema none
        ≢ ok (some rest)
  unfolding normalize_rest
  rest-none service_id ability_id name input_schema rest h = ground arith

  pub normalize_rest-IsRestOption :
      (service_id ability_id name : Text) (input_schema : Value) (declared : Option DeclaredRest)
      (rest : Option RestProjection)
      → normalize_rest reserved_member root_properties encode service_id ability_id name
          input_schema declared
        ≡ ok rest
      → IsRestOption input_schema rest
  normalize_rest-IsRestOption service_id ability_id name input_schema declared none h = tt
  normalize_rest-IsRestOption service_id ability_id name input_schema none (some rest) h =
      absurd (rest-none service_id ability_id name input_schema rest h)
  normalize_rest-IsRestOption service_id ability_id name input_schema (some declared) (some rest)
        h =
      normalize_rest-IsRest service_id ability_id name input_schema declared rest h
