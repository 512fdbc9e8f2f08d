-- ===== src/Examples/Declared.antt =====
-- The declaration of a service with one method, a REST route with it, and its document.
use service_plane.Prelude.{ℕ, ◌≡◌, refl, Bool, true, false, Option, none, some, List, [], ◌∷◌}
use service_plane.Prelude.Lists.{All, is_nil}
use service_plane.Prelude.Text.{Text, text}
use service_plane.Prelude.Value.{Value, obj, field, end, str}
use service_plane.Shared.Result.{ok}
use service_plane.Shared.Types.{plane, published, http_batch}
use service_plane.Shared.Catalog.{http_get}
use service_plane.Service.Declared.{rendered}
use service_plane.Service.Definition.{
  DeclaredMethod, DeclaredAbility, DeclaredService, DeclaredRest, NormalizedMethod,
  ServiceDefinition, catalog_scopes, known_scopes_of, define_ability_service,
}
use service_plane.Service.Definition.Abilities.{AreAbilities, define_ability_service-AreAbilities}
use service_plane.Service.Published.{discovery_document}
use service_plane.Service.Published.Accepted.{discovery_document-IsAccepted}
use service_plane.Registry.{is_discovery_for_endpoint}

abbrev empty_schema : Value
empty_schema = obj (field (text "type") (str (text "object")) end)

abbrev not_reserved : Text → Bool
not_reserved name = false

abbrev one_property : Value → Option (List Text)
one_property schema = some (text "id" ∷ [])

abbrev plain_encoding : Text → Text
plain_encoding s = s

abbrev read_method : DeclaredMethod
read_method = record {
  idempotent = true;
  input = rendered empty_schema;
  output = rendered empty_schema;
  mcp = some (text " read ");
  mcp_prompt = none;
  mcp_resource = none;
  rest = some (record {
    method = text "GET";
    operation_id = none;
    path = text "/u/{id}/";
    status = none;
    tags = none;
  });
  scopes = some (text "r" ∷ []);
  stream = false;
  timeout_ms = none;
}

abbrev declared_service : DeclaredService
declared_service = record {
  abilities =
      record {
        access = none;
        exposure = some (text "published");
        has_handler = true;
        id = text "u";
        methods = (text "read", read_method) ∷ [];
        path = none;
        transports = none;
        scopes = some (text " r" ∷ text "r" ∷ []);
      }
      ∷ [];
  caller_auth = none;
  capabilities = some (text "b", text "r" ∷ []);
  id = text "b";
  title = text "B";
  version = text "1";
  require_scopes = true;
  default_timeout = none;
}

abbrev defined_service : ServiceDefinition
defined_service = record {
  abilities =
      record {
        access = plane;
        exposure = published;
        id = text "u";
        methods =
            record {
              idempotent = true;
              name = text "read";
              input_schema = empty_schema;
              output_schema = empty_schema;
              mcp = some (text "read");
              mcp_prompt = none;
              mcp_resource = none;
              rest = some (record {
                method = http_get;
                operation_id = text "b.u.read";
                path = text "/u/{id}";
                status = none;
                tags = none;
              });
              scopes = text "r" ∷ [];
              stream = false;
              timeout_ms = none;
            }
            ∷ [];
        path = text "/rpc/u";
        transports = http_batch ∷ [];
        scopes = text "r" ∷ [];
      }
      ∷ [];
  caller_auth = none;
  capabilities = some (text "b", text "r" ∷ []);
  id = text "b";
  title = text "B";
  version = text "1";
}

service-defined :
    define_ability_service not_reserved one_property plain_encoding declared_service
    ≡ ok defined_service
unfolding define_ability_service service_plane.Service.Definition.normalize_abilities
    service_plane.Service.Definition.known_scopes_of
    service_plane.Service.Definition.normalize_abilities_from
    service_plane.Service.Definition.normalize_ability
    service_plane.Service.Definition.normalize_methods_from
    service_plane.Service.Definition.normalize_method
    service_plane.Service.Definition.is_reserved_method_name
    service_plane.Service.Definition.method_timeout service_plane.Service.Definition.normalize_rest
    service_plane.Service.Definition.template_or_error
    service_plane.Service.Definition.validate_rest_path_fields
    service_plane.Service.Definition.operation_id_of service_plane.Service.Definition.normalize_mcp
    service_plane.Service.Definition.normalize_mcp_prompt
    service_plane.Service.Definition.normalize_mcp_resource
    service_plane.Service.Definition.validate_caller_auth
    service_plane.Service.Declared.normalize_value
    service_plane.Service.Declared.normalize_declared_scope
    service_plane.Service.Declared.normalize_declared_scopes
    service_plane.Service.Declared.validate_known_scopes
    service_plane.Service.Declared.validate_method_scopes
    service_plane.Service.Declared.normalize_declared_path
    service_plane.Service.Declared.normalize_http_method
    service_plane.Service.Declared.normalize_rest_status
    service_plane.Service.Declared.normalize_tags service_plane.Service.Declared.transport_of_text
    service_plane.Service.Declared.normalize_ability_transports
    service_plane.Service.Declared.normalize_ability_exposure
    service_plane.Service.Declared.normalize_ability_access
    service_plane.Service.Declared.resolve_method_timeout_ms
    service_plane.Service.Declared.validate_default_method_timeout_ms
    service_plane.Service.Declared.ability_json_schema
    service_plane.Service.Declared.schema_resource_id
    service_plane.Service.Declared.with_schema_resource_id
    service_plane.Service.Declared.contains_local_ref service_plane.Prelude.Text.trim
    service_plane.Prelude.Text.unique service_plane.Prelude.Text.includes
    service_plane.Prelude.Text.◌==◌ service_plane.Prelude.Text.split service_plane.Prelude.Lists.any
    service_plane.Prelude.Lists.all service_plane.Prelude.Lists.drop_while
    service_plane.Prelude.Lists.drop_while_end service_plane.Shared.Result.map_ok
    service_plane.Shared.Types.access_of_text service_plane.Prelude.Value.is_record
    service_plane.Prelude.Value.own service_plane.Service.Schema.has_field
    service_plane.Shared.Paths.without_end_slashes service_plane.Shared.Paths.starts_with_slash
    service_plane.Shared.Paths.starts_with_two_slashes
    service_plane.Shared.Paths.is_origin_relative_path
    service_plane.Shared.Paths.has_strippable_path_char
    service_plane.Shared.Paths.path_template_variables service_plane.Shared.Paths.template_variable
    service_plane.Shared.Paths.is_letter service_plane.Shared.Paths.is_word
service-defined = refl

define_ability_service-AreAbilities_example :
    (known : Option (List Text)) × (service_default : Option ℕ) × (known_scopes_of not_reserved
        one_property plain_encoding
        (catalog_scopes declared_service.capabilities)
      ≡ ok known)
    × (is_nil defined_service.abilities ≡ false)
    × AreAbilities not_reserved one_property plain_encoding
        (text "b")
        known
        true
        service_default
        []
        []
        defined_service.abilities
define_ability_service-AreAbilities_example =
    define_ability_service-AreAbilities not_reserved one_property plain_encoding declared_service
      defined_service service-defined

path-unreserved :
    service_plane.Prelude.Text.includes []
      (service_plane.Shared.Paths.normalize_path (text "/u/{id}"))
    ≡ false
unfolding service_plane.Prelude.Text.includes
path-unreserved = refl

discovery_document-IsAccepted_example :
    is_discovery_for_endpoint one_property [] (discovery_document true defined_service) (text "b")
    ≡ true
discovery_document-IsAccepted_example =
    discovery_document-IsAccepted not_reserved one_property plain_encoding [] declared_service
      defined_service true service-defined refl ((path-unreserved, tt), tt)
