-- ===== src/Registry.antt =====
-- src/control-plane/registry.ts: the validation of what services advertise. Discovery is in the child
-- `Discover`. The root properties of a JSON schema (src/shared/json-schema.ts) are an argument: the names
-- that they have, if they can be found.
pub mod Discover
pub mod Lookups
pub mod Identity
pub mod Cached
pub mod Catalog
pub mod Coalesced
use service_plane.Prelude.{
  ℕ, zero, suc, Bool, true, false, ◌&&◌, ◌||◌, not, Option, none, some, List, [], ◌∷◌, map,
}
use service_plane.Prelude.Tests.{if◌then◌else◌}
use service_plane.Prelude.Lists.{is_nil, all}
use service_plane.Prelude.Text.{Text, text, ◌==◌, includes}
use service_plane.Prelude.Number.{
  JsNumber, nan, infinite, finite, pos, is_integer, is_safe_integer, exceeds, is_below,
}
use service_plane.Prelude.Value.{
  Value, undefined, null, bool, num, str, arr, obj, elements, entries, prop, is_object, is_record,
  is_undefined, is_string,
}
use service_plane.Shared.Paths.{is_origin_relative_path, normalize_path, path_template_variables}

-- `!!value`
unfoldable pub is_truthy : Value → Bool
is_truthy undefined = false
is_truthy null = false
is_truthy (bool b) = b
is_truthy (num nan) = false
is_truthy (num (finite (pos zero) zero)) = false
is_truthy (num x) = true
is_truthy (str s) = not (is_nil s)
is_truthy (arr vs) = true
is_truthy (obj fs) = true

-- `value === 'literal'`
unfoldable pub is_literal : Text → Value → Bool
unfolding ◌==◌
is_literal s (str t) = t == s
is_literal s _ = false

-- `value === true`
unfoldable pub is_true : Value → Bool
is_true (bool b) = b
is_true _ = false

-- `Array.isArray(value) && value.every(p)`
unfoldable pub is_array_of : (Value → Bool) → Value → Bool
unfolding all
is_array_of p (arr vs) = all p (elements vs)
is_array_of p _ = false

-- `Object.values(value)`
abbrev pub values_of : Value → List Value
values_of (obj fs) = map (λ (f : Text × Value). f.1) (entries fs)
values_of _ = []

-- isHttpMethod(value)
unfoldable pub is_http_method : Value → Bool
unfolding is_literal
is_http_method v =
    is_literal (text "delete") v
    || is_literal (text "get") v
    || is_literal (text "patch") v
    || is_literal (text "post") v
    || is_literal (text "put") v
    || is_literal (text "query") v

-- isAbilityExposure(value)
unfoldable pub is_ability_exposure : Value → Bool
unfolding is_literal
is_ability_exposure v = is_literal (text "private") v || is_literal (text "published") v

-- isAbilityAccess(value)
unfoldable pub is_ability_access : Value → Bool
unfolding is_literal
is_ability_access v = is_literal (text "plane") v || is_literal (text "service") v

-- isAbilityTransport(value)
unfoldable pub is_ability_transport : Value → Bool
unfolding is_literal
is_ability_transport v =
    is_literal (text "cloudflare-binding-rpc") v
    || is_literal (text "http-batch") v
    || is_literal (text "websocket") v

unfoldable pub is_optional : (Value → Bool) → Value → Bool
is_optional p v = is_undefined v || p v

-- A string value that passes a test.
unfoldable pub is_text_with : (Text → Bool) → Value → Bool
is_text_with p (str s) = p s
is_text_with p _ = false

unfoldable pub is_success_status : Value → Bool
is_success_status (num x) = is_integer x && not (is_below x 200) && not (exceeds x 299)
is_success_status _ = false

unfoldable pub is_positive_integer : Value → Bool
is_positive_integer (num x) = is_safe_integer x && exceeds x 0
is_positive_integer _ = false

unfoldable pub known_variables : Option (List Text) → Option (List Text) → Bool
known_variables none properties = false
known_variables (some variables) none = is_nil variables
known_variables (some variables) (some names) = all (includes names) variables

unfoldable pub variables_known : Option (List Text) → Value → Bool
unfolding known_variables
variables_known properties (str path) = known_variables (path_template_variables path) properties
variables_known properties _ = false

module _ (root_properties : Value → Option (List Text)) (reserved : List Text) where
  -- isValidRestDiscovery(rest, inputSchema, reservedRestPaths)
  unfoldable pub is_valid_rest_discovery : Value → Value → Bool
  unfolding is_optional is_success_status variables_known
  is_valid_rest_discovery rest input_schema =
      is_record rest
      && is_http_method (prop (text "method") rest)
      && is_text_with is_origin_relative_path (prop (text "path") rest)
      && is_text_with (λ path. not (includes reserved (normalize_path path)))
          (prop (text "path") rest)
      && is_optional is_string (prop (text "operationId") rest)
      && is_optional (is_array_of is_string) (prop (text "tags") rest)
      && is_optional is_success_status (prop (text "status") rest)
      && variables_known (root_properties input_schema) (prop (text "path") rest)

  -- isAbilityMethodDiscovery(value, reservedRestPaths)
  unfoldable pub is_ability_method_discovery : Value → Bool
  unfolding is_optional is_positive_integer
  is_ability_method_discovery value =
      let stream = prop (text "stream") value in
      let rest = prop (text "rest") value in
      is_record value
      && is_array_of is_string (prop (text "scopes") value)
      && is_record (prop (text "inputSchema") value)
      && is_record (prop (text "outputSchema") value)
      && is_optional is_true stream
      && is_optional is_true (prop (text "idempotent") value)
      && is_optional (λ ms. is_positive_integer ms && not (is_true stream))
          (prop (text "timeoutMs") value)
      && (not (is_true stream)
          || is_undefined (prop (text "mcpPrompt") value)
            && is_undefined (prop (text "mcpResource") value)
            && is_undefined rest)
      && is_optional (λ r. is_valid_rest_discovery r (prop (text "inputSchema") value)) rest
      && is_optional (λ mcp. is_record mcp && is_string (prop (text "name") mcp))
          (prop (text "mcp") value)

  -- isAbilityDiscovery(value, reservedRestPaths)
  unfoldable pub is_ability_discovery : Value → Bool
  is_ability_discovery value =
      let rpc = prop (text "rpc") value in
      let methods = prop (text "methods") value in
      is_object value
      && is_string (prop (text "id") value)
      && is_ability_access (prop (text "access") value)
      && is_ability_exposure (prop (text "exposure") value)
      && is_array_of is_string (prop (text "scopes") value)
      && is_object rpc
      && is_text_with is_origin_relative_path (prop (text "path") rpc)
      && is_array_of is_ability_transport (prop (text "transports") rpc)
      && is_record methods
      && all is_ability_method_discovery (values_of methods)

  unfoldable pub is_capability_catalog : Value → Bool
  is_capability_catalog v =
      is_object v
      && is_string (prop (text "serviceId") v)
      && is_array_of (λ _. true) (prop (text "scopes") v)

  unfoldable pub is_caller_auth : Value → Bool
  is_caller_auth v =
      is_object v
      && is_object (prop (text "jwks") v)
      && is_array_of (λ _. true) (prop (text "keys") (prop (text "jwks") v))

  -- isServiceDiscoveryDocument(value, reservedRestPaths); where the code reads a member of `null` it
  -- throws, which discovery treats as a refusal
  unfoldable pub is_service_discovery_document : Value → Bool
  unfolding is_optional is_capability_catalog is_caller_auth
  is_service_discovery_document value =
      let caller_auth = prop (text "callerAuth") value in
      is_object value
      && is_string (prop (text "id") value)
      && is_string (prop (text "title") value)
      && is_string (prop (text "version") value)
      && is_array_of is_ability_discovery (prop (text "abilities") value)
      && is_optional is_capability_catalog (prop (text "capabilities") value)
      && (not (is_truthy caller_auth) || is_caller_auth caller_auth)
      && is_optional (λ ingress. is_object ingress && is_true (prop (text "required") ingress))
          (prop (text "ingress") value)

  -- isDiscoveryForEndpoint(value, endpoint, reservedRestPaths), of the endpoint's id
  unfoldable pub is_discovery_for_endpoint : Value → Text → Bool
  unfolding is_optional
  is_discovery_for_endpoint value endpoint_id =
      is_service_discovery_document value
      && is_literal endpoint_id (prop (text "id") value)
      && is_optional (λ catalog. is_literal endpoint_id (prop (text "serviceId") catalog))
          (prop (text "capabilities") value)
