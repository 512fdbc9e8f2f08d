-- ===== src/Service/Published.antt =====
-- serviceDiscoveryDocument of src/service/discovery.ts, and the document that src/service/service.ts
-- answers with: a value, as JSON carries it. A field that is left out is one with the value `undefined`,
-- which JSON leaves out.
pub mod Methods
pub mod Accepted
use service_plane.Prelude.{ℕ, Bool, true, false, Option, none, some, List, [], ◌∷◌}
use service_plane.Prelude.Text.{Text, text}
use service_plane.Prelude.Number.{whole}
use service_plane.Prelude.Value.{
  Value, undefined, bool, num, str, arr, obj, Values, nil, cons, Fields, end, field,
}
use service_plane.Shared.Types.{
  access_text, AbilityExposure, private_exposure, published, AbilityTransport,
  cloudflare_binding_rpc, http_batch, websocket,
}
use service_plane.Shared.Catalog.{
  ServiceHttpMethod, http_delete, http_get, http_patch, http_post, http_put, http_query,
}
use service_plane.Service.Definition.{
  RestProjection, NormalizedMethod, NormalizedAbility, ServiceDefinition,
}

abbrev pub exposure_text : AbilityExposure → Text
exposure_text private_exposure = text "private"
exposure_text published = text "published"

abbrev pub transport_text : AbilityTransport → Text
transport_text cloudflare_binding_rpc = text "cloudflare-binding-rpc"
transport_text http_batch = text "http-batch"
transport_text websocket = text "websocket"

abbrev pub http_method_text : ServiceHttpMethod → Text
http_method_text http_delete = text "delete"
http_method_text http_get = text "get"
http_method_text http_patch = text "patch"
http_method_text http_post = text "post"
http_method_text http_put = text "put"
http_method_text http_query = text "query"

-- An array, of the values of its elements.
module _ {A : Type 0} (value_of : A → Value) where
  abbrev pub array_of : List A → Values
  array_of [] = nil
  array_of (x ∷ xs) = cons (value_of x) (array_of xs)

  -- A field that is there where there is a value for it.
  abbrev pub optional : Option A → Value
  optional none = undefined
  optional (some x) = value_of x

abbrev pub texts_value : List Text → Value
texts_value ts = arr (array_of str ts)

abbrev pub flag_value : Bool → Value
flag_value true = bool true
flag_value false = undefined

abbrev pub natural_value : ℕ → Value
natural_value n = num (whole n)

abbrev pub mcp_value : Text → Value
mcp_value name = obj (field (text "name") (str name) end)

abbrev pub prompt_value : Text × List Text → Value
prompt_value (name, arguments) = obj (
    field (text "arguments") (arr (array_of mcp_value arguments))
      (field (text "name") (str name) end))

abbrev pub resource_value : Text × Text → Value
resource_value (name, uri) = obj (field (text "name") (str name) (field (text "uri") (str uri) end))

abbrev pub rest_value : RestProjection → Value
rest_value rest = obj (
    field (text "method") (str (http_method_text rest.method)) (
      field (text "operationId") (str rest.operation_id) (
        field (text "path") (str rest.path) (
          field (text "status") (optional natural_value rest.status)
            (field (text "tags") (optional texts_value rest.tags) end)))))

-- The methods of `abilityDiscovery`.
unfoldable pub method_value : NormalizedMethod → Value
method_value m = obj (
    field (text "inputSchema") m.input_schema (
      field (text "mcp") (optional mcp_value m.mcp) (
        field (text "mcpPrompt") (optional prompt_value m.mcp_prompt) (
          field (text "mcpResource") (optional resource_value m.mcp_resource) (
            field (text "outputSchema") m.output_schema (
              field (text "idempotent") (flag_value m.idempotent) (
                field (text "rest") (optional rest_value m.rest) (
                  field (text "scopes") (texts_value m.scopes) (
                    field (text "stream") (flag_value m.stream)
                      (field (text "timeoutMs") (optional natural_value m.timeout_ms) end))))))))))

-- `Object.fromEntries` of the methods
unfoldable pub method_fields : List NormalizedMethod → Fields
method_fields [] = end
method_fields (m ∷ ms) = field m.name (method_value m) (method_fields ms)

abbrev pub transport_value : AbilityTransport → Value
transport_value t = str (transport_text t)

-- abilityDiscovery(ability)
unfoldable pub ability_value : NormalizedAbility → Value
ability_value a = obj (
    field (text "access") (str (access_text a.access)) (
      field (text "exposure") (str (exposure_text a.exposure)) (
        field (text "id") (str a.id) (
          field (text "methods") (obj (method_fields a.methods)) (
            field (text "rpc")
              (obj (
                field (text "path") (str a.path)
                  (field (text "transports") (arr (array_of transport_value a.transports)) end)))
              (field (text "scopes") (texts_value a.scopes) end))))))

abbrev pub scope_value : Text → Value
scope_value id = obj (field (text "id") (str id) end)

abbrev pub catalog_value : Text × List Text → Value
catalog_value (service_id, scopes) = obj (
    field (text "scopes") (arr (array_of scope_value scopes))
      (field (text "serviceId") (str service_id) end))

abbrev pub key_value : Value → Value
key_value key = key

abbrev pub caller_auth_value : List Value → Value
caller_auth_value keys =
    obj (field (text "jwks") (obj (field (text "keys") (arr (array_of key_value keys)) end)) end)

abbrev pub ingress_value : Bool → Value
ingress_value false = undefined
ingress_value true = obj (field (text "required") (bool true) end)

-- serviceDiscoveryDocument(service), with the `ingress` that the service adds where it has one
unfoldable pub discovery_document : Bool → ServiceDefinition → Value
discovery_document ingress service = obj (
    field (text "abilities") (arr (array_of ability_value service.abilities)) (
      field (text "callerAuth") (optional caller_auth_value service.caller_auth) (
        field (text "capabilities") (optional catalog_value service.capabilities) (
          field (text "id") (str service.id) (
            field (text "title") (str service.title) (
              field (text "version") (str service.version)
                (field (text "ingress") (ingress_value ingress) end)))))))
