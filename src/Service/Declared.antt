-- ===== src/Service/Declared.antt =====
-- What src/service/discovery.ts takes a service to declare, and the normal forms of its parts. Schemas
-- come from a library of the service's choice: what their rendering gives is an argument.
use service_plane.Prelude.{
  ℕ, ◌+◌, ◌-◌, ◌^◌, Bool, true, false, ◌&&◌, ◌||◌, not, Option, none, some, List, [], ◌∷◌, ◌++◌,
  map, reverse,
}
use service_plane.Prelude.Tests.{leb, nat_eq, if◌then◌else◌}
use service_plane.Prelude.Lists.{is_nil, any, all}
use service_plane.Prelude.Text.{Text, text, ◌==◌, trim, includes, unique}
use service_plane.Prelude.Number.{
  JsNumber, is_integer, is_safe_integer, exceeds, is_below, floor_of,
}
use service_plane.Prelude.Value.{
  Value, undefined, null, bool, num, str, arr, obj, Values, nil, cons, Fields, end, field, own,
  is_record,
}
use service_plane.Service.Schema.{has_field}
use service_plane.Shared.Message.{
  Message, scope_empty, wildcard_scope, value_empty, bad_path, path_with_query, bad_rest_method,
  bad_rest_status, no_transport_enabled, unknown_transport, bad_exposure, bad_access, tags_empty,
  bad_resource_uri, bad_method_timeout, bad_default_timeout, bad_schema, unknown_scope,
  no_capability_catalog, undeclared_method_scope,
}
use service_plane.Shared.Errors.{auth_error}
use service_plane.Shared.Result.{Result, ok, err, ◌>>=◌, ◌>>◌, require, map_ok}
use service_plane.Shared.Types.{
  AbilityAccess, access_of_text, AbilityExposure, private_exposure, published, AbilityTransport,
  cloudflare_binding_rpc, http_batch, websocket,
}
use service_plane.Shared.Catalog.{
  ServiceHttpMethod, http_delete, http_get, http_patch, http_post, http_put, http_query,
}
use service_plane.Shared.Paths.{
  starts_with_slash, starts_with_two_slashes, has_unit, is_origin_relative_path,
  without_end_slashes, template_variable,
}

-- `status` is a failure of the declaration.
abbrev pub refused {ℓ} : {A : Type ℓ} → Message → Result A
refused message = err (auth_error message 500)

abbrev pub demand : Bool → Message → Result (Unit {0})
demand test message = require test (auth_error message 500)

-- normalizeValue(value, field)
unfoldable pub normalize_value : Text → Result Text
normalize_value value = do
  let normalized = trim value
  demand (not (is_nil normalized)) value_empty
  ok normalized

-- normalizeScope(scope) and normalizeScopes(scopes), which here may be empty
unfoldable pub normalize_declared_scope : Text → Result Text
normalize_declared_scope scope = do
  let normalized = trim scope
  demand (not (is_nil normalized)) scope_empty
  demand (not (any (λ c. nat_eq c b'*') normalized)) wildcard_scope
  ok normalized

unfoldable pub normalize_declared_scopes : List Text → Result (List Text)
normalize_declared_scopes scopes = do
  normalized ← map_ok normalize_declared_scope scopes
  ok (unique normalized)

-- validateKnownScopes(scopes, knownScopes, capabilities, message); `known` is absent where the service
-- has no capability catalog.
unfoldable pub validate_known_scopes : List Text → Option (List Text) → Result (Unit {0})
validate_known_scopes scopes none = demand (is_nil scopes) no_capability_catalog
validate_known_scopes [] (some known) = ok tt
validate_known_scopes (scope ∷ scopes) (some known) = do
  demand (includes known scope) (unknown_scope scope)
  validate_known_scopes scopes (some known)

-- validateMethodScopesDeclaredByAbility(abilityId, methodName, methodScopes, abilityScopes)
unfoldable pub validate_method_scopes : Text → List Text → List Text → Result (Unit {0})
validate_method_scopes name [] ability_scopes = ok tt
validate_method_scopes name (scope ∷ scopes) ability_scopes = do
  demand (includes ability_scopes scope) (undeclared_method_scope scope)
  validate_method_scopes name scopes ability_scopes

-- normalizePath(path, source)
unfoldable pub normalize_declared_path : Text → Result Text
unfolding starts_with_two_slashes
normalize_declared_path path = do
  let normalized = trim path
  demand
      (starts_with_slash normalized
        && not (starts_with_two_slashes normalized)
        && not (has_unit 92 normalized))
      (bad_path path)
  demand (is_origin_relative_path normalized) (path_with_query path)
  let shortened = without_end_slashes normalized
  ok (if is_nil shortened then text "/" else shortened)

-- `toLowerCase` of ASCII letters, which alone can become the letters of a method's name
lower : ℕ → ℕ
lower c = if leb b'A' c && leb c b'Z' then c + 32 else c

-- normalizeHttpMethod(method), of a string
unfoldable pub normalize_http_method : Text → Result ServiceHttpMethod
unfolding lower
normalize_http_method method =
    let normalized = map lower method in
    if normalized == text "delete"
    then ok http_delete
    else if normalized == text "get"
    then ok http_get
    else if normalized == text "patch"
    then ok http_patch
    else if normalized == text "post"
    then ok http_post
    else if normalized == text "put"
    then ok http_put
    else if normalized == text "query"
    then ok http_query
    else refused (bad_rest_method method)

-- normalizeRestStatus(status, abilityId, methodName)
unfoldable pub normalize_rest_status : Option JsNumber → Result (Option ℕ)
normalize_rest_status none = ok none
normalize_rest_status (some status) = do
  demand (is_integer status && not (is_below status 200) && not (exceeds status 299))
      bad_rest_status
  ok (some (floor_of status))

-- normalizeTags(tags, source)
unfoldable pub normalize_tags : Option (List Text) → Result (Option (List Text))
normalize_tags none = ok none
normalize_tags (some tags) = do
  normalized ← map_ok normalize_value tags
  demand (not (is_nil normalized)) tags_empty
  ok (some (unique normalized))

unfoldable pub transport_of_text : Text → Result AbilityTransport
transport_of_text transport =
    if transport == text "cloudflare-binding-rpc"
    then ok cloudflare_binding_rpc
    else if transport == text "http-batch"
    then ok http_batch
    else if transport == text "websocket"
    then ok websocket
    else refused (unknown_transport transport)

-- normalizeAbilityTransports(transports)
unfoldable pub normalize_ability_transports : List Text → Result (List AbilityTransport)
normalize_ability_transports transports = do
  demand (not (is_nil transports)) no_transport_enabled
  map_ok transport_of_text (unique transports)

-- normalizeAbilityExposure(exposure, abilityId)
unfoldable pub normalize_ability_exposure : Text → Result AbilityExposure
normalize_ability_exposure exposure =
    if exposure == text "private"
    then ok private_exposure
    else if exposure == text "published"
    then ok published
    else refused bad_exposure

known_access : Option AbilityAccess → Result AbilityAccess
known_access none = refused bad_access
known_access (some access) = ok access

-- normalizeAbilityAccess(access, abilityId)
unfoldable pub normalize_ability_access : Text → Result AbilityAccess
unfolding known_access
normalize_ability_access access = known_access (access_of_text access)

abbrev pub max_method_timeout_ms : ℕ
max_method_timeout_ms = 2 ^ 31 - 1

is_zero : JsNumber → Bool
is_zero x = is_integer x && not (exceeds x 0) && not (is_below x 0)

-- resolveMethodTimeoutMs(abilityId, methodName, declared, serviceDefault); no default is `false`
unfoldable pub resolve_method_timeout_ms : Option JsNumber → Option ℕ → Result (Option ℕ)
unfolding is_zero
resolve_method_timeout_ms none service_default = ok service_default
resolve_method_timeout_ms (some declared) service_default =
    if is_zero declared
    then ok none
    else (demand
          (is_safe_integer declared
            && not (is_below declared 0)
            && not (exceeds declared max_method_timeout_ms))
          bad_method_timeout
        >> ok (some (floor_of declared)))

-- validateDefaultMethodTimeoutMs(value), of a number; `none` is `false`
unfoldable pub validate_default_method_timeout_ms : Option JsNumber → Result (Option ℕ)
validate_default_method_timeout_ms none = ok none
validate_default_method_timeout_ms (some value) = do
  demand (is_safe_integer value && exceeds value 0 && not (exceeds value max_method_timeout_ms))
      bad_default_timeout
  ok (some (floor_of value))

-- `uri.match(/\{[^}]*\}|\{|\}/gu)`: the text since an opening brace is held in reverse. An opening brace
-- that is never closed counts once.
template_expressions : Option Text → Text → List Text
template_expressions none [] = []
template_expressions (some piece) [] = text "{" ∷ []
template_expressions none (c ∷ s) =
    let opened = template_expressions (some []) s in
    let rest = template_expressions none s in
    if nat_eq c b'{' then opened else if nat_eq c b'}' then text "}" ∷ rest else rest
template_expressions (some piece) (c ∷ s) =
    let closed = template_expressions none s in
    let longer = template_expressions (some (c ∷ piece)) s in
    if nat_eq c b'}' then (b'{' ∷ reverse (b'}' ∷ piece)) ∷ closed else longer

-- The loop over the braces: whether it ends, balanced, without ever having more closed than opened.
is_balanced : ℕ → Text → Bool
is_balanced balance [] = nat_eq balance 0
is_balanced balance (c ∷ s) =
    if nat_eq c b'{'
    then is_balanced (balance + 1) s
    else if nat_eq c b'}'
    then not (nat_eq balance 0) && is_balanced (balance - 1) s
    else is_balanced balance s

is_variable : Option Text → Bool
is_variable none = false
is_variable (some name) = true

-- validateMcpResourceUriTemplate(uri, abilityId, methodName)
unfoldable pub validate_mcp_resource_uri : Text → Result (Unit {0})
unfolding template_expressions is_balanced is_variable
validate_mcp_resource_uri uri =
    demand
      (is_balanced 0 uri
        && all (λ expression. is_variable (template_variable expression))
            (template_expressions none uri))
      bad_resource_uri

-- What a schema's rendering as JSON Schema gives, if the schema keeps to its contract.
pub data Rendering : Type 0 where
  not_standard rendering_threw : Rendering
  rendered : Value → Rendering

-- containsLocalRef(value)
abbrev is_local : Value → Bool
is_local (str (c ∷ s)) = nat_eq c b'#'
is_local v = false

unfoldable mutual
  unfolding own

  pub contains_local_ref : Value → Bool
  contains_local_ref (arr vs) = any_local_ref vs
  contains_local_ref (obj fs) = is_local (own (text "$ref") fs) || any_local_field fs
  contains_local_ref undefined = false
  contains_local_ref null = false
  contains_local_ref (bool b) = false
  contains_local_ref (num x) = false
  contains_local_ref (str s) = false

  pub any_local_ref : Values → Bool
  any_local_ref nil = false
  any_local_ref (cons v vs) = contains_local_ref v || any_local_ref vs

  pub any_local_field : Fields → Bool
  any_local_field end = false
  any_local_field (field k v fs) = contains_local_ref v || any_local_field fs

-- withSchemaResourceId(schema, resourceId); a `$id` that the schema has, of whatever kind, stays
unfoldable pub with_schema_resource_id : Value → Text → Value
unfolding has_field
with_schema_resource_id (obj fs) resource_id =
    if has_field (text "$id") fs || not (contains_local_ref (obj fs))
    then obj fs
    else obj (field (text "$id") (str resource_id) fs)
with_schema_resource_id v resource_id = v

-- schemaResourceId(serviceId, abilityId, methodName, io); `encode` is encodeURIComponent
unfoldable pub schema_resource_id : (Text → Text) → Text → Text → Text → Text → Text
schema_resource_id encode service_id ability_id method_name io =
    text "urn:service-plane:"
    ++ (encode service_id
        ++ (b'/' ∷ (encode ability_id ++ (b'/' ∷ (encode method_name ++ (b'/' ∷ io))))))

-- abilityJsonSchema(schema, io, source, resourceId), of what the rendering of the schema gives
unfoldable pub ability_json_schema : Rendering → Text → Result Value
ability_json_schema not_standard resource_id = refused bad_schema
ability_json_schema rendering_threw resource_id = refused bad_schema
ability_json_schema (rendered schema) resource_id = do
  demand (is_record schema) bad_schema
  ok (with_schema_resource_id schema resource_id)
