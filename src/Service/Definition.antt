-- ===== src/Service/Definition.antt =====
-- defineAbilityService of src/service/discovery.ts: the declaration of a service, checked and brought into
-- normal form. Titles, descriptions and the texts of the MCP projections are left out. What is not under
-- this repository is an argument: the members of Cap'n Web's stubs, the root properties of a rendered
-- schema, and encodeURIComponent.
pub mod Keys
pub mod Routed
pub mod Rest
pub mod Methods
pub mod Abilities
use service_plane.Prelude.{
  ℕ, Bool, true, false, ◌&&◌, ◌||◌, not, Option, none, some, List, [], ◌∷◌, ◌++◌, map,
}
use service_plane.Prelude.Tests.{if◌then◌else◌}
use service_plane.Prelude.Lists.{is_nil, any, all, find?}
use service_plane.Prelude.Text.{Text, text, ◌==◌, trim, includes}
use service_plane.Prelude.Number.{JsNumber}
use service_plane.Prelude.Value.{Value, prop, is_string, is_undefined}
use service_plane.Shared.Message.{
  no_abilities, no_handler, missing_scopes, no_methods, bad_template, streaming_projection,
  no_session_transport, duplicate_ability, duplicate_path, reserved_method, duplicate_method,
  unknown_path_field, caller_auth_private_key,
}
use service_plane.Shared.Errors.{or_default}
use service_plane.Shared.Result.{Result, ok, err, ◌>>=◌, ◌>>◌, map_ok}
use service_plane.Shared.Types.{
  AbilityAccess, AbilityExposure, AbilityTransport, cloudflare_binding_rpc, http_batch, websocket,
}
use service_plane.Shared.Catalog.{ServiceHttpMethod}
use service_plane.Shared.Paths.{path_template_variables}
use service_plane.Shared.Tokens.{is_some}
use service_plane.Shared.Tokens.Verify.{non_empty}
use service_plane.Service.Declared.{
  refused, demand, normalize_value, normalize_declared_scope, normalize_declared_scopes,
  validate_known_scopes, validate_method_scopes, normalize_declared_path, normalize_http_method,
  normalize_rest_status, normalize_tags, normalize_ability_transports, normalize_ability_exposure,
  normalize_ability_access, resolve_method_timeout_ms, validate_default_method_timeout_ms,
  validate_mcp_resource_uri, Rendering, ability_json_schema, schema_resource_id,
}

pub record DeclaredRest : Type 0 where
  pub method : Text
  pub operation_id : Option Text
  pub path : Text
  pub status : Option JsNumber
  pub tags : Option (List Text)

pub record RestProjection : Type 0 where
  pub method : ServiceHttpMethod
  pub operation_id : Text
  pub path : Text
  pub status : Option ℕ
  pub tags : Option (List Text)

-- A prompt is its name and those of its arguments, a resource its name and its URI.
pub record DeclaredMethod : Type 0 where
  pub idempotent : Bool
  pub input : Rendering
  pub output : Rendering
  pub mcp : Option Text
  pub mcp_prompt : Option (Text × List Text)
  pub mcp_resource : Option (Text × Text)
  pub rest : Option DeclaredRest
  pub scopes : Option (List Text)
  pub stream : Bool
  pub timeout_ms : Option JsNumber

pub record NormalizedMethod : Type 0 where
  pub idempotent : Bool
  pub name : Text
  pub input_schema : Value
  pub output_schema : Value
  pub mcp : Option Text
  pub mcp_prompt : Option (Text × List Text)
  pub mcp_resource : Option (Text × Text)
  pub rest : Option RestProjection
  pub scopes : List Text
  pub stream : Bool
  pub timeout_ms : Option ℕ

-- The methods have different keys, as those of an object have.
pub record DeclaredAbility : Type 0 where
  pub access : Option Text
  pub exposure : Option Text
  pub has_handler : Bool
  pub id : Text
  pub methods : List (Text × DeclaredMethod)
  pub path : Option Text
  pub transports : Option (List Text)
  pub scopes : Option (List Text)

pub record NormalizedAbility : Type 0 where
  pub access : AbilityAccess
  pub exposure : AbilityExposure
  pub id : Text
  pub methods : List NormalizedMethod
  pub path : Text
  pub transports : List AbilityTransport
  pub scopes : List Text

-- normalizeMcpProjection, normalizeMcpPromptProjection and normalizeMcpResourceProjection
unfoldable pub normalize_mcp : Option Text → Result (Option Text)
normalize_mcp none = ok none
normalize_mcp (some name) = do n ← normalize_value name; ok (some n)

unfoldable pub normalize_mcp_prompt : Option (Text × List Text) → Result (Option (Text × List Text))
normalize_mcp_prompt none = ok none
normalize_mcp_prompt (some (name, arguments)) = do
  names ← map_ok normalize_value arguments
  n ← normalize_value name
  ok (some (n, names))

unfoldable pub normalize_mcp_resource : Option (Text × Text) → Result (Option (Text × Text))
normalize_mcp_resource none = ok none
normalize_mcp_resource (some (name, uri)) = do
  u ← normalize_value uri
  validate_mcp_resource_uri u
  n ← normalize_value name
  ok (some (n, u))

-- `expression || fallback` of optional strings, normalised
unfoldable pub operation_id_of : Text → Text → Text → Option Text → Result Text
operation_id_of service_id ability_id name none =
    ok (service_id ++ (b'.' ∷ (ability_id ++ (b'.' ∷ name))))
operation_id_of service_id ability_id name (some id) = normalize_value id

-- validateRestPathTemplate(path, abilityId, methodName)
unfoldable pub template_or_error : Option (List Text) → Result (List Text)
template_or_error none = refused bad_template
template_or_error (some variables) = ok variables

-- validateRestPathInputFields(inputSchema, pathVariables, abilityId, methodName), of the names of the root
-- properties
unfoldable pub validate_rest_path_fields : Option (List Text) → List Text → Result (Unit {0})
validate_rest_path_fields properties [] = ok tt
validate_rest_path_fields properties (name ∷ names) = do
  demand (includes (or_default properties []) name) (unknown_path_field name)
  validate_rest_path_fields properties names

abbrev pub streams : NormalizedMethod → Bool
streams method = method.stream

-- `transports.includes('websocket') || transports.includes('cloudflare-binding-rpc')`
abbrev pub is_session_transport : AbilityTransport → Bool
is_session_transport websocket = true
is_session_transport cloudflare_binding_rpc = true
is_session_transport http_batch = false

module _ (reserved_member : Text → Bool) (root_properties : Value → Option (List Text))
    (encode : Text → Text) where
  -- normalizeRestProjection(serviceId, abilityId, methodName, rest, inputSchema)
  unfoldable pub normalize_rest :
      Text → Text → Text → Value → Option DeclaredRest → Result (Option RestProjection)
  normalize_rest service_id ability_id name input_schema none = ok none
  normalize_rest service_id ability_id name input_schema (some rest) = do
    path ← normalize_declared_path rest.path
    variables ← template_or_error (path_template_variables path)
    validate_rest_path_fields (root_properties input_schema) variables
    method ← normalize_http_method rest.method
    operation_id ← operation_id_of service_id ability_id name (non_empty rest.operation_id)
    status ← normalize_rest_status rest.status
    tags ← normalize_tags rest.tags
    ok (
        some (record {
          method = method;
          operation_id = operation_id;
          path = path;
          status = status;
          tags = tags;
        }))

  -- isReservedMethodName(methodName)
  unfoldable pub is_reserved_method_name : Text → Bool
  is_reserved_method_name name = name == text "invoke" || reserved_member name

  -- `method.stream ? undefined : resolveMethodTimeoutMs(…)`
  unfoldable pub method_timeout : Bool → Option JsNumber → Option ℕ → Result (Option ℕ)
  method_timeout true declared service_default = ok none
  method_timeout false declared service_default = resolve_method_timeout_ms declared service_default

  -- One method of `normalizeMethods`; `seen` are the names before it.
  unfoldable pub normalize_method :
      Text
      → Text
      → List Text
      → Option (List Text)
      → Bool
      → Option ℕ
      → List Text
      → Text
      → DeclaredMethod
      → Result NormalizedMethod
  unfolding is_reserved_method_name method_timeout
  normalize_method service_id ability_id ability_scopes known require_scopes service_default seen
        key method =
      do
        name ← normalize_value key
        demand (not (is_reserved_method_name name)) (reserved_method name)
        demand (not (includes seen name)) (duplicate_method name)
        scopes ← normalize_declared_scopes (or_default method.scopes [])
        demand (not (require_scopes && is_nil scopes)) missing_scopes
        validate_known_scopes scopes known
        validate_method_scopes name scopes ability_scopes
        demand (not (method.stream && (is_some method.mcp_prompt || is_some method.mcp_resource)))
            streaming_projection
        demand (not (method.stream && is_some method.rest)) streaming_projection
        timeout_ms ← method_timeout method.stream method.timeout_ms service_default
        input_schema ←
            ability_json_schema method.input
              (schema_resource_id encode service_id ability_id name (text "input"))
        rest ← normalize_rest service_id ability_id name input_schema method.rest
        mcp ← normalize_mcp method.mcp
        mcp_prompt ← normalize_mcp_prompt method.mcp_prompt
        mcp_resource ← normalize_mcp_resource method.mcp_resource
        output_schema ←
            ability_json_schema method.output
              (schema_resource_id encode service_id ability_id name (text "output"))
        ok (record {
          idempotent = method.idempotent;
          name = name;
          input_schema = input_schema;
          output_schema = output_schema;
          mcp = mcp;
          mcp_prompt = mcp_prompt;
          mcp_resource = mcp_resource;
          rest = rest;
          scopes = scopes;
          stream = method.stream;
          timeout_ms = timeout_ms;
        })

  -- The loop of `normalizeMethods`.
  unfoldable pub normalize_methods_from :
      Text
      → Text
      → List Text
      → Option (List Text)
      → Bool
      → Option ℕ
      → List Text
      → List (Text × DeclaredMethod)
      → Result (List NormalizedMethod)
  normalize_methods_from service_id ability_id ability_scopes known require_scopes service_default
        seen [] =
      ok []
  normalize_methods_from service_id ability_id ability_scopes known require_scopes service_default
        seen ((key, declared) ∷ rest) =
      do
        method ←
            normalize_method service_id ability_id ability_scopes known require_scopes
              service_default seen key declared
        methods ←
            normalize_methods_from service_id ability_id ability_scopes known require_scopes
              service_default (method.name ∷ seen) rest
        ok (method ∷ methods)

  -- One ability of `normalizeAbilities`; `seen` are the ids and the paths before it.
  unfoldable pub normalize_ability :
      Text
      → Option (List Text)
      → Bool
      → Option ℕ
      → List Text
      → List Text
      → DeclaredAbility
      → Result NormalizedAbility
  normalize_ability service_id known require_scopes service_default seen_ids seen_paths ability = do
    id ← normalize_value ability.id
    demand (not (includes seen_ids id)) (duplicate_ability id)
    demand ability.has_handler no_handler
    scopes ← normalize_declared_scopes (or_default ability.scopes [])
    demand (not (require_scopes && is_nil scopes)) missing_scopes
    validate_known_scopes scopes known
    demand (not (is_nil ability.methods)) no_methods
    methods ←
        normalize_methods_from service_id id scopes known require_scopes service_default []
          ability.methods
    path ← normalize_declared_path (or_default ability.path (text "/rpc/" ++ id))
    demand (not (includes seen_paths path)) (duplicate_path path)
    transports ←
        normalize_ability_transports (or_default ability.transports (text "http-batch" ∷ []))
    demand (not (any streams methods) || any is_session_transport transports) no_session_transport
    access ← normalize_ability_access (or_default ability.access (text "plane"))
    exposure ← normalize_ability_exposure (or_default ability.exposure (text "private"))
    ok (record {
      access = access;
      exposure = exposure;
      id = id;
      methods = methods;
      path = path;
      transports = transports;
      scopes = scopes;
    })

  -- The loop of `normalizeAbilities`.
  unfoldable pub normalize_abilities_from :
      Text
      → Option (List Text)
      → Bool
      → Option ℕ
      → List Text
      → List Text
      → List DeclaredAbility
      → Result (List NormalizedAbility)
  normalize_abilities_from service_id known require_scopes service_default seen_ids seen_paths [] =
      ok []
  normalize_abilities_from service_id known require_scopes service_default seen_ids seen_paths
        (declared ∷ rest) =
      do
        ability ←
            normalize_ability service_id known require_scopes service_default seen_ids seen_paths
              declared
        abilities ←
            normalize_abilities_from service_id known require_scopes service_default
              (ability.id ∷ seen_ids) (ability.path ∷ seen_paths) rest
        ok (ability ∷ abilities)

  -- `new Set(capabilities?.scopes.map((scope) => normalizeScope(scope.id)) ?? [])`
  unfoldable pub known_scopes_of : Option (List Text) → Result (Option (List Text))
  known_scopes_of none = ok none
  known_scopes_of (some scopes) = do known ← map_ok normalize_declared_scope scopes; ok (some known)

  -- normalizeAbilities(serviceId, abilities, capabilities, requireAbilityScopes, defaultMethodTimeoutMs)
  unfoldable pub normalize_abilities :
      Text
      → List DeclaredAbility
      → Option (List Text)
      → Bool
      → Option JsNumber
      → Result (List NormalizedAbility)
  normalize_abilities service_id abilities capabilities require_scopes default_timeout = do
    demand (not (is_nil abilities)) no_abilities
    service_default ← validate_default_method_timeout_ms default_timeout
    known ← known_scopes_of capabilities
    normalize_abilities_from service_id known require_scopes service_default [] [] abilities

-- `typeof key.k === 'string'` of the private members of a key, and `key.oth !== undefined`
unfoldable pub contains_private_jwk_material : Value → Bool
unfolding is_string is_undefined
contains_private_jwk_material key =
    is_string (prop (text "d") key)
    || is_string (prop (text "dp") key)
    || is_string (prop (text "dq") key)
    || is_string (prop (text "k") key)
    || not (is_undefined (prop (text "oth") key))
    || is_string (prop (text "p") key)
    || is_string (prop (text "q") key)
    || is_string (prop (text "qi") key)

-- validateCallerAuthDiscovery(service), of the keys of its `callerAuth.jwks`
unfoldable pub validate_caller_auth : Option (List Value) → Result (Unit {0})
validate_caller_auth none = ok tt
validate_caller_auth (some keys) =
    demand (not (any contains_private_jwk_material keys)) caller_auth_private_key

-- `capabilities` is the catalog's service id and the ids of its scopes, `default_timeout` the ceiling of
-- the options with its default in place, and `none` for `false`.
pub record DeclaredService : Type 0 where
  pub abilities : List DeclaredAbility
  pub caller_auth : Option (List Value)
  pub capabilities : Option (Text × List Text)
  pub id : Text
  pub title : Text
  pub version : Text
  pub require_scopes : Bool
  pub default_timeout : Option JsNumber

pub record ServiceDefinition : Type 0 where
  pub abilities : List NormalizedAbility
  pub caller_auth : Option (List Value)
  pub capabilities : Option (Text × List Text)
  pub id : Text
  pub title : Text
  pub version : Text

abbrev pub catalog_scopes : Option (Text × List Text) → Option (List Text)
catalog_scopes none = none
catalog_scopes (some (service_id, scopes)) = some scopes

-- defineAbilityService(input, options)
unfoldable pub define_ability_service :
    (Text → Bool)
    → (Value → Option (List Text))
    → (Text → Text)
    → DeclaredService
    → Result ServiceDefinition
define_ability_service reserved_member root_properties encode input = do
  id ← normalize_value input.id
  abilities ←
      normalize_abilities reserved_member root_properties encode id input.abilities
        (catalog_scopes input.capabilities) input.require_scopes input.default_timeout
  title ← normalize_value input.title
  version ← normalize_value input.version
  validate_caller_auth input.caller_auth
  ok (record {
    abilities = abilities;
    caller_auth = input.caller_auth;
    capabilities = input.capabilities;
    id = id;
    title = title;
    version = version;
  })
