-- ===== src/Shared/Catalog.antt =====
-- The catalog types of src/shared/types.ts: what a service advertises, and where it is. Titles,
-- descriptions and the MCP projections of a method are left out.
use service_plane.Prelude.{ℕ, Bool, Option, List}
use service_plane.Prelude.Text.{Text}
use service_plane.Prelude.Value.{Value}
use service_plane.Shared.Types.{AbilityAccess, AbilityExposure, AbilityTransport}

pub data ServiceHttpMethod : Type 0 where
  http_delete http_get http_patch http_post http_put http_query : ServiceHttpMethod

pub record ServiceAbilityRestProjection : Type 0 where
  pub method : ServiceHttpMethod
  pub path : Text
  pub status : Option ℕ

-- `stream` is `method.stream === true`.
pub record ServiceAbilityMethodDiscovery : Type 0 where
  pub input_schema : Value
  pub rest : Option ServiceAbilityRestProjection
  pub scopes : List Text
  pub stream : Bool

-- `path` and `transports` are those of `rpc`; the methods are in the order of `Object.entries`.
pub record ServiceAbilityDiscovery : Type 0 where
  pub access : AbilityAccess
  pub exposure : AbilityExposure
  pub id : Text
  pub methods : List (Text × ServiceAbilityMethodDiscovery)
  pub path : Text
  pub transports : List AbilityTransport
  pub scopes : List Text

-- `ability_rpc` says whether the endpoint has a native binding. Its WebSocket constructor, which only
-- the transport uses, is left out.
pub record ServiceEndpoint : Type 0 where
  pub ability_rpc : Bool
  pub id : Text
  pub origin : Text

-- `ingress_required` is `serviceIngress?.required`.
pub record DiscoveredServiceAbility : Type 0 where
  pub ability : ServiceAbilityDiscovery
  pub open ability use *
  pub service : ServiceEndpoint
  pub service_id : Text
  pub ingress_required : Bool
