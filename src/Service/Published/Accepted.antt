-- ===== src/Service/Published/Accepted.antt =====
-- The document of an accepted service is one that the registry accepts.
use service_plane.Prelude.{
  ℕ, ◌≡◌, refl, Bool, true, false, ◌&&◌, ◌||◌, not, Option, none, some, List, [], ◌∷◌, arith,
}
use service_plane.Prelude.Lists.{All, all}
use service_plane.Prelude.Text.{Text, text, ◌==◌, eq_iff, eq_refl}
use service_plane.Prelude.Value.{
  Value, str, arr, obj, elements, prop, own, is_record, is_object, is_undefined, is_string,
}
use service_plane.Shared.Result.{ok}
use service_plane.Shared.Types.{
  AbilityAccess, plane, service, access_text, AbilityExposure, private_exposure, published,
  AbilityTransport, cloudflare_binding_rpc, http_batch, websocket,
}
use service_plane.Registry.{
  is_literal, is_true, is_truthy, is_array_of, is_text_with, is_ability_exposure, is_ability_access,
  is_ability_transport, is_optional, is_capability_catalog, is_caller_auth, values_of,
  is_ability_method_discovery, is_ability_discovery, is_service_discovery_document,
  is_discovery_for_endpoint,
}
use service_plane.Service.Definition.{
  NormalizedMethod, NormalizedAbility, DeclaredService, ServiceDefinition, define_ability_service,
}
use service_plane.Service.Definition.Methods.{IsSoundMethod}
use service_plane.Service.Definition.Abilities.{IsSoundAbility, define_ability_service-AreAbilities}
use service_plane.Service.Published.{
  array_of, optional, exposure_text, transport_value, scope_value, catalog_value, key_value,
  caller_auth_value, ingress_value, method_fields, ability_value, discovery_document,
}
use service_plane.Service.Published.Methods.{
  all-array, texts-strings, IsUnreserved, method-IsAccepted,
}

access-known : (a : AbilityAccess) → is_ability_access (str (access_text a)) ≡ true
unfolding is_ability_access ◌==◌
access-known plane = refl
access-known service = refl

exposure-known : (e : AbilityExposure) → is_ability_exposure (str (exposure_text e)) ≡ true
unfolding is_ability_exposure ◌==◌
exposure-known private_exposure = refl
exposure-known published = refl

transport-known : (t : AbilityTransport) → is_ability_transport (transport_value t) ≡ true
unfolding is_ability_transport ◌==◌
transport-known cloudflare_binding_rpc = refl
transport-known http_batch = refl
transport-known websocket = refl

transports-All :
    (ts : List AbilityTransport) → All (λ t. is_ability_transport (transport_value t) ≡ true) ts
transports-All [] = tt
transports-All (t ∷ ts) = (transport-known t, transports-All ts)

transports-known :
    (ts : List AbilityTransport)
    → is_array_of is_ability_transport (arr (array_of transport_value ts)) ≡ true
unfolding is_array_of
transports-known ts = all-array transport_value is_ability_transport ts (transports-All ts)

all_of : (vs : List Value) → all (λ _. true) vs ≡ true
unfolding all
all_of [] = refl
all_of (v ∷ vs) = all_of vs

-- The catalog of a service is one of its own scopes.
abbrev pub IsCatalogOf : Text → Option (Text × List Text) → Type 0
IsCatalogOf id none = Unit
IsCatalogOf id (some (service_id, scopes)) = service_id ≡ id

catalog-IsOptional :
    (root_properties : Value → Option (List Text)) (reserved : List Text)
    (catalog : Option (Text × List Text))
    → is_optional (is_capability_catalog root_properties reserved) (optional catalog_value catalog)
      ≡ true
unfolding is_optional is_undefined is_capability_catalog is_object is_string is_array_of prop own
    ◌==◌
catalog-IsOptional root_properties reserved none = refl
catalog-IsOptional root_properties reserved (some (service_id, scopes)) =
    all_of (elements (array_of scope_value scopes))

catalog-named :
    (id : Text) (catalog : Option (Text × List Text))
    → IsCatalogOf id catalog
    → is_optional (λ v. is_literal id (prop (text "serviceId") v)) (optional catalog_value catalog)
      ≡ true
unfolding is_optional is_undefined is_literal prop own
catalog-named id none h = refl
catalog-named id (some (service_id, scopes)) h = (eq_iff service_id id).1 h

caller_auth-known :
    (root_properties : Value → Option (List Text)) (reserved : List Text)
    (keys : Option (List Value))
    → (not (is_truthy (optional caller_auth_value keys))
        || is_caller_auth root_properties reserved (optional caller_auth_value keys))
      ≡ true
unfolding is_truthy is_caller_auth is_object is_array_of prop own ◌==◌
caller_auth-known root_properties reserved none = refl
caller_auth-known root_properties reserved (some keys) = all_of (elements (array_of key_value keys))

ingress-known :
    (ingress : Bool)
    → is_optional (λ v. is_object v && is_true (prop (text "required") v)) (ingress_value ingress)
      ≡ true
unfolding is_optional is_undefined is_object is_true prop own ◌==◌
ingress-known true = refl
ingress-known false = refl

module _ (reserved_member : Text → Bool) (root_properties : Value → Option (List Text))
    (encode : Text → Text) (reserved : List Text) where
  abbrev MethodsUnreserved : List NormalizedMethod → Type 0
  MethodsUnreserved = All (λ (m : NormalizedMethod).
      IsUnreserved reserved_member root_properties encode reserved m.rest)

  -- No ability publishes a REST path that is a route of the plane itself.
  abbrev pub AreUnreserved : List NormalizedAbility → Type 0
  AreUnreserved = All (λ (a : NormalizedAbility). MethodsUnreserved a.methods)

  module _ (service_id : Text) (known : Option (List Text)) (require_scopes : Bool)
      (service_default : Option ℕ) where
    methods-accepted :
        (ability_id : Text) (ability_scopes : List Text) (ms : List NormalizedMethod)
        → All
            (IsSoundMethod reserved_member root_properties encode service_id ability_id
              ability_scopes known require_scopes service_default)
            ms
        → MethodsUnreserved ms
        → all
            (is_ability_method_discovery root_properties reserved)
            (values_of (obj (method_fields ms)))
          ≡ true
    unfolding all method_fields
    methods-accepted ability_id ability_scopes [] h u = refl
    methods-accepted ability_id ability_scopes (m ∷ ms) (h, hs) (u, us) = ground (
      arith,
      method-IsAccepted reserved_member root_properties encode reserved service_id ability_id
          ability_scopes known require_scopes service_default m h u,
      methods-accepted ability_id ability_scopes ms hs us,
    )

    ability-accepted :
        (a : NormalizedAbility)
        → IsSoundAbility reserved_member root_properties encode service_id known require_scopes
            service_default a
        → MethodsUnreserved a.methods
        → is_ability_discovery root_properties reserved (ability_value a) ≡ true
    unfolding is_ability_discovery ability_value prop own ◌==◌ is_object is_record is_string
        is_text_with
    ability-accepted a h u = ground (
      arith,
      access-known a.access,
      exposure-known a.exposure,
      texts-strings a.scopes,
      h.routed,
      transports-known a.transports,
      methods-accepted a.id a.scopes a.methods h.methods u,
    )

    abilities-accepted :
        (abilities : List NormalizedAbility)
        → All
            (IsSoundAbility reserved_member root_properties encode service_id known require_scopes
              service_default)
            abilities
        → AreUnreserved abilities
        → All
            (λ a. is_ability_discovery root_properties reserved (ability_value a) ≡ true)
            abilities
    abilities-accepted [] h u = tt
    abilities-accepted (a ∷ rest) (h, hs) (u, us) =
        (ability-accepted a h u, abilities-accepted rest hs us)

-- The registry accepts, for the service's id, the document that an accepted service publishes, whether
-- or not it has an ingress: where the catalog of its scopes names the service itself and none of its REST
-- paths is a route of the plane.
pub discovery_document-IsAccepted :
    (reserved_member : Text → Bool) (root_properties : Value → Option (List Text))
    (encode : Text → Text) (reserved : List Text) (input : DeclaredService)
    (defined : ServiceDefinition) (ingress : Bool)
    → define_ability_service reserved_member root_properties encode input ≡ ok defined
    → IsCatalogOf defined.id defined.capabilities
    → AreUnreserved reserved_member root_properties encode reserved defined.abilities
    → is_discovery_for_endpoint root_properties reserved
        (discovery_document ingress defined)
        defined.id
      ≡ true
unfolding is_discovery_for_endpoint is_service_discovery_document discovery_document prop own ◌==◌
    is_object is_string is_literal is_array_of
discovery_document-IsAccepted reserved_member root_properties encode reserved input defined ingress
      h c u =
    let (known, service_default, catalogued, nonempty, sound) =
      define_ability_service-AreAbilities reserved_member root_properties encode input defined h in
    let accepted =
      abilities-accepted reserved_member root_properties encode reserved defined.id known
        input.require_scopes service_default defined.abilities sound.0 u in
    ground (
      arith,
      eq_refl defined.id,
      catalog-IsOptional root_properties reserved defined.capabilities,
      catalog-named defined.id defined.capabilities c,
      caller_auth-known root_properties reserved defined.caller_auth,
      ingress-known ingress,
      all-array ability_value (is_ability_discovery root_properties reserved) defined.abilities
          accepted,
    )
