-- ===== src/Broker/Transports.antt =====
-- Which transport the plane chooses for an ability.
use service_plane.Prelude.{◌≡◌, ◌⊎◌, inl, inr, Bool, true, false, ◌&&◌, Option, arith}
use service_plane.Shared.Result.{ok, Result-cases}
use service_plane.Shared.Types.{cloudflare_binding_rpc, http_batch, websocket}
use service_plane.Shared.Catalog.{DiscoveredServiceAbility}
use service_plane.Shared.Paths.{is_origin_relative_path}
use service_plane.Broker.{
  Transport, native_rpc, service_binding_rpc, websocket_rpc, offers, ws_origin, or_has_stream,
  ability_web_socket_transport, transport_for_ability,
}

-- The ability offers the transport, and it leads to the ability's own service.
abbrev pub IsOffered : DiscoveredServiceAbility → Transport → Type 0
IsOffered ability (native_rpc endpoint) =
    (endpoint ≡ ability.service)
    × (ability.service.ability_rpc ≡ true)
    × (offers ability cloudflare_binding_rpc ≡ true)
IsOffered ability (service_binding_rpc endpoint path origin) =
    (endpoint ≡ ability.service)
    × (path ≡ ability.path)
    × (origin ≡ ability.service.origin)
    × (offers ability http_batch ≡ true)
IsOffered ability (websocket_rpc path base) =
    (path ≡ ability.path)
    × (is_origin_relative_path path ≡ true)
    × (base ≡ ws_origin ability.service.origin)
    × (offers ability websocket ≡ true)

-- A transport that carries a session, and so streams.
abbrev pub IsSession : Transport → Type 0
IsSession (native_rpc endpoint) = Unit
IsSession (service_binding_rpc endpoint path origin) = ⊥
IsSession (websocket_rpc path base) = Unit

-- The transport that is chosen is one that the ability offers, at its own service; and where streaming
-- is required and the ability offers WebSockets or has a native binding, it carries a session.
pub transport_for_ability-IsOffered :
    (ability : DiscoveredServiceAbility) (requires_streaming : Option Bool) (t : Transport)
    → transport_for_ability ability requires_streaming ≡ ok t
    → IsOffered ability t
      × ((or_has_stream requires_streaming ability ≡ false)
          ⊎ ((offers ability websocket ≡ false)
              × ((ability.service.ability_rpc && offers ability cloudflare_binding_rpc) ≡ false))
          ⊎ IsSession t)
unfolding transport_for_ability ability_web_socket_transport
transport_for_ability-IsOffered ability requires_streaming (native_rpc e) h = ground arith
transport_for_ability-IsOffered ability requires_streaming (service_binding_rpc e p o) h =
    ground arith
transport_for_ability-IsOffered ability requires_streaming (websocket_rpc p b) h = ground arith

-- For an ability whose path stays on its origin, a transport is chosen as soon as one is usable.
pub transport_for_ability_of_offer :
    (ability : DiscoveredServiceAbility) (requires_streaming : Option Bool)
    → is_origin_relative_path ability.path ≡ true
    → (offers ability http_batch ≡ true)
      ⊎ (offers ability websocket ≡ true)
      ⊎ ((ability.service.ability_rpc && offers ability cloudflare_binding_rpc) ≡ true)
    → (t : Transport) × (transport_for_ability ability requires_streaming ≡ ok t)
unfolding transport_for_ability ability_web_socket_transport
transport_for_ability_of_offer ability requires_streaming path offer =
    elim (Result-cases (transport_for_ability ability requires_streaming)) [
      | inl (t, chosen) ↦ (t, chosen)
      | inr (e, refused) ↦ absurd (ground arith)
    ]
