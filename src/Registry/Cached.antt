-- ===== src/Registry/Cached.antt =====
-- Which discoveries are stored, and what a stored one saves.
use service_plane.Prelude.{
  ℕ, ◌+◌, ◌*◌, ◌<◌, ◌≡◌, refl, ap, ◌⊎◌, inl, inr, Bool, true, false, Option, none, some, List,
  arith,
}
use service_plane.Prelude.Tests.{Bool-cases}
use service_plane.Prelude.Text.{Text, eq_refl}
use service_plane.Prelude.Value.{Value}
use service_plane.Shared.Catalog.{ServiceEndpoint}
use service_plane.Issuer.Grants.{get-put}
use service_plane.Registry.Discover.{
  ServiceDiscoverySnapshot, CacheEntry, RegistryCache, cache_get, cache_get_stale, cache_set,
  Answer, snapshot_after, discover_services, discover,
}

cache_get-cache_set :
    (now later : ℕ) (key : Text) (value : ServiceDiscoverySnapshot) (ttl : ℕ)
    (cache : RegistryCache)
    → later < now + ttl * 1000
    → cache_get later key (cache_set now key value ttl cache) ≡ some value
unfolding cache_get cache_set
cache_get-cache_set now later key value ttl cache h =
    let entry : CacheEntry = record { expires_at = now + ttl * 1000; value = value } in
    rw (get-put key key entry cache, eq_refl key) (ground (arith, h))

snapshot_after-hit :
    (hit : Option ServiceDiscoverySnapshot) (cached : ServiceDiscoverySnapshot) (complete : Bool)
    (snapshot : ServiceDiscoverySnapshot) (updated cache : RegistryCache)
    → hit ≡ some cached
    → snapshot_after hit complete snapshot updated cache ≡ (cached, cache)
snapshot_after-hit none cached complete snapshot updated cache h = absurd (ground arith)
snapshot_after-hit (some other) cached complete snapshot updated cache h =
    ap (λ (s : ServiceDiscoverySnapshot). (s, cache)) (ground arith)

module _ (root_properties : Value → Option (List Text)) (reserved : List Text) (key : Text)
    (ttl : ℕ) (endpoints : List ServiceEndpoint) where
  pub discover-hit :
      (answers : ServiceEndpoint → Option Text → Answer) (now : ℕ) (cache : RegistryCache)
      (cached : ServiceDiscoverySnapshot)
      → cache_get now key cache ≡ some cached
      → discover root_properties reserved answers now key ttl endpoints cache ≡ (cached, cache)
  unfolding discover
  discover-hit answers now cache cached h =
      snapshot_after-hit (cache_get now key cache) cached _ _ _ cache h

  -- A discovery after a miss either is incomplete, and then the cache stays as it is; or it is
  -- complete, and then, until the time to live has passed, a discovery gives the very snapshot and
  -- leaves the cache as it is, whatever the endpoints would answer.
  pub discover-discover :
      (answers others : ServiceEndpoint → Option Text → Answer) (now later : ℕ)
      (cache : RegistryCache)
      → cache_get now key cache ≡ none
      → later < now + ttl * 1000
      → let found =
          discover_services root_properties reserved answers endpoints
            (cache_get_stale key cache) in
        let after = discover root_properties reserved answers now key ttl endpoints cache in
        (found.complete ≡ false) × (after.1 ≡ cache)
        ⊎ (found.complete ≡ true)
          × (discover root_properties reserved others later key ttl endpoints after.1 ≡ after)
  unfolding discover
  discover-discover answers others now later cache miss h =
      let found =
        discover_services root_properties reserved answers endpoints (cache_get_stale key cache) in
      let snapshot : ServiceDiscoverySnapshot = record {
        etags = found.etags;
        services = found.services;
      } in
      elim (Bool-cases found.complete) [
        | inr partial ↦ inl (partial, rw (miss, partial) refl)
        | inl complete ↦ inr (
          complete,
          rw (miss, complete)
              (discover-hit others later (cache_set now key snapshot ttl cache) snapshot
                (cache_get-cache_set now later key snapshot ttl cache h)),
        )
      ]
