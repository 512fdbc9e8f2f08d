-- ===== src/Registry/Discover.antt =====
-- memoryRegistryCache, discoverServices, withAbilities and discover of src/control-plane/registry.ts,
-- for one request at a time. The timestamp of a snapshot is left out.
use service_plane.Prelude.{
  ℕ, ◌+◌, ◌*◌, Bool, true, false, Option, none, some, List, [], ◌∷◌, ◌++◌, map,
}
use service_plane.Prelude.Tests.{leb, nat_eq, if◌then◌else◌}
use service_plane.Prelude.Lists.{length}
use service_plane.Prelude.Text.{Text, text}
use service_plane.Prelude.Value.{Value, arr, elements, prop}
use service_plane.Shared.Tokens.Verify.{non_empty}
use service_plane.Shared.Catalog.{ServiceEndpoint}
use service_plane.Issuer.{get, put}
use service_plane.Registry.{is_literal, is_discovery_for_endpoint}

pub record ServiceDiscoverySnapshot : Type 0 where
  pub etags : List (Text × Text)
  pub services : List Value

-- memoryRegistryCache: its map
pub record CacheEntry : Type 0 where
  pub expires_at : ℕ
  pub value : ServiceDiscoverySnapshot

abbrev pub RegistryCache : Type 0
RegistryCache = List (Text × CacheEntry)

fresh_value : ℕ → Option CacheEntry → Option ServiceDiscoverySnapshot
fresh_value now none = none
fresh_value now (some entry) = if leb entry.expires_at now then none else some entry.value

-- get(key), at the time `now` in milliseconds
unfoldable pub cache_get : ℕ → Text → RegistryCache → Option ServiceDiscoverySnapshot
unfolding fresh_value
cache_get now key cache = fresh_value now (get key cache)

abbrev pub stale_value : Option CacheEntry → Option ServiceDiscoverySnapshot
stale_value none = none
stale_value (some entry) = some entry.value

-- getStale(key)
unfoldable pub cache_get_stale : Text → RegistryCache → Option ServiceDiscoverySnapshot
cache_get_stale key cache = stale_value (get key cache)

-- set(key, value, ttlSeconds)
unfoldable pub cache_set : ℕ → Text → ServiceDiscoverySnapshot → ℕ → RegistryCache → RegistryCache
cache_set now key value ttl = put key (record { expires_at = now + ttl * 1000; value = value })

-- What an endpoint gives: the document that it is configured with, or what its fetch does.
pub data Answer : Type 0 where
  configured : Value → Answer
  not_modified failed thrown : Answer
  answered : Value → Option Text → Answer

pub record DiscoveredDocument : Type 0 where
  pub document : Value
  pub endpoint_id : Text
  pub etag : Option Text

-- `new Map(services.map((service) => [service.id, service])).get(id)`: the last one counts
unfoldable pub document_with_id : Text → List Value → Option Value
document_with_id id [] = none
document_with_id id (document ∷ documents) = elim (document_with_id id documents) [
  | some later ↦ some later
  | none ↦ if is_literal id (prop (text "id") document) then some document else none
]

abbrev pub previous_services : Option ServiceDiscoverySnapshot → List Value
previous_services none = []
previous_services (some snapshot) = snapshot.services

-- `previous?.etags?.[endpoint.id]`
unfoldable pub previous_etag : Option ServiceDiscoverySnapshot → Text → Option Text
previous_etag none id = none
previous_etag (some snapshot) id = get id snapshot.etags

-- `documents.reduce(…)` into the etags
unfoldable pub etags_of : List (Text × Text) → List DiscoveredDocument → List (Text × Text)
etags_of etags [] = etags
etags_of etags (entry ∷ entries) =
    etags_of
      (elim (non_empty entry.etag) [ none ↦ etags | some etag ↦ put entry.endpoint_id etag etags ])
      entries

pub record DiscoveryResult : Type 0 where
  pub complete : Bool
  pub etags : List (Text × Text)
  pub services : List Value

-- An ability with the endpoint that serves it.
pub record RegistryAbility : Type 0 where
  pub ability : Value
  pub service : ServiceEndpoint
  pub document : Value

-- `endpointsById.get(service.id)`: the last endpoint with an id counts
unfoldable pub endpoint_of : List ServiceEndpoint → Value → Option ServiceEndpoint
endpoint_of [] document = none
endpoint_of (endpoint ∷ endpoints) document = elim (endpoint_of endpoints document) [
  | some later ↦ some later
  | none ↦ if is_literal endpoint.id (prop (text "id") document) then some endpoint else none
]

abbrev pub array_elements : Value → List Value
array_elements (arr vs) = elements vs
array_elements _ = []

-- The abilities of a document, if an endpoint serves it, and those of the documents after it.
abbrev pub abilities_at :
    Value → Option ServiceEndpoint → List RegistryAbility → List RegistryAbility
abilities_at document none rest = rest
abilities_at document (some endpoint) rest =
    map (λ ability. record { ability = ability; service = endpoint; document = document })
      (array_elements (prop (text "abilities") document))
    ++ rest

-- withAbilities(snapshot, endpoints), of the snapshot's documents
unfoldable pub with_abilities : List ServiceEndpoint → List Value → List RegistryAbility
with_abilities endpoints [] = []
with_abilities endpoints (document ∷ documents) =
    abilities_at document (endpoint_of endpoints document) (with_abilities endpoints documents)

abbrev pub with_entry :
    Option DiscoveredDocument → List DiscoveredDocument → List DiscoveredDocument
with_entry none entries = entries
with_entry (some entry) entries = entry ∷ entries

-- What `discover` ends with: the cached snapshot, or the new one, which is stored if it is complete.
abbrev pub snapshot_after :
    Option ServiceDiscoverySnapshot
    → Bool
    → ServiceDiscoverySnapshot
    → RegistryCache
    → RegistryCache
    → ServiceDiscoverySnapshot × RegistryCache
snapshot_after (some cached) complete snapshot updated cache = (cached, cache)
snapshot_after none true snapshot updated cache = (snapshot, updated)
snapshot_after none false snapshot updated cache = (snapshot, cache)

-- `answers` is what an endpoint gives to a request with this `if-none-match` header, if any.
module _ (root_properties : Value → Option (List Text)) (reserved : List Text)
    (answers : ServiceEndpoint → Option Text → Answer) where
  unfoldable pub checked : Text → Value → Option Text → Option DiscoveredDocument
  checked id document etag =
      if is_discovery_for_endpoint root_properties reserved document id
      then some (record { document = document; endpoint_id = id; etag = etag })
      else none

  revalidated : Text → Option Value → Option Text → Option DiscoveredDocument
  revalidated id none etag = none
  revalidated id (some document) etag =
      some (record { document = document; endpoint_id = id; etag = etag })

  unfoldable pub document_of :
      Option ServiceDiscoverySnapshot → Text → Option Text → Answer → Option DiscoveredDocument
  unfolding checked revalidated
  document_of previous id etag (configured document) = checked id document none
  document_of previous id etag not_modified =
      revalidated id (document_with_id id (previous_services previous)) etag
  document_of previous id etag failed = none
  document_of previous id etag thrown = none
  document_of previous id etag (answered document new_etag) =
      checked id document (non_empty new_etag)

  -- One endpoint of `discoverServices`.
  unfoldable pub discover_service :
      Option ServiceDiscoverySnapshot → ServiceEndpoint → Option DiscoveredDocument
  unfolding document_of
  discover_service previous endpoint =
      let etag = previous_etag previous endpoint.id in
      document_of previous endpoint.id etag (answers endpoint (non_empty etag))

  unfoldable pub discover_documents :
      Option ServiceDiscoverySnapshot → List ServiceEndpoint → List DiscoveredDocument
  discover_documents previous [] = []
  discover_documents previous (endpoint ∷ endpoints) =
      with_entry (discover_service previous endpoint) (discover_documents previous endpoints)

  -- discoverServices(endpoints, discoveryPath, reservedRestPaths, previous)
  unfoldable pub discover_services :
      List ServiceEndpoint → Option ServiceDiscoverySnapshot → DiscoveryResult
  discover_services endpoints previous =
      let documents = discover_documents previous endpoints in
      record {
        complete = nat_eq (length documents) (length endpoints);
        etags = etags_of [] documents;
        services = map (λ (entry : DiscoveredDocument). entry.document) documents;
      }

  -- discover() of the registry with a memory cache: the snapshot, and the cache after it
  unfoldable pub discover :
      ℕ → Text → ℕ → List ServiceEndpoint → RegistryCache → ServiceDiscoverySnapshot × RegistryCache
  discover now key ttl endpoints cache =
      let result = discover_services endpoints (cache_get_stale key cache) in
      let snapshot : ServiceDiscoverySnapshot = record {
        etags = result.etags;
        services = result.services;
      } in
      snapshot_after (cache_get now key cache) result.complete snapshot
        (cache_set now key snapshot ttl cache) cache
