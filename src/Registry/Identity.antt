-- ===== src/Registry/Identity.antt =====
-- Which documents enter the catalog.
use service_plane.Prelude.{
  ℕ, ◌+◌, ◌*◌, ◌≡◌, refl, sym, inl, inr, Bool, true, false, Option, none, some, List, [], ◌∷◌, map,
  arith,
}
use service_plane.Prelude.Tests.{Bool-cases, Option-cases}
use service_plane.Prelude.Lists.{All, Among, All-mono}
use service_plane.Prelude.Text.{Text, text}
use service_plane.Prelude.Value.{Value, str, prop}
use service_plane.Shared.Tokens.Verify.{non_empty}
use service_plane.Shared.Catalog.{ServiceEndpoint}
use service_plane.Issuer.{get}
use service_plane.Registry.{is_discovery_for_endpoint}
use service_plane.Registry.Discover.{
  ServiceDiscoverySnapshot, CacheEntry, RegistryCache, cache_get, cache_get_stale, stale_value,
  cache_set, snapshot_after, Answer, configured, not_modified, failed, thrown, answered,
  DiscoveredDocument, document_with_id, previous_services, previous_etag, checked, document_of,
  discover_service, discover_documents, discover_services, discover,
}
use service_plane.Registry.Lookups.{
  is_literal-eq, get-All, put-All, with_entry-All, document_with_id-lem,
}

module _ (root_properties : Value → Option (List Text)) (reserved : List Text) where
  -- The document was accepted for the endpoint with this id.
  abbrev pub IsAccepted : Text → Value → Type 0
  IsAccepted id document =
      (is_discovery_for_endpoint root_properties reserved document id ≡ true)
      × (prop (text "id") document ≡ str id)

  accepted :
      (document : Value) (id : Text)
      → is_discovery_for_endpoint root_properties reserved document id ≡ true
      → IsAccepted id document
  unfolding is_discovery_for_endpoint
  accepted document id h = (h, is_literal-eq id (prop (text "id") document) (ground arith))

  -- The document was accepted for the id that it has.
  abbrev pub IsOwned : Value → Type 0
  IsOwned document = (id : Text) × IsAccepted id document

  -- The document was accepted for one of the endpoints.
  abbrev pub IsServed : List ServiceEndpoint → Value → Type 0
  IsServed endpoints document =
      (endpoint : ServiceEndpoint) × Among endpoint endpoints × IsAccepted endpoint.id document

  owned-IsAccepted :
      (document : Value) (id : Text)
      → prop (text "id") document ≡ str id
      → IsOwned document
      → IsAccepted id document
  owned-IsAccepted document id named (owner, (valid, owned)) =
      let same : owner ≡ id = ground (arith, named, owned) in (rw same at valid, named)

  All-Among :
      (documents : List Value) (d : Value) → All IsOwned documents → Among d documents → IsOwned d
  All-Among [] d hs a = absurd a
  All-Among (document ∷ documents) d (h, hs) (inl e) = rw e at h
  All-Among (document ∷ documents) d (h, hs) (inr a) = All-Among documents d hs a

  module _ (answers : ServiceEndpoint → Option Text → Answer) where
    checked_entry :
        (d : Value) (id : Text) (etag : Option Text) (entry : DiscoveredDocument)
        → checked root_properties reserved answers id d etag ≡ some entry
        → IsAccepted id entry.document
    unfolding checked
    checked_entry d id etag entry h =
        elim (Bool-cases (is_discovery_for_endpoint root_properties reserved d id)) [
          | inr invalid ↦ absurd (ground arith)
          | inl valid ↦
              let same : d ≡ entry.document = ground arith in rw (sym same) (accepted d id valid)
        ]

    document_of-IsAccepted :
        (previous : Option ServiceDiscoverySnapshot) (id : Text) (etag : Option Text)
        (answer : Answer) (entry : DiscoveredDocument)
        → All IsOwned (previous_services previous)
        → document_of root_properties reserved answers previous id etag answer ≡ some entry
        → IsAccepted id entry.document
    unfolding document_of
    document_of-IsAccepted previous id etag (configured d) entry hs h =
        checked_entry d id none entry h
    document_of-IsAccepted previous id etag not_modified entry hs h =
        elim (Option-cases (document_with_id id (previous_services previous))) [
          | inl absent ↦ absurd (ground arith)
          | inr (d, found) ↦
              let same : d ≡ entry.document = ground arith in
              let (named, among) = document_with_id-lem id (previous_services previous) d found in
              rw (sym same)
                (owned-IsAccepted d id named (All-Among (previous_services previous) d hs among))
        ]
    document_of-IsAccepted previous id etag failed entry hs h = absurd (ground arith)
    document_of-IsAccepted previous id etag thrown entry hs h = absurd (ground arith)
    document_of-IsAccepted previous id etag (answered d new_etag) entry hs h =
        checked_entry d id (non_empty new_etag) entry h

    discover_service-IsAccepted :
        (previous : Option ServiceDiscoverySnapshot) (endpoint : ServiceEndpoint)
        (entry : DiscoveredDocument)
        → All IsOwned (previous_services previous)
        → discover_service root_properties reserved answers previous endpoint ≡ some entry
        → IsAccepted endpoint.id entry.document
    unfolding discover_service
    discover_service-IsAccepted previous endpoint entry hs h =
        let etag = previous_etag previous endpoint.id in
        document_of-IsAccepted previous endpoint.id etag (answers endpoint (non_empty etag)) entry
          hs h

    -- Where the previous snapshot holds accepted documents, every document that is discovered was
    -- accepted for one of the configured endpoints, whose id it has.
    pub discover_documents-IsServed :
        (previous : Option ServiceDiscoverySnapshot) (endpoints : List ServiceEndpoint)
        → All IsOwned (previous_services previous)
        → All (IsServed endpoints) (
            map
              (λ (entry : DiscoveredDocument). entry.document)
              (discover_documents root_properties reserved answers previous endpoints))
    unfolding discover_documents
    discover_documents-IsServed previous [] hs = tt
    discover_documents-IsServed previous (endpoint ∷ endpoints) hs =
        let documents =
          map (λ (entry : DiscoveredDocument). entry.document)
            (discover_documents root_properties reserved answers previous endpoints) in
        let later =
          All-mono (IsServed endpoints) (IsServed (endpoint ∷ endpoints)) documents
            (λ d (e, among, accepted). (e, inr among, accepted))
            (discover_documents-IsServed previous endpoints hs) in
        with_entry-All (IsServed (endpoint ∷ endpoints))
          (discover_service root_properties reserved answers previous endpoint)
          (discover_documents root_properties reserved answers previous endpoints)
          (λ entry found.
            (endpoint, inl refl, discover_service-IsAccepted previous endpoint entry hs found))
          later

  -- Every document of the cache was accepted for its id.
  abbrev pub IsSoundCache : RegistryCache → Type 0
  IsSoundCache = All (λ (e : Text × CacheEntry). All IsOwned e.1.value.services)

  stale_value-IsOwned :
      (e : Option CacheEntry)
      → ((entry : CacheEntry) → e ≡ some entry → All IsOwned entry.value.services)
      → All IsOwned (previous_services (stale_value e))
  stale_value-IsOwned none h = tt
  stale_value-IsOwned (some entry) h = h entry refl

  stale-IsOwned :
      (key : Text) (cache : RegistryCache)
      → IsSoundCache cache
      → All IsOwned (previous_services (cache_get_stale key cache))
  unfolding cache_get_stale
  stale-IsOwned key cache hs = stale_value-IsOwned (get key cache) (λ entry found.
      get-All (λ (e : CacheEntry). All IsOwned e.value.services) key cache entry hs found)

  cached-IsOwned :
      (now : ℕ) (key : Text) (cache : RegistryCache) (snapshot : ServiceDiscoverySnapshot)
      → IsSoundCache cache
      → cache_get now key cache ≡ some snapshot
      → All IsOwned snapshot.services
  unfolding cache_get
  cached-IsOwned now key cache snapshot hs h = elim (Option-cases (get key cache)) [
    | inl absent ↦ absurd (ground arith)
    | inr (entry, found) ↦
        let same : entry.value ≡ snapshot = ground arith in
        rw (sym same)
          (get-All (λ (e : CacheEntry). All IsOwned e.value.services) key cache entry hs found)
  ]

  served-IsOwned :
      (endpoints : List ServiceEndpoint) (documents : List Value)
      → All (IsServed endpoints) documents
      → All IsOwned documents
  served-IsOwned endpoints documents =
      All-mono (IsServed endpoints) IsOwned documents (λ d (e, among, accepted). (e.id, accepted))

  snapshot_after-IsSound :
      (hit : Option ServiceDiscoverySnapshot) (complete : Bool)
      (snapshot : ServiceDiscoverySnapshot) (updated cache : RegistryCache)
      → ((cached : ServiceDiscoverySnapshot) → hit ≡ some cached → All IsOwned cached.services)
      → All IsOwned snapshot.services
      → IsSoundCache updated
      → IsSoundCache cache
      → let after = snapshot_after hit complete snapshot updated cache in
        All IsOwned after.0.services × IsSoundCache after.1
  snapshot_after-IsSound (some cached) complete snapshot updated cache h o u c = (h cached refl, c)
  snapshot_after-IsSound none true snapshot updated cache h o u c = (o, u)
  snapshot_after-IsSound none false snapshot updated cache h o u c = (o, c)

  -- Only documents that were accepted for the id that they have enter the catalog: from a cache of such
  -- documents, a discovery gives a snapshot of such documents and leaves such a cache, whatever the
  -- endpoints answer.
  pub discover-IsSound :
      (answers : ServiceEndpoint → Option Text → Answer) (now : ℕ) (key : Text) (ttl : ℕ)
      (endpoints : List ServiceEndpoint) (cache : RegistryCache)
      → IsSoundCache cache
      → let after = discover root_properties reserved answers now key ttl endpoints cache in
        All IsOwned after.0.services × IsSoundCache after.1
  unfolding discover cache_set discover_services
  discover-IsSound answers now key ttl endpoints cache hs =
      let stale = cache_get_stale key cache in
      let owned =
        served-IsOwned endpoints _
          (discover_documents-IsServed answers stale endpoints (stale-IsOwned key cache hs)) in
      let result = discover_services root_properties reserved answers endpoints stale in
      let snapshot : ServiceDiscoverySnapshot = record {
        etags = result.etags;
        services = result.services;
      } in
      let stored : CacheEntry = record { expires_at = now + ttl * 1000; value = snapshot } in
      snapshot_after-IsSound (cache_get now key cache) result.complete snapshot
        (cache_set now key snapshot ttl cache) cache
        (λ cached hit. cached-IsOwned now key cache cached hs hit) owned
        (put-All (λ (e : CacheEntry). All IsOwned e.value.services) key stored cache owned hs) hs
