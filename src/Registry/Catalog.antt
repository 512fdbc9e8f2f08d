-- ===== src/Registry/Catalog.antt =====
-- Where the abilities of the catalog are served.
use service_plane.Prelude.{
  ℕ, ◌≡◌, refl, sym, inl, inr, Bool, true, Option, none, some, List, [], ◌∷◌, map, arith,
}
use service_plane.Prelude.Tests.{Bool-cases, Option-cases}
use service_plane.Prelude.Lists.{All, Among, all-All, All-append}
use service_plane.Prelude.Text.{Text, text}
use service_plane.Prelude.Value.{Value, undefined, null, bool, num, str, arr, obj, elements, prop}
use service_plane.Shared.Paths.{is_origin_relative_path}
use service_plane.Shared.Catalog.{ServiceEndpoint}
use service_plane.Registry.{
  is_literal, is_array_of, is_text_with, is_ability_discovery, is_service_discovery_document,
  is_discovery_for_endpoint,
}
use service_plane.Registry.Discover.{
  RegistryAbility, endpoint_of, array_elements, abilities_at, with_abilities, Answer, RegistryCache,
  discover,
}
use service_plane.Registry.Lookups.{is_literal-eq}
use service_plane.Registry.Identity.{IsOwned, IsSoundCache, discover-IsSound}

-- The value is a path that stays on the origin of its service.
abbrev pub IsRelative : Value → Type 0
IsRelative v = (path : Text) × (v ≡ str path) × (is_origin_relative_path path ≡ true)

is_text_with-IsRelative : (v : Value) → is_text_with is_origin_relative_path v ≡ true → IsRelative v
unfolding is_text_with
is_text_with-IsRelative (str s) h = (s, refl, h)
is_text_with-IsRelative undefined h = absurd (ground arith)
is_text_with-IsRelative null h = absurd (ground arith)
is_text_with-IsRelative (bool b) h = absurd (ground arith)
is_text_with-IsRelative (num x) h = absurd (ground arith)
is_text_with-IsRelative (arr vs) h = absurd (ground arith)
is_text_with-IsRelative (obj fs) h = absurd (ground arith)

is_array_of-All :
    (p : Value → Bool) (v : Value)
    → is_array_of p v ≡ true
    → All (λ x. p x ≡ true) (array_elements v)
unfolding is_array_of
is_array_of-All p (arr vs) h = all-All p (elements vs) h
is_array_of-All p undefined h = tt
is_array_of-All p null h = tt
is_array_of-All p (bool b) h = tt
is_array_of-All p (num x) h = tt
is_array_of-All p (str s) h = tt
is_array_of-All p (obj fs) h = tt

endpoint_of-lem :
    (endpoints : List ServiceEndpoint) (document : Value) (e : ServiceEndpoint)
    → endpoint_of endpoints document ≡ some e
    → Among e endpoints × (prop (text "id") document ≡ str e.id)
unfolding endpoint_of
endpoint_of-lem [] document e h = absurd (ground arith)
endpoint_of-lem (endpoint ∷ endpoints) document e h =
    elim (Option-cases (endpoint_of endpoints document)) [
      | inr (other, later) ↦
          let found : endpoint_of endpoints document ≡ some e = ground arith in
          let (among, named) = endpoint_of-lem endpoints document e found in (inr among, named)
      | inl absent ↦ elim (Bool-cases (is_literal endpoint.id (prop (text "id") document))) [
        | inr unnamed ↦ absurd (ground arith)
        | inl named ↦
            let same : endpoint ≡ e = ground arith in
            rw (sym same) (inl refl, is_literal-eq endpoint.id (prop (text "id") document) named)
      ]
    ]

module _ (root_properties : Value → Option (List Text)) (reserved : List Text)
    (endpoints : List ServiceEndpoint) where
  ability-IsRelative :
      (ability : Value)
      → is_ability_discovery root_properties reserved ability ≡ true
      → IsRelative (prop (text "path") (prop (text "rpc") ability))
  unfolding is_ability_discovery
  ability-IsRelative ability h =
      is_text_with-IsRelative (prop (text "path") (prop (text "rpc") ability)) (ground arith)

  accepted-abilities :
      (document : Value) (id : Text)
      → is_discovery_for_endpoint root_properties reserved document id ≡ true
      → All
          (λ ability. is_ability_discovery root_properties reserved ability ≡ true)
          (array_elements (prop (text "abilities") document))
  unfolding is_discovery_for_endpoint is_service_discovery_document
  accepted-abilities document id h =
      is_array_of-All (is_ability_discovery root_properties reserved)
        (prop (text "abilities") document) (ground arith)

  -- The ability is served by a configured endpoint that has the id of the ability's document, at a
  -- path that stays on that endpoint's origin.
  abbrev pub IsPlaced : RegistryAbility → Type 0
  IsPlaced r =
      Among r.service endpoints
      × (prop (text "id") r.document ≡ str r.service.id)
      × IsRelative (prop (text "path") (prop (text "rpc") r.ability))

  All-map-IsPlaced :
      (document : Value) (endpoint : ServiceEndpoint) (abilities : List Value)
      → Among endpoint endpoints
      → prop (text "id") document ≡ str endpoint.id
      → All (λ ability. is_ability_discovery root_properties reserved ability ≡ true) abilities
      → All IsPlaced (
          map
            (λ ability. record { ability = ability; service = endpoint; document = document })
            abilities)
  All-map-IsPlaced document endpoint [] among named hs = tt
  All-map-IsPlaced document endpoint (ability ∷ abilities) among named (h, hs) = (
    (among, named, ability-IsRelative ability h),
    All-map-IsPlaced document endpoint abilities among named hs,
  )

  placed :
      (document : Value) (found : Option ServiceEndpoint) (rest : List RegistryAbility)
      → endpoint_of endpoints document ≡ found
      → All
          (λ ability. is_ability_discovery root_properties reserved ability ≡ true)
          (array_elements (prop (text "abilities") document))
      → All IsPlaced rest
      → All IsPlaced (abilities_at document found rest)
  placed document none rest e h hs = hs
  placed document (some endpoint) rest e h hs =
      let (among, named) = endpoint_of-lem endpoints document endpoint e in
      All-append IsPlaced _ rest
        (All-map-IsPlaced document endpoint (array_elements (prop (text "abilities") document))
          among named h)
        hs

  with_abilities-IsPlaced :
      (documents : List Value)
      → All (IsOwned root_properties reserved) documents
      → All IsPlaced (with_abilities endpoints documents)
  unfolding with_abilities
  with_abilities-IsPlaced [] hs = tt
  with_abilities-IsPlaced (document ∷ documents) ((id, (valid, named)), hs) =
      placed document (endpoint_of endpoints document) (with_abilities endpoints documents) refl
        (accepted-abilities document id valid) (with_abilities-IsPlaced documents hs)

  -- From a cache of accepted documents, as an empty one is and as every discovery leaves it, every
  -- ability of the catalog of a discovery is served by a configured endpoint that has the id of the
  -- ability's document, at a path that stays on that endpoint's origin, whatever the endpoints
  -- answer.
  pub with_abilities-discover :
      (answers : ServiceEndpoint → Option Text → Answer) (now : ℕ) (key : Text) (ttl : ℕ)
      (cache : RegistryCache)
      → IsSoundCache root_properties reserved cache
      → let after = discover root_properties reserved answers now key ttl endpoints cache in
        All IsPlaced (with_abilities endpoints after.0.services)
  with_abilities-discover answers now key ttl cache sound =
      let after = discover root_properties reserved answers now key ttl endpoints cache in
      let found =
        discover-IsSound root_properties reserved answers now key ttl endpoints cache sound in
      with_abilities-IsPlaced after.0.services found.0
