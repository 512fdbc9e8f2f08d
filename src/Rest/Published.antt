-- ===== src/Rest/Published.antt =====
-- Which methods are reached over REST at all.
use service_plane.Prelude.{
  ◌≡◌, refl, inl, inr, true, false, Option, none, some, List, [], ◌∷◌, arith,
}
use service_plane.Prelude.Tests.{Bool-cases, Option-cases}
use service_plane.Prelude.Lists.{All, Among, All-append, All-mono}
use service_plane.Prelude.Text.{Text}
use service_plane.Shared.Types.{AbilityExposure, published, private_exposure}
use service_plane.Shared.Catalog.{
  ServiceAbilityRestProjection, ServiceAbilityMethodDiscovery, DiscoveredServiceAbility,
}
use service_plane.Rest.{
  RestMatch, match_rest_path, is_published, match_rest, method_matches, rest_matches,
}

-- The match is of a unary method among these, at a path that the request's matches.
abbrev IsMethod :
    Text
    → DiscoveredServiceAbility
    → List (Text × ServiceAbilityMethodDiscovery)
    → RestMatch
    → Type 0
IsMethod pathname ability methods m =
    (definition : ServiceAbilityMethodDiscovery) × (rest : ServiceAbilityRestProjection) × Among
      (m.method, definition) methods
    × (definition.rest ≡ some rest)
    × (definition.stream ≡ false)
    × (m.scopes ≡ definition.scopes)
    × (m.ability ≡ ability)
    × (match_rest_path rest.path pathname ≡ some (m.params, m.static_segments))

-- The match is of a published ability among these.
abbrev pub IsRoute : Text → List DiscoveredServiceAbility → RestMatch → Type 0
IsRoute pathname abilities m =
    (ability : DiscoveredServiceAbility) × Among ability abilities
    × (ability.exposure ≡ published)
    × IsMethod pathname ability ability.methods m

module _ (pathname : Text) where
  match_rest-IsMethod :
      (ability : DiscoveredServiceAbility) (method : Text)
      (definition : ServiceAbilityMethodDiscovery) (rest : Option ServiceAbilityRestProjection)
      (methods : List (Text × ServiceAbilityMethodDiscovery))
      → definition.rest ≡ rest
      → All
          (IsMethod pathname ability ((method, definition) ∷ methods))
          (match_rest pathname ability method definition rest)
  unfolding match_rest
  match_rest-IsMethod ability method definition none methods routed = tt
  match_rest-IsMethod ability method definition (some rest) methods routed =
      elim (Bool-cases definition.stream) [
        | inl stream ↦ simp (stream) tt
        | inr unary ↦ elim (Option-cases (match_rest_path rest.path pathname)) [
          | inl other ↦ simp (unary, other) tt
          | inr ((params, static), matched) ↦
              simp (unary, matched)
                ((definition, rest, inl refl, routed, unary, refl, refl, matched), tt)
        ]
      ]

  method_matches-IsMethod :
      (ability : DiscoveredServiceAbility) (methods : List (Text × ServiceAbilityMethodDiscovery))
      → All (IsMethod pathname ability methods) (method_matches pathname ability methods)
  unfolding method_matches
  method_matches-IsMethod ability [] = tt
  method_matches-IsMethod ability ((method, definition) ∷ methods) =
      All-append _ (match_rest pathname ability method definition definition.rest)
        (method_matches pathname ability methods)
        (match_rest-IsMethod ability method definition definition.rest methods refl)
        (All-mono _ _ (method_matches pathname ability methods)
          (λ m (d, rest, among, a, b, c, e, g). (d, rest, inr among, a, b, c, e, g))
          (method_matches-IsMethod ability methods))

  is_published-eq : (e : AbilityExposure) → is_published e ≡ true → e ≡ published
  unfolding is_published
  is_published-eq published h = refl
  is_published-eq private_exposure h = absurd (ground arith)

  -- Only methods of published abilities that are unary are matched, each with its own scopes and at a
  -- path that the request's path matches.
  pub rest_matches-IsRoute :
      (abilities : List DiscoveredServiceAbility)
      → All (IsRoute pathname abilities) (rest_matches pathname abilities)
  unfolding rest_matches
  rest_matches-IsRoute [] = tt
  rest_matches-IsRoute (ability ∷ abilities) =
      let later =
        All-mono _ _ (rest_matches pathname abilities)
          (λ m (a, among, exposed, more). (a, inr among, exposed, more))
          (rest_matches-IsRoute abilities) in
      elim (Bool-cases (is_published ability.exposure)) [
        | inl open_to_all ↦
            let exposed = is_published-eq ability.exposure open_to_all in
            rw open_to_all (
              All-append _ (method_matches pathname ability ability.methods)
                (rest_matches pathname abilities)
                (All-mono _ _ (method_matches pathname ability ability.methods)
                  (λ m h. (ability, inl refl, exposed, h))
                  (method_matches-IsMethod ability ability.methods))
                later)
        | inr closed ↦ rw closed later
      ]
