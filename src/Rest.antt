-- ===== src/Rest.antt =====
-- src/control-plane/rest.ts: which published method a request is for.
pub mod Uri
pub mod Best
pub mod Routes
pub mod Published
pub mod Body
pub mod Miss
use service_plane.Prelude.{
  ℕ, suc, ◌+◌, Bool, true, false, ◌&&◌, ◌||◌, not, Option, none, some, List, [], ◌∷◌, ◌++◌, map,
}
use service_plane.Prelude.Tests.{leb, ltb, nat_eq, if◌then◌else◌}
use service_plane.Prelude.Lists.{length, is_nil, filter}
use service_plane.Prelude.Text.{Text, text, ◌==◌, split, unique}
use service_plane.Prelude.Value.{Value, obj, end, field, str}
use service_plane.Shared.Message.{ambiguous_route}
use service_plane.Shared.Errors.{auth_error, or_default}
use service_plane.Shared.Result.{Result, ok, err}
use service_plane.Shared.Types.{AbilityExposure, private_exposure, published}
use service_plane.Shared.Catalog.{
  ServiceHttpMethod, http_delete, http_get, http_patch, http_post, http_put, http_query,
  ServiceAbilityRestProjection, ServiceAbilityMethodDiscovery, DiscoveredServiceAbility,
}
use service_plane.Shared.Paths.{without_end_slashes, starts_with_slash, template_variable}
use service_plane.Issuer.{get, put}
use service_plane.Rest.Uri.{decode_path_segment}

abbrev pub Params : Type 0
Params = List (Text × Text)

without_start_slash : Text → Text
without_start_slash [] = []
without_start_slash (c ∷ s) = if nat_eq c b'/' then s else c ∷ s

-- normalizedSegments(path)
unfoldable pub normalized_segments : Text → List Text
unfolding without_start_slash
normalized_segments path =
    let normalized = if ltb 1 (length path) then without_end_slashes path else path in
    if normalized == text "/" then [] else split b'/' (without_start_slash normalized)

-- One round of the loop of `matchRestPath`: what it adds to the parameters and to the static segments.
unfoldable pub match_segment : Text → Option Text → Params × ℕ → Option (Params × ℕ)
match_segment template none found = none
match_segment template (some decoded) found = elim (template_variable template) [
  | some variable ↦ if is_nil decoded then none else some (put variable decoded found.0, found.1)
  | none ↦ if template == decoded then some (found.0, suc found.1) else none
]

unfoldable pub match_segments : Params × ℕ → List Text → List Text → Option (Params × ℕ)
match_segments found [] [] = some found
match_segments found (t ∷ ts) (r ∷ rs) = elim (match_segment t (decode_path_segment r) found) [
  | none ↦ none
  | some more ↦ match_segments more ts rs
]
match_segments found _ _ = none

-- matchRestPath(template, pathname); segments that differ in number end one list before the other
unfoldable pub match_rest_path : Text → Text → Option (Params × ℕ)
match_rest_path template pathname =
    match_segments ([], 0) (normalized_segments template) (normalized_segments pathname)

pub record RestMatch : Type 0 where
  pub ability : DiscoveredServiceAbility
  pub method : Text
  pub params : Params
  pub scopes : List Text
  pub static_segments : ℕ

is_published : AbilityExposure → Bool
is_published published = true
is_published private_exposure = false

module _ (pathname : Text) where
  match_rest :
      DiscoveredServiceAbility
      → Text
      → ServiceAbilityMethodDiscovery
      → Option ServiceAbilityRestProjection
      → List RestMatch
  match_rest ability method definition none = []
  match_rest ability method definition (some rest) =
      if definition.stream then [] else elim (match_rest_path rest.path pathname) [
        | none ↦ []
        | some (params, static) ↦
            record {
              ability = ability;
              method = method;
              params = params;
              scopes = definition.scopes;
              static_segments = static;
            }
            ∷ []
      ]

  method_matches :
      DiscoveredServiceAbility → List (Text × ServiceAbilityMethodDiscovery) → List RestMatch
  unfolding match_rest
  method_matches ability [] = []
  method_matches ability ((method, definition) ∷ methods) =
      match_rest ability method definition definition.rest ++ method_matches ability methods

  -- restMatches(snapshot, pathname), of the snapshot's abilities
  unfoldable pub rest_matches : List DiscoveredServiceAbility → List RestMatch
  unfolding method_matches is_published
  rest_matches [] = []
  rest_matches (ability ∷ abilities) =
      let rest = rest_matches abilities in
      if is_published ability.exposure then method_matches ability ability.methods ++ rest else rest

rest_method_of : Option ServiceAbilityMethodDiscovery → Option ServiceHttpMethod
rest_method_of none = none
rest_method_of (some definition) = elim definition.rest [
  | none ↦ none
  | some rest ↦ some rest.method
]

-- `match.ability.methods[match.method]?.rest?.method`
unfoldable pub match_method : RestMatch → Option ServiceHttpMethod
unfolding rest_method_of get
match_method m = rest_method_of (get m.method m.ability.methods)

unfoldable pub is_same_method : ServiceHttpMethod → Option ServiceHttpMethod → Bool
is_same_method http_delete (some http_delete) = true
is_same_method http_get (some http_get) = true
is_same_method http_patch (some http_patch) = true
is_same_method http_post (some http_post) = true
is_same_method http_put (some http_put) = true
is_same_method http_query (some http_query) = true
is_same_method _ _ = false

-- `matches.sort((left, right) => right.staticSegments - left.staticSegments)`, which is stable
unfoldable pub insert_match : RestMatch → List RestMatch → List RestMatch
insert_match m [] = m ∷ []
insert_match m (n ∷ ns) =
    let later = insert_match m ns in
    if leb n.static_segments m.static_segments then m ∷ n ∷ ns else n ∷ later

unfoldable pub sort_matches : List RestMatch → List RestMatch
unfolding insert_match
sort_matches [] = []
sort_matches (m ∷ ms) = insert_match m (sort_matches ms)

unfoldable pub best_match : Text → List RestMatch → Result (Option RestMatch)
best_match pathname [] = ok none
best_match pathname (best ∷ []) = ok (some best)
best_match pathname (best ∷ next ∷ rest) =
    if nat_eq next.static_segments best.static_segments
    then err (auth_error (ambiguous_route pathname) 500)
    else ok (some best)

-- The matches of a path whose method is the request's.
unfoldable pub rest_candidates :
    List DiscoveredServiceAbility → ServiceHttpMethod → Text → List RestMatch
rest_candidates abilities method pathname =
    filter (λ m. is_same_method method (match_method m)) (rest_matches pathname abilities)

-- findRestMethod(snapshot, method, pathname)
unfoldable pub find_rest_method :
    List DiscoveredServiceAbility → ServiceHttpMethod → Text → Result (Option RestMatch)
find_rest_method abilities method pathname =
    best_match pathname (sort_matches (rest_candidates abilities method pathname))
