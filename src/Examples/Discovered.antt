-- ===== src/Examples/Discovered.antt =====
-- Runs of discovery and of an invocation.
use service_plane.Prelude.{
  ℕ, ◌+◌, ◌≡◌, refl, ◌⊎◌, inl, true, false, Option, none, some, List, [], ◌∷◌, arith,
}
use service_plane.Prelude.Lists.{All}
use service_plane.Prelude.Text.{Text, text}
use service_plane.Prelude.Value.{Value, obj, field, end, arr, cons, nil, str}
use service_plane.Shared.Result.{Result, ok}
use service_plane.Shared.Catalog.{ServiceEndpoint}
use service_plane.Registry.Discover.{
  cache_get, cache_get_stale, Answer, answered, discover_services, discover, with_abilities,
}
use service_plane.Registry.Identity.{IsOwned, IsSoundCache, discover-IsSound}
use service_plane.Registry.Cached.{discover-discover}
use service_plane.Registry.Catalog.{IsPlaced, with_abilities-discover}
use service_plane.Registry.Coalesced.{
  Coalesced, coalesced_discovery, IsReachable, idle, arrives, coalesced_discovery-joins,
}
use service_plane.Broker.Connect.{AbilitySessionOptions}
use service_plane.Invocation.{
  ControlPlaneMethodInvocation, ControlPlaneInvocationOptions, invoke_control_plane_method,
}
use service_plane.Invocation.Sessions.{IsSettled, invoke_control_plane_method-IsSettled}
use service_plane.Examples.Plane.{demo_crypto, demo_issuer}
use service_plane.Examples.Brokered.{demo_endpoint, demo_ability}

abbrev demo_document : Value
demo_document = obj (
    field (text "id") (str (text "b")) (
      field (text "title") (str (text "B")) (
        field (text "version") (str (text "1")) (
          field (text "abilities")
            (arr (
              cons
                (obj (
                  field (text "id") (str (text "a1")) (
                    field (text "access") (str (text "plane")) (
                      field (text "exposure") (str (text "published")) (
                        field (text "scopes") (arr (cons (str (text "r")) nil)) (
                          field (text "rpc")
                            (obj (
                              field (text "path") (str (text "/rpc")) (
                                field (text "transports") (arr (cons (str (text "http-batch")) nil))
                                  end)))
                            (field (text "methods") (obj end) end)))))))
                nil))
            end))))

abbrev no_properties : Value → Option (List Text)
no_properties v = none

abbrev demo_answers : ServiceEndpoint → Option Text → Answer
demo_answers endpoint etag = answered demo_document (some (text "v1"))

abbrev no_answers : ServiceEndpoint → Option Text → Answer
no_answers endpoint etag = Answer.failed

discover-IsSound_example :
    let after = discover no_properties [] demo_answers 1000 (text "k") 30 (demo_endpoint ∷ []) [] in
    All (IsOwned no_properties []) after.0.services × IsSoundCache no_properties [] after.1
discover-IsSound_example =
    discover-IsSound no_properties [] demo_answers 1000 (text "k") 30 (demo_endpoint ∷ []) [] tt

empty_cache-miss : cache_get 1000 (text "k") [] ≡ none
unfolding cache_get service_plane.Issuer.get
empty_cache-miss = refl

discover-discover_example :
    let found =
      discover_services no_properties [] demo_answers
        (demo_endpoint ∷ [])
        (cache_get_stale (text "k") []) in
    let after = discover no_properties [] demo_answers 1000 (text "k") 30 (demo_endpoint ∷ []) [] in
    (found.complete ≡ false) × (after.1 ≡ [])
    ⊎ (found.complete ≡ true)
      × (discover no_properties [] no_answers 30999 (text "k") 30 (demo_endpoint ∷ []) after.1
          ≡ after)
discover-discover_example =
    discover-discover no_properties [] (text "k") 30 (demo_endpoint ∷ []) demo_answers no_answers
      1000 30999 [] empty_cache-miss (omega arith)

with_abilities-discover_example :
    let after = discover no_properties [] demo_answers 1000 (text "k") 30 (demo_endpoint ∷ []) [] in
    All
      (IsPlaced no_properties [] (demo_endpoint ∷ []))
      (with_abilities (demo_endpoint ∷ []) after.0.services)
with_abilities-discover_example =
    with_abilities-discover no_properties [] (demo_endpoint ∷ []) demo_answers 1000 (text "k") 30 []
      tt

abbrev demo_invocation : ControlPlaneMethodInvocation
demo_invocation = record { ability = demo_ability; method = text "get"; scopes = text "r" ∷ [] }

abbrev demo_invocation_options : ControlPlaneInvocationOptions
demo_invocation_options = record {
  caller = none;
  control_plane_service_id = text "cp";
  idempotency_key = none;
  issuer = demo_issuer;
  received_at = none;
  request_id = none;
  timeout_ms = none;
}

-- A session is the scopes that it was opened with, and its one method counts up.
abbrev demo_open : AbilitySessionOptions → Result (List Text)
demo_open s = ok s.scopes

abbrev demo_api : List Text → Text → Option (ℕ → Result ℕ)
demo_api session name = some (λ n. ok (n + 1))

invoke_control_plane_method-IsSettled_example :
    IsSettled demo_crypto 1000 demo_invocation demo_invocation_options demo_open demo_api 7 (
      invoke_control_plane_method demo_open demo_api demo_crypto 1000 demo_invocation 7
        demo_invocation_options)
invoke_control_plane_method-IsSettled_example =
    invoke_control_plane_method-IsSettled demo_crypto 1000 demo_invocation demo_invocation_options
      demo_open demo_api 7

abbrev one_fill : Coalesced
one_fill = record { in_flight = (text "k", 0) ∷ []; started = 1 }

one_fill-IsReachable : IsReachable one_fill ((text "k", 0) ∷ [])
unfolding coalesced_discovery service_plane.Issuer.get service_plane.Issuer.put
one_fill-IsReachable = arrives (text "k") idle

coalesced_discovery-joins_example : coalesced_discovery (text "k") one_fill ≡ (one_fill, 0)
coalesced_discovery-joins_example =
    coalesced_discovery-joins one_fill ((text "k", 0) ∷ []) (text "k") 0 one_fill-IsReachable
      (inl refl)
