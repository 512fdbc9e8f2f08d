-- ===== src/Examples/Brokered.antt =====
-- Runs of the broker and of the REST dispatcher.
use service_plane.Prelude.{
  ◌≤◌, ℕ, ◌≡◌, ◌↔◌, ◌⊎◌, refl, inl, inr, Bool, true, false, ◌&&◌, Option, none, some, List, [], ◌∷◌,
  map, arith,
}
use service_plane.Prelude.Lists.{All, length}
use service_plane.Prelude.Text.{In, text, ◌==◌, split, trim, unique, includes}
use service_plane.Prelude.Number.{whole}
use service_plane.Prelude.Value.{null}
use service_plane.Shared.Result.{ok}
use service_plane.Shared.Types.{AbilityAccess, plane, service, published, http_batch}
use service_plane.Shared.Catalog.{
  http_get, ServiceAbilityMethodDiscovery, ServiceEndpoint, DiscoveredServiceAbility,
}
use service_plane.Shared.Paths.{is_origin_relative_path, template_variable}
use service_plane.Broker.{
  BrokerCaller, Transport, service_binding_rpc, service_caller, offers, or_has_stream,
  transport_for_ability, broker_caller_access, broker_request_token,
}
use service_plane.Broker.Connect.{
  CreateBrokerOptions, BrokeredAbility, root_capability, root_ability, AbilitySessionOptions,
  session_options,
}
use service_plane.Broker.Sessions.{IsSessionOf, session_options-IsSessionOf}
use service_plane.Broker.Class.{IsService}
use service_plane.Broker.Tokens.{broker_of, broker_request_token-IsIssued}
use service_plane.Issuer.Issue.Sound.{IsIssued}
use service_plane.Rest.{
  Params, RestMatch, match_rest_path, rest_candidates, rest_matches, find_rest_method,
  normalized_segments,
}
use service_plane.Rest.Uri.{decode_path_segment}
use service_plane.Rest.Best.{IsBest, find_rest_method_iff}
use service_plane.Rest.Routes.{IsTemplate, fill_segment, match_rest_path-fill}
use service_plane.Rest.Body.{
  joined_chunks, IsDeclaredWithin, read_bounded_body, read_bounded_body_iff,
}
use service_plane.Rest.Miss.{not_allowed, rest_route_miss, Reaches, rest_route_miss-allowed}
use service_plane.Rest.Published.{IsRoute, rest_matches-IsRoute}
use service_plane.Issuer.Issue.{issue_capability_token}
use service_plane.Examples.Issued.{demo_token-issued}
use service_plane.Examples.Plane.{demo_crypto, demo_issuer, demo_input, demo_issued}

abbrev pub demo_endpoint : ServiceEndpoint
demo_endpoint = record { ability_rpc = false; id = text "b"; origin = text "http://b" }

abbrev demo_method : ServiceAbilityMethodDiscovery
demo_method = record {
  input_schema = null;
  rest = some (record { method = http_get; path = text "/u/{id}"; status = none });
  scopes = text "r" ∷ [];
  stream = false;
}

abbrev pub demo_ability : DiscoveredServiceAbility
demo_ability = record {
  ability = record {
    access = plane;
    exposure = published;
    id = text "a1";
    methods = (text "get", demo_method) ∷ [];
    path = text "/rpc";
    transports = http_batch ∷ [];
    scopes = text "r" ∷ [];
  };
  service = demo_endpoint;
  service_id = text "b";
  ingress_required = false;
}

demo_transport-chosen :
    transport_for_ability demo_ability none
    ≡ ok (service_binding_rpc demo_endpoint (text "/rpc") (text "http://b"))
unfolding transport_for_ability offers service_plane.Broker.has_stream
demo_transport-chosen = refl

demo_path-relative : is_origin_relative_path demo_ability.path ≡ true
unfolding is_origin_relative_path service_plane.Shared.Paths.has_strippable_path_char
    service_plane.Prelude.Lists.any service_plane.Shared.Paths.starts_with_slash
demo_path-relative = refl

demo_batch-offered : offers demo_ability http_batch ≡ true
unfolding offers
demo_batch-offered = refl

abbrev demo_broker : CreateBrokerOptions
demo_broker = record {
  abilities = ok (demo_ability ∷ []);
  control_plane_service_id = text "cp";
  idempotency_key = none;
  received_at = none;
  request_id = none;
  timeout_ms = some (whole 1000);
}

abbrev demo_caller : BrokerCaller
demo_caller = record { id = text "a"; kind = service_caller; org_id = none; principal_kind = none }

abbrev demo_brokered : BrokeredAbility
demo_brokered = record {
  ability = demo_ability;
  root = root_capability demo_broker 5000 (some demo_caller) false;
  caller_service_id = text "a";
}

abbrev demo_session : AbilitySessionOptions
demo_session = record {
  ability_id = text "a1";
  caller_service_id = text "a";
  idempotency_key = none;
  subject = none;
  reject_stream_methods = [];
  request_id = none;
  request_token =
      broker_request_token demo_crypto demo_ability (text "cp") (some demo_caller) demo_issuer;
  scopes = text "r" ∷ [];
  target_service_id = text "b";
  timeout_ms = some 700;
  transport = service_binding_rpc demo_endpoint (text "/rpc") (text "http://b");
}

demo_ability-found :
    root_ability (root_capability demo_broker 5000 (some demo_caller) false) (text "b") (text "a1")
    ≡ ok demo_brokered
unfolding root_ability root_capability ◌==◌ service_plane.Prelude.Lists.find?
    service_plane.Broker.Connect.is_ability service_plane.Broker.authorize_ability
demo_ability-found = refl

demo_session-prepared :
    session_options demo_crypto demo_issuer 5300 demo_brokered (text " r " ∷ text "r" ∷ [])
    ≡ ok demo_session
unfolding session_options root_capability trim unique includes ◌==◌ transport_for_ability offers
    service_plane.Broker.Connect.requested_scopes service_plane.Prelude.Lists.filter
    service_plane.Broker.Connect.declared_scopes service_plane.Broker.broker_caller_subject
    service_plane.Broker.Connect.is_exhausted service_plane.Shared.Deadline.remaining_timeout_ms
    service_plane.Shared.Deadline.normalize_timeout_ms service_plane.Prelude.Number.is_finite
    service_plane.Prelude.Number.is_safe_integer service_plane.Prelude.Number.exceeds
    service_plane.Prelude.Number.floor_of service_plane.Prelude.Number.is_below
    service_plane.Shared.Idempotency.normalize_idempotency_key
    service_plane.Broker.Connect.stream_methods
demo_session-prepared = refl

session_options-IsSessionOf_example :
    IsSessionOf demo_broker 5000 5300 (some demo_caller) false (text "b") (text "a1") demo_session
session_options-IsSessionOf_example =
    session_options-IsSessionOf demo_crypto demo_issuer demo_broker 5000 5300 (some demo_caller)
      false (text "b") (text "a1") (text " r " ∷ text "r" ∷ []) demo_brokered demo_session
      demo_ability-found demo_session-prepared

demo_token-requested :
    broker_request_token demo_crypto demo_ability (text "cp") none demo_issuer 5000 demo_input
    ≡ ok demo_issued
unfolding broker_request_token issue_capability_token broker_caller_access
demo_token-requested = demo_token-issued

broker_request_token-IsIssued_example :
    (access : AbilityAccess) × ((access ≡ service) ↔ IsService none)
    × IsIssued demo_crypto demo_issuer
        (broker_of demo_ability.ingress_required (text "cp"))
        access
        5000
        demo_input
        demo_issued
broker_request_token-IsIssued_example =
    broker_request_token-IsIssued demo_crypto demo_ability (text "cp") none demo_issuer 5000
      demo_input demo_issued demo_token-requested

abbrev demo_match : RestMatch
demo_match = record {
  ability = demo_ability;
  method = text "get";
  params = (text "id", text "7") ∷ [];
  scopes = text "r" ∷ [];
  static_segments = 1;
}

find_rest_method_iff_example :
    (find_rest_method (demo_ability ∷ []) http_get (text "/u/7/") ≡ ok (some demo_match))
    ↔ IsBest demo_match (rest_candidates (demo_ability ∷ []) http_get (text "/u/7/"))
find_rest_method_iff_example =
    find_rest_method_iff (demo_ability ∷ []) http_get (text "/u/7/") demo_match

rest_matches-IsRoute_example :
    All
      (IsRoute (text "/u/7/") (demo_ability ∷ []))
      (rest_matches (text "/u/7/") (demo_ability ∷ []))
rest_matches-IsRoute_example = rest_matches-IsRoute (text "/u/7/") (demo_ability ∷ [])

demo_path-matched :
    match_rest_path (text "/u/{id}") (text "/u/%C3%A9") ≡ some ((text "id", 0xe9 ∷ []) ∷ [], 1)
unfolding match_rest_path service_plane.Rest.match_segments normalized_segments ◌==◌
    service_plane.Shared.Paths.without_end_slashes split service_plane.Rest.match_segment
    decode_path_segment service_plane.Shared.Paths.template_variable
    service_plane.Shared.Paths.is_letter service_plane.Prelude.Lists.all
    service_plane.Shared.Paths.is_word service_plane.Issuer.put
demo_path-matched = refl

demo_path-IsTemplate : IsTemplate (normalized_segments (text "/u/{id}"))
unfolding normalized_segments ◌==◌ service_plane.Shared.Paths.without_end_slashes split
    template_variable service_plane.Shared.Paths.is_letter service_plane.Prelude.Lists.all
    service_plane.Shared.Paths.is_word
demo_path-IsTemplate = (tt, (tt, tt))

match_rest_path-fill_example :
    map decode_path_segment (normalized_segments (text "/u/%C3%A9"))
    ≡ map (fill_segment ((text "id", 0xe9 ∷ []) ∷ [])) (normalized_segments (text "/u/{id}"))
match_rest_path-fill_example =
    match_rest_path-fill (text "/u/{id}") (text "/u/%C3%A9") ((text "id", 0xe9 ∷ []) ∷ []) 1
      demo_path-IsTemplate demo_path-matched

demo_path-missed : rest_route_miss (demo_ability ∷ []) (text "/u/7") ≡ not_allowed (text "get" ∷ [])
unfolding rest_route_miss service_plane.Rest.Miss.allowed_methods service_plane.Rest.Miss.sort_texts
    unique service_plane.Rest.Miss.match_methods rest_matches match_rest_path
    service_plane.Rest.match_segments normalized_segments ◌==◌
    service_plane.Shared.Paths.without_end_slashes split service_plane.Rest.match_segment
    decode_path_segment template_variable service_plane.Shared.Paths.is_letter
    service_plane.Prelude.Lists.all service_plane.Shared.Paths.is_word
    service_plane.Rest.match_method
demo_path-missed = refl

rest_route_miss-allowed_example :
    In (text "get") (text "get" ∷ [])
    ↔ Reaches (text "get") (rest_matches (text "/u/7") (demo_ability ∷ []))
rest_route_miss-allowed_example =
    rest_route_miss-allowed (demo_ability ∷ []) (text "/u/7") (text "get" ∷ []) (text "get")
      demo_path-missed

read_bounded_body_iff_example :
    (read_bounded_body 3 none (some ((1 ∷ 2 ∷ []) ∷ (3 ∷ []) ∷ [])) ≡ ok (1 ∷ 2 ∷ 3 ∷ [])) ↔ (
      IsDeclaredWithin 3 none
      × (length (joined_chunks ((1 ∷ 2 ∷ []) ∷ (3 ∷ []) ∷ [])) ≤ 3)
      × (1 ∷ 2 ∷ 3 ∷ [] ≡ joined_chunks ((1 ∷ 2 ∷ []) ∷ (3 ∷ []) ∷ [])))
read_bounded_body_iff_example =
    read_bounded_body_iff 3 none ((1 ∷ 2 ∷ []) ∷ (3 ∷ []) ∷ []) (1 ∷ 2 ∷ 3 ∷ [])
