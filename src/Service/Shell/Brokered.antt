-- ===== src/Service/Shell/Brokered.antt =====
-- Which brokers the ingress of a service lets through: resolveIngressBrokerServiceIds and
-- verifyServiceIngress of src/service/service.ts.
use service_plane.Prelude.{
  ◌≡◌, refl, sym, inl, inr, false, Option, none, some, List, [], ◌∷◌, not, map, arith,
}
use service_plane.Prelude.Tests.{Option-cases}
use service_plane.Prelude.Lists.{is_nil, filter}
use service_plane.Prelude.Text.{Text, trim, In, includes_iff, unique, In-unique, filter-In}
use service_plane.Shared.Errors.{or_default}
use service_plane.Shared.Result.{ok, Result-cases}
use service_plane.Shared.Tokens.Verify.{non_empty}
use service_plane.Shared.Tokens.Verify.Sound.{non_empty-some}
use service_plane.Service.Shell.{
  control_plane, ServiceAuth, Ingress, ingress_brokers, verify_service_ingress,
}

-- The brokers of an ingress: those that are configured, or else the control plane that the service trusts.
abbrev pub brokers_of : ServiceAuth → Option (List Text) → List Text
brokers_of auth none = or_default auth.issuer control_plane ∷ []
brokers_of auth (some ids) = ids

-- Where the service has an ingress, the identity names one of its brokers.
abbrev pub IsBrokered : ServiceAuth → Ingress → Option Text → Type 0
IsBrokered auth none broker = Unit
IsBrokered auth (some configured) broker =
    (id : Text) × (broker ≡ some id)
    × (is_nil id ≡ false)
    × In id (map trim (brokers_of auth configured))

brokers_of-ids :
    (auth : ServiceAuth) (configured : Option (List Text))
    → or_default configured (or_default auth.issuer control_plane ∷ []) ≡ brokers_of auth configured
brokers_of-ids auth none = refl
brokers_of-ids auth (some ids) = refl

ingress_brokers-In :
    (auth : ServiceAuth) (configured : Option (List Text)) (allowed : List Text) (id : Text)
    → ingress_brokers auth configured ≡ ok allowed
    → In id allowed
    → In id (map trim (brokers_of auth configured))
unfolding ingress_brokers
ingress_brokers-In auth configured allowed id h among =
    let ids = map trim (or_default configured (or_default auth.issuer control_plane ∷ [])) in
    let kept = filter (λ (s : Text). not (is_nil s)) ids in
    let same : unique kept ≡ allowed = ground arith in
    rw (sym (brokers_of-ids auth configured))
      (filter-In (λ s. not (is_nil s)) ids id ((In-unique id kept).0 (rw same among)))

pub verify_service_ingress-IsBrokered :
    (auth : ServiceAuth) (ingress : Ingress) (broker : Option Text)
    → verify_service_ingress auth ingress broker ≡ ok tt
    → IsBrokered auth ingress broker
unfolding verify_service_ingress
verify_service_ingress-IsBrokered auth none broker h = tt
verify_service_ingress-IsBrokered auth (some configured) broker h =
    elim (Result-cases (ingress_brokers auth configured)) [
      | inr (e, refused) ↦ absurd (ground arith)
      | inl (allowed, e) ↦ elim (Option-cases (non_empty broker)) [
        | inl missing ↦ absurd (ground arith)
        | inr (id, named) ↦
            let (given, present) = non_empty-some broker id named in
            let among = (includes_iff allowed id).0 (ground arith) in
            (id, given, present, ingress_brokers-In auth configured allowed id e among)
      ]
    ]
