-- ===== src/Broker/Tokens.antt =====
-- The tokens that the plane requests for a caller.
use service_plane.Prelude.{ℕ, ◌≡◌, ◌↔◌, sym, inl, inr, Bool, true, false, Option, none, some, arith}
use service_plane.Prelude.Tests.{Bool-cases}
use service_plane.Prelude.Text.{Text, trim}
use service_plane.Shared.Result.{ok, Result-cases}
use service_plane.Shared.Types.{
  AbilityAccess, service, IssuedCapabilityToken, IssueCapabilityTokenInput,
}
use service_plane.Shared.Crypto.{Crypto}
use service_plane.Shared.Catalog.{DiscoveredServiceAbility}
use service_plane.Issuer.{normalize_id}
use service_plane.Issuer.Issue.{
  CapabilityIssuer, issue_capability_token, issue_brokered_capability_token,
}
use service_plane.Issuer.Issue.Sound.{IsIssued, issue-IsIssued}
use service_plane.Broker.Class.{IsService, broker_caller_access-IsService}
use service_plane.Broker.{BrokerCaller, broker_caller_access, broker_request_token}

normalize_id-trim : (id normal : Text) → normalize_id id ≡ ok normal → normal ≡ trim id
unfolding normalize_id
normalize_id-trim id normal h = ground arith

issue_brokered-IsIssued :
    (crypto : Crypto) (issuer : CapabilityIssuer) (broker : Text) (access : AbilityAccess) (now : ℕ)
    (input : IssueCapabilityTokenInput) (issued : IssuedCapabilityToken)
    → issue_brokered_capability_token crypto issuer broker access now input ≡ ok issued
    → IsIssued crypto issuer (some (trim broker)) access now input issued
unfolding issue_brokered_capability_token
issue_brokered-IsIssued crypto issuer broker access now input issued h =
    elim (Result-cases (normalize_id broker)) [
      | inr (e, refused) ↦ absurd (ground arith)
      | inl (id, normal) ↦
          rw (sym (normalize_id-trim broker id normal))
            (issue-IsIssued crypto issuer (some id) access now input issued (ground arith))
    ]

abbrev pub broker_of : Bool → Text → Option Text
broker_of true broker = some (trim broker)
broker_of false broker = none

broker_access-IsIssued :
    (crypto : Crypto) (ability : DiscoveredServiceAbility) (broker : Text)
    (caller : Option BrokerCaller) (issuer : CapabilityIssuer) (now : ℕ)
    (input : IssueCapabilityTokenInput) (issued : IssuedCapabilityToken)
    → broker_request_token crypto ability broker caller issuer now input ≡ ok issued
    → IsIssued crypto issuer
        (broker_of ability.ingress_required broker)
        (broker_caller_access caller)
        now
        input
        issued
unfolding broker_request_token
broker_access-IsIssued crypto ability broker caller issuer now input issued h =
    elim (Bool-cases ability.ingress_required) [
      | inl behind ↦ rw behind (
          issue_brokered-IsIssued crypto issuer broker (broker_caller_access caller) now input
            issued (rw behind at h))
      | inr free ↦ rw free (
          issue-IsIssued crypto issuer none (broker_caller_access caller) now input issued
            (unfold issue_capability_token in (rw free at h)))
    ]

-- A token that the plane requests for a caller is of a class that is service exactly where that very
-- caller was authenticated as a service; for a target behind an ingress, and for no other, it names the
-- broker; and it rests on grants of its caller as every issued token does.
pub broker_request_token-IsIssued :
    (crypto : Crypto) (ability : DiscoveredServiceAbility) (broker : Text)
    (caller : Option BrokerCaller) (issuer : CapabilityIssuer) (now : ℕ)
    (input : IssueCapabilityTokenInput) (issued : IssuedCapabilityToken)
    → broker_request_token crypto ability broker caller issuer now input ≡ ok issued
    → (access : AbilityAccess) × ((access ≡ service) ↔ IsService caller)
      × IsIssued crypto issuer (broker_of ability.ingress_required broker) access now input issued
broker_request_token-IsIssued crypto ability broker caller issuer now input issued h = (
  broker_caller_access caller,
  broker_caller_access-IsService caller,
  broker_access-IsIssued crypto ability broker caller issuer now input issued h,
)
