-- ===== src/Broker/Class.antt =====
-- Which callers the plane counts as services, for brokerCallerAccess of src/control-plane/broker.ts.
use service_plane.Prelude.{◌≡◌, refl, ◌↔◌, ◌⊎◌, false, Option, none, some, arith}
use service_plane.Shared.Types.{AbilityAccess, plane, service}
use service_plane.Broker.{
  BrokerCaller, CallerKind, is_user, service_caller, user, broker_caller_access,
}

-- A caller that was authenticated, as a service.
abbrev pub IsService : Option BrokerCaller → Type 0
IsService caller = (c : BrokerCaller) × (caller ≡ some c) × (c.kind ≡ service_caller)

is_user-false : (kind : CallerKind) → (is_user kind ≡ false) ↔ (kind ≡ service_caller)
unfolding is_user
is_user-false service_caller = (λ h. refl, λ h. refl)
is_user-false user = (λ h. absurd (ground arith), λ h. absurd (ground arith))

pub broker_caller_access-IsService :
    (caller : Option BrokerCaller) → (broker_caller_access caller ≡ service) ↔ IsService caller
unfolding broker_caller_access
broker_caller_access-IsService none =
    (λ h. absurd (ground arith), λ (c, same, kind). absurd (ground arith))
broker_caller_access-IsService (some c) = (
  λ h. (c, refl, (is_user-false c.kind).0 (ground arith)),
  λ (d, same, kind).
      let fits : c.kind ≡ service_caller = ground arith in
      let other = (is_user-false c.kind).1 fits in ground arith,
)

-- Where a caller may use an ability: any may, or it is a service.
abbrev pub MayUse : AbilityAccess → Option BrokerCaller → Type 0
MayUse access caller = (access ≡ plane) ⊎ IsService caller
