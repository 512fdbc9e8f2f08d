-- ===== src/Shared/Tokens/Verify/Identity.antt =====
-- The identity that a service learns from the claims of a token, for verifyCapabilityToken of
-- src/shared/capability-tokens.ts.
use service_plane.Prelude.{◌≡◌, refl, ◌↔◌, Option, none, some, [], ◌∷◌, arith}
use service_plane.Prelude.Text.{Text}
use service_plane.Shared.Errors.{or_default}
use service_plane.Shared.Types.{
  AbilityAccess, plane, service, CapabilitySubject, CapabilityClaims, CapabilityIdentity,
}
use service_plane.Shared.Tokens.Verify.{non_empty, identity_of}

-- An optional text is kept unless it is empty.
abbrev pub IsGiven : Option Text → Option Text → Type 0
IsGiven none kept = kept ≡ none
IsGiven (some []) kept = kept ≡ none
IsGiven (some (c ∷ s)) kept = kept ≡ some (c ∷ s)

-- Without an actor the token is the service's own; with one, the actor is the service, and it acts for
-- the subject of the claims.
abbrev pub ActsFor : Option Text → CapabilityClaims → CapabilityIdentity → Type 0
ActsFor none claims identity = (identity.service_id ≡ claims.sub) × (identity.subject ≡ none)
ActsFor (some actor) claims identity =
    (identity.service_id ≡ actor)
    × ((s : CapabilitySubject) × (identity.subject ≡ some s)
        × (s.id ≡ claims.sub)
        × IsGiven claims.spk s.kind
        × IsGiven claims.spo s.org_id)

pub record IsIdentityOf (claims : CapabilityClaims) (identity : CapabilityIdentity) : Type 0 where
  pub audience : identity.audience ≡ claims.aud
  pub broker : IsGiven claims.spb identity.broker_service_id
  pub access : (identity.caller_access ≡ service) ↔ (claims.spa ≡ some service)
  pub confirmation : identity.confirmation ≡ claims.cnf
  pub expires_at : identity.expires_at ≡ claims.exp
  pub issuer : identity.issuer ≡ claims.iss
  pub scopes : identity.scopes ≡ claims.scp
  pub token_id : identity.token_id ≡ claims.jti
  pub acting : ActsFor claims.act claims identity

non_empty-IsGiven : (given : Option Text) → IsGiven given (non_empty given)
non_empty-IsGiven none = refl
non_empty-IsGiven (some []) = refl
non_empty-IsGiven (some (c ∷ s)) = refl

or_default-service :
    (access : Option AbilityAccess) → (or_default access plane ≡ service) ↔ (access ≡ some service)
or_default-service none = (λ h. absurd (ground arith), λ h. absurd (ground arith))
or_default-service (some plane) = (λ h. absurd (ground arith), λ h. absurd (ground arith))
or_default-service (some service) = (λ h. refl, λ h. refl)

ActsFor-identity_of :
    (act : Option Text) (claims : CapabilityClaims)
    → claims.act ≡ act
    → ActsFor act claims (identity_of claims)
unfolding identity_of
ActsFor-identity_of none claims e = (ground (arith, e), ground (arith, e))
ActsFor-identity_of (some actor) claims e = (
  ground (arith, e),
  (
    record { id = claims.sub; kind = non_empty claims.spk; org_id = non_empty claims.spo },
    ground (arith, e),
    refl,
    non_empty-IsGiven claims.spk,
    non_empty-IsGiven claims.spo,
  ),
)

pub identity_of-IsIdentityOf :
    (claims : CapabilityClaims) → IsIdentityOf claims (identity_of claims)
unfolding identity_of
identity_of-IsIdentityOf claims = record {
  audience = refl;
  broker = non_empty-IsGiven claims.spb;
  access = or_default-service claims.spa;
  confirmation = refl;
  expires_at = refl;
  issuer = refl;
  scopes = refl;
  token_id = refl;
  acting = ActsFor-identity_of claims.act claims refl;
}
