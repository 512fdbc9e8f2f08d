-- ===== src/Issuer/Issue.antt =====
-- createCapabilitySigningAuthority, createCapabilityIssuer and issueCapabilityToken of
-- src/control-plane/capabilities.ts.
pub mod Sound
pub mod Active
pub mod Claims
pub mod Verifies
use service_plane.Prelude.{ℕ, min, Bool, true, false, not, Option, none, some, List, [], ◌∷◌, map}
use service_plane.Prelude.Text.{Text}
use service_plane.Prelude.Number.{JsNumber, whole}
use service_plane.Shared.Message.{grant_denied, subject_of_service_caller, signing_keys_empty}
use service_plane.Shared.Errors.{auth_error, or_default}
use service_plane.Shared.Result.{Result, ok, err, ◌>>=◌, ◌>>◌, require}
use service_plane.Shared.Types.{
  AbilityAccess, plane, service, CapabilitySubject, ClaimsBody, CapabilityClaims,
  IssuedCapabilityToken, ServiceGrant, CapabilityCatalog, IssueCapabilityTokenInput,
}
use service_plane.Shared.Jwk.{Jwk, public_jwk_from_private_jwk}
use service_plane.Shared.Crypto.{Crypto}
use service_plane.Shared.Tokens.{
  default_ttl_seconds, normalize_capability_subject, normalize_ttl_seconds, sign_capability_token,
}
use service_plane.Issuer.{
  GrantsByTarget, normalize_scopes, normalize_id, normalize_confirmation, normalize_signing_jwks,
  capability_scopes_by_service, validate_grants_by_target, grants_for_target, is_granted, kid_text,
}

-- `keys[0]` signs; every key is published.
pub record SigningAuthority : Type 0 where
  pub issuer : Text
  pub public_jwks : List Jwk
  pub key_id : Text
  pub key_ids : List Text
  pub signing_jwk : Jwk

-- The id that a normalised key has.
abbrev pub key_id_of : Jwk → Text
key_id_of jwk = or_default jwk.kid []

abbrev pub published : Jwk → Jwk
published jwk = public_jwk_from_private_jwk jwk (key_id_of jwk)

pub authority_of : Text → List Jwk → Result SigningAuthority
authority_of issuer [] = err (auth_error signing_keys_empty 500)
authority_of issuer (signing ∷ retired) = ok (record {
  issuer = issuer;
  public_jwks = map published (signing ∷ retired);
  key_id = key_id_of signing;
  key_ids = map key_id_of (signing ∷ retired);
  signing_jwk = signing;
})

-- createCapabilitySigningAuthority(options)
unfoldable pub create_capability_signing_authority : Text → List Jwk → Result SigningAuthority
unfolding authority_of
create_capability_signing_authority issuer private_jwks = do
  jwks ← normalize_signing_jwks private_jwks
  authority_of issuer jwks

pub record IssuerOptions : Type 0 where
  pub capabilities : List CapabilityCatalog
  pub grants : List ServiceGrant
  pub issuer : Text
  pub private_jwks : List Jwk
  pub ttl_seconds : Option JsNumber

pub record CapabilityIssuer : Type 0 where
  pub authority : SigningAuthority
  pub grants_by_target : GrantsByTarget
  pub max_ttl_seconds : ℕ

-- createCapabilityIssuer(options)
unfoldable pub create_capability_issuer : IssuerOptions → Result CapabilityIssuer
create_capability_issuer o = do
  authority ← create_capability_signing_authority o.issuer o.private_jwks
  scopes_by_service ← capability_scopes_by_service o.capabilities
  grants_by_target ← validate_grants_by_target o.grants scopes_by_service
  max_ttl ← normalize_ttl_seconds (or_default o.ttl_seconds (whole default_ttl_seconds)) 500
  ok (record {
    authority = authority;
    grants_by_target = grants_by_target;
    max_ttl_seconds = max_ttl;
  })

unfoldable pub token_ttl : Option JsNumber → ℕ → Result ℕ
token_ttl none max_ttl = ok max_ttl
token_ttl (some asked) max_ttl = do ttl ← normalize_ttl_seconds asked 400; ok (min ttl max_ttl)

unfoldable pub token_subject : Option CapabilitySubject → Result (Option CapabilitySubject)
token_subject none = ok none
token_subject (some subject) = do s ← normalize_capability_subject subject; ok (some s)

is_service : AbilityAccess → Bool
is_service plane = false
is_service service = true

-- A delegated subject never rides on a service-class token.
unfoldable pub subject_allowed : Option CapabilitySubject → AbilityAccess → Bool
unfolding is_service
subject_allowed none access = true
subject_allowed (some subject) access = not (is_service access)

unfoldable pub token_confirmation : Option Text → Result (Option Text)
token_confirmation none = ok none
token_confirmation (some jkt) = do trimmed ← normalize_confirmation jkt; ok (some trimmed)

-- The claims that the issuer decides.
unfoldable pub claims_body :
    Text
    → IssueCapabilityTokenInput
    → AbilityAccess
    → Option Text
    → List Text
    → Option CapabilitySubject
    → Option Text
    → ClaimsBody
claims_body issuer input access broker scopes none confirmation = record {
  act = none;
  aud = input.target_service_id;
  cnf = confirmation;
  iss = issuer;
  scp = scopes;
  spa = some access;
  spb = broker;
  spk = none;
  spo = none;
  sub = input.caller_service_id;
}
claims_body issuer input access broker scopes (some subject) confirmation = record {
  act = some input.caller_service_id;
  aud = input.target_service_id;
  cnf = confirmation;
  iss = issuer;
  scp = scopes;
  spa = some access;
  spb = broker;
  spk = subject.kind;
  spo = subject.org_id;
  sub = subject.id;
}

module _ (crypto : Crypto) (issuer : CapabilityIssuer) where
  -- issueCapabilityToken(options), at the time `now`, for the class that the plane vouches for
  unfoldable pub issue :
      Option Text → AbilityAccess → ℕ → IssueCapabilityTokenInput → Result IssuedCapabilityToken
  issue broker access now input = do
    scopes ← normalize_scopes input.scopes 400
    grants ← grants_for_target issuer.grants_by_target input.target_service_id
    require (is_granted grants input.caller_service_id scopes) (auth_error grant_denied 403)
    ttl ← token_ttl input.ttl_seconds issuer.max_ttl_seconds
    subject ← token_subject input.subject
    require (subject_allowed subject access) (auth_error subject_of_service_caller 500)
    confirmation ← token_confirmation input.confirmation
    sign_capability_token crypto.sign crypto.random_id
        (claims_body issuer.authority.issuer input access broker scopes subject confirmation) none
        issuer.authority.key_id now issuer.authority.signing_jwk (some (whole ttl))

  -- issueCapabilityToken(input) of the issuer
  unfoldable pub issue_capability_token :
      AbilityAccess → ℕ → IssueCapabilityTokenInput → Result IssuedCapabilityToken
  issue_capability_token = issue none

  -- issueBrokeredCapabilityToken(input) of the issuer
  unfoldable pub issue_brokered_capability_token :
      Text → AbilityAccess → ℕ → IssueCapabilityTokenInput → Result IssuedCapabilityToken
  issue_brokered_capability_token broker access now input = do
    id ← normalize_id broker
    issue (some id) access now input
