-- ===== src/Issuer/Issue/Claims.antt =====
-- The claims of a bearer token are well formed, and name the identity that its service should learn.
use service_plane.Prelude.{
  ℕ, ◌+◌, ◌≤◌, ◌<◌, ◌≡◌, refl, inl, inr, true, Option, none, some, List, [], ◌∷◌, arith,
}
use service_plane.Prelude.Lists.{All, length}
use service_plane.Prelude.Text.{Text}
use service_plane.Prelude.Number.{whole, whole-finite}
use service_plane.Shared.Result.{ok}
use service_plane.Shared.Types.{
  AbilityAccess, CapabilityClaims, CapabilityIdentity, CapabilitySubject, IssueCapabilityTokenInput,
}
use service_plane.Shared.Tokens.{
  max_scope_count, is_bounded_option, is_bounded_claim, normalize_capability_subject,
}
use service_plane.Shared.Tokens.Parse.{IsWellFormed, IsTimed, IsBounded, IsBoundedOption}
use service_plane.Shared.Tokens.Verify.{non_empty, identity_of}
use service_plane.Issuer.Issue.{CapabilityIssuer, token_subject, claims_body}
use service_plane.Issuer.Issue.Sound.{timed_claims}

abbrev pub IsBoundedSubject : Option CapabilitySubject → Type 0
IsBoundedSubject none = Unit
IsBoundedSubject (some s) = IsBounded s.id × IsBoundedOption s.kind × IsBoundedOption s.org_id

is_bounded_claim-IsBounded : (s : Text) → is_bounded_claim s ≡ true → IsBounded s
unfolding is_bounded_claim
is_bounded_claim-IsBounded s h = ground arith

is_bounded_option-IsBounded : (o : Option Text) → is_bounded_option o ≡ true → IsBoundedOption o
is_bounded_option-IsBounded none h = tt
is_bounded_option-IsBounded (some s) h =
    is_bounded_claim-IsBounded s (unfold is_bounded_option in h)

normalize_capability_subject-IsBounded :
    (asked subject : CapabilitySubject)
    → normalize_capability_subject asked ≡ ok subject
    → IsBoundedSubject (some subject)
unfolding normalize_capability_subject
normalize_capability_subject-IsBounded asked subject h = (
  is_bounded_claim-IsBounded subject.id (ground arith),
  is_bounded_option-IsBounded subject.kind (ground arith),
  is_bounded_option-IsBounded subject.org_id (ground arith),
)

pub token_subject-IsBounded :
    (asked subject : Option CapabilitySubject)
    → token_subject asked ≡ ok subject
    → IsBoundedSubject subject
unfolding token_subject
token_subject-IsBounded asked none h = tt
token_subject-IsBounded none (some s) h = cc
token_subject-IsBounded (some a) (some s) h =
    normalize_capability_subject-IsBounded a s (ground arith)

-- The identity that a service should learn from a bearer token.
abbrev pub expected_identity :
    CapabilityIssuer
    → IssueCapabilityTokenInput
    → AbilityAccess
    → Option Text
    → List Text
    → Option CapabilitySubject
    → ℕ
    → Text
    → CapabilityIdentity
expected_identity issuer input access broker scopes subject expires_at id = record {
  audience = input.target_service_id;
  broker_service_id = broker;
  caller_access = access;
  confirmation = none;
  expires_at = whole expires_at;
  issuer = issuer.authority.issuer;
  scopes = scopes;
  service_id = input.caller_service_id;
  subject = subject;
  token_id = id;
}

pub non_empty-bounded : (o : Option Text) → IsBoundedOption o → non_empty o ≡ o
non_empty-bounded none h = refl
non_empty-bounded (some []) h = absurd (omega arith)
non_empty-bounded (some (c ∷ s)) h = refl

-- What the parts of a token have to be, for a verifier to read it: bounded, and at most 128 scopes.
pub record IsReadable (issuer : CapabilityIssuer) (input : IssueCapabilityTokenInput)
    (broker : Option Text) (scopes : List Text) (id : Text) : Type 0 where
  pub caller : IsBounded input.caller_service_id
  pub target : IsBounded input.target_service_id
  pub iss : IsBounded issuer.authority.issuer
  pub jti : IsBounded id
  pub via : IsBoundedOption broker
  pub scp : All IsBounded scopes
  pub some_scope : 0 < length scopes
  pub few_scopes : length scopes ≤ max_scope_count

-- The claims of a token that is bound to no key.
abbrev pub bearer_claims :
    CapabilityIssuer
    → IssueCapabilityTokenInput
    → AbilityAccess
    → Option Text
    → List Text
    → Text
    → ℕ
    → ℕ
    → Option CapabilitySubject
    → CapabilityClaims
bearer_claims issuer input access broker scopes id start ttl subject =
    timed_claims (claims_body issuer.authority.issuer input access broker scopes subject none) id
      start ttl

pub bearer_claims-IsTimed :
    (issuer : CapabilityIssuer) (input : IssueCapabilityTokenInput) (access : AbilityAccess)
    (broker : Option Text) (scopes : List Text) (id : Text) (start ttl : ℕ)
    (subject : Option CapabilitySubject)
    → IsTimed (bearer_claims issuer input access broker scopes id start ttl subject)
unfolding claims_body
bearer_claims-IsTimed issuer input access broker scopes id start ttl none = record {
  exp = whole-finite (start + ttl);
  iat = whole-finite start;
  nbf = whole-finite start;
}
bearer_claims-IsTimed issuer input access broker scopes id start ttl (some s) = record {
  exp = whole-finite (start + ttl);
  iat = whole-finite start;
  nbf = whole-finite start;
}

module _ (issuer : CapabilityIssuer) (input : IssueCapabilityTokenInput) (access : AbilityAccess)
    (broker : Option Text) (scopes : List Text) (id : Text) (start ttl : ℕ)
    (r : IsReadable issuer input broker scopes id) where
  pub bearer_claims-IsWellFormed :
      (subject : Option CapabilitySubject)
      → IsBoundedSubject subject
      → IsWellFormed (bearer_claims issuer input access broker scopes id start ttl subject)
  unfolding claims_body
  bearer_claims-IsWellFormed none s = record {
    act = tt;
    aud = r.target;
    cnf = tt;
    iss = r.iss;
    jti = r.jti;
    scp = r.scp;
    some_scope = r.some_scope;
    few_scopes = r.few_scopes;
    spb = r.via;
    spk = tt;
    spo = tt;
    sub = r.caller;
    delegated_kind = inl refl;
    delegated_org = inl refl;
  }
  bearer_claims-IsWellFormed (some s) (i, k, o) = record {
    act = r.caller;
    aud = r.target;
    cnf = tt;
    iss = r.iss;
    jti = r.jti;
    scp = r.scp;
    some_scope = r.some_scope;
    few_scopes = r.few_scopes;
    spb = r.via;
    spk = k;
    spo = o;
    sub = i;
    delegated_kind = inr refl;
    delegated_org = inr refl;
  }

  pub identity_of-bearer_claims :
      (subject : Option CapabilitySubject)
      → IsBoundedSubject subject
      → identity_of (bearer_claims issuer input access broker scopes id start ttl subject)
        ≡ expected_identity issuer input access broker scopes subject (start + ttl) id
  unfolding claims_body identity_of
  identity_of-bearer_claims none s = rw (non_empty-bounded broker r.via)
  identity_of-bearer_claims (some s) (i, k, o) =
      rw (non_empty-bounded broker r.via, non_empty-bounded s.kind k, non_empty-bounded s.org_id o)
