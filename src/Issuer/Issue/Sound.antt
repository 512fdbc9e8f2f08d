-- ===== src/Issuer/Issue/Sound.antt =====
-- What an issued token says, and on which grants it rests.
use service_plane.Prelude.{
  ℕ, ◌+◌, ◌*◌, ◌/◌, ◌≤◌, ◌≡◌, refl, ◌⊎◌, inl, inr, true, Option, none, some, List, arith,
}
use service_plane.Prelude.Lists.{All}
use service_plane.Prelude.Text.{Text}
use service_plane.Prelude.Number.{JsNumber, whole, floor_of}
use service_plane.Shared.Result.{ok, Result-cases}
use service_plane.Shared.Types.{
  AbilityAccess, plane, ClaimsBody, CapabilityClaims, CapabilitySubject, IssuedCapabilityToken,
  ServiceGrant, IssueCapabilityTokenInput,
}
use service_plane.Shared.Jwk.{Jwk, service_plane_jwk_signing_key}
use service_plane.Shared.Crypto.{Crypto}
use service_plane.Shared.Tokens.{normalize_ttl_seconds, sign_capability_token}
use service_plane.Issuer.{normalize_scopes, grants_for_target, is_granted}
use service_plane.Issuer.Grants.{Granted, is_granted_iff}
use service_plane.Issuer.Issue.{
  CapabilityIssuer, token_ttl, token_subject, subject_allowed, token_confirmation, claims_body,
  issue,
}

-- The parts of a token that `issue` mints: what it was asked for, whom it names, how long it lasts.
pub record IsIssued (crypto : Crypto) (issuer : CapabilityIssuer) (broker : Option Text)
    (access : AbilityAccess) (now : ℕ) (input : IssueCapabilityTokenInput)
    (issued : IssuedCapabilityToken) : Type 0 where
  pub claims : CapabilityClaims
  pub grants : List ServiceGrant
  pub ttl : ℕ
  pub signed :
      issued.token
      ≡ crypto.sign claims
          (service_plane_jwk_signing_key issuer.authority.signing_jwk issuer.authority.key_id)
  pub requested : normalize_scopes input.scopes 400 ≡ ok claims.scp
  pub usable : grants_for_target issuer.grants_by_target input.target_service_id ≡ ok grants
  pub granted : All (λ scope. Granted input.caller_service_id scope grants) claims.scp
  pub target : claims.aud ≡ input.target_service_id
  pub iss : claims.iss ≡ issuer.authority.issuer
  pub access_class : claims.spa ≡ some access
  pub via : claims.spb ≡ broker
  pub begins : claims.nbf ≡ whole (now / 1000)
  pub issued_at : claims.iat ≡ whole (now / 1000)
  pub ends : claims.exp ≡ whole (now / 1000 + ttl)
  pub expires : issued.expires_at ≡ (now / 1000 + ttl) * 1000
  pub short : ttl ≤ issuer.max_ttl_seconds
  pub attributed :
      (claims.act ≡ none) × (claims.sub ≡ input.caller_service_id)
      ⊎ (claims.act ≡ some input.caller_service_id) × (access ≡ plane)

token_ttl-le :
    (asked : Option JsNumber) (max_ttl ttl : ℕ) → token_ttl asked max_ttl ≡ ok ttl → ttl ≤ max_ttl
unfolding token_ttl
token_ttl-le none max_ttl ttl h = ground arith
token_ttl-le (some x) max_ttl ttl h = ground arith

normalize_ttl_seconds-whole :
    (ttl status ttl' : ℕ) → normalize_ttl_seconds (whole ttl) status ≡ ok ttl' → ttl' ≡ ttl
unfolding normalize_ttl_seconds floor_of
normalize_ttl_seconds-whole ttl status ttl' h = ground arith

-- The claims that are signed, and the token.
abbrev pub timed_claims : ClaimsBody → Text → ℕ → ℕ → CapabilityClaims
timed_claims body jti issued_at ttl = record {
  body = body;
  exp = whole (issued_at + ttl);
  iat = whole issued_at;
  jti = jti;
  nbf = whole issued_at;
}

pub sign_capability_token-eq-ok :
    (crypto : Crypto) (body : ClaimsBody) (key_id : Text) (now : ℕ) (jwk : Jwk) (ttl : ℕ)
    (issued : IssuedCapabilityToken)
    → sign_capability_token crypto.sign crypto.random_id body none key_id now jwk (some (whole ttl))
      ≡ ok issued
    → (issued.expires_at ≡ (now / 1000 + ttl) * 1000)
      × (issued.token
          ≡ crypto.sign
              (timed_claims body crypto.random_id (now / 1000) ttl)
              (service_plane_jwk_signing_key jwk key_id))
unfolding sign_capability_token
sign_capability_token-eq-ok crypto body key_id now jwk ttl issued h =
    elim (Result-cases (normalize_ttl_seconds (whole ttl) 401)) [
      | inr (e, refused) ↦ absurd (ground arith)
      | inl (ttl', normal) ↦
          let same = normalize_ttl_seconds-whole ttl 401 ttl' normal in (ground arith, ground arith)
    ]

module _ (issuer : Text) (input : IssueCapabilityTokenInput) (access : AbilityAccess)
    (broker : Option Text) (scopes : List Text) where
  claims_body_lem :
      (subject : Option CapabilitySubject) (confirmation : Option Text)
      → subject_allowed subject access ≡ true
      → let body = claims_body issuer input access broker scopes subject confirmation in
        (body.scp ≡ scopes)
        × (body.aud ≡ input.target_service_id)
        × (body.iss ≡ issuer)
        × (body.spa ≡ some access)
        × (body.spb ≡ broker)
        × ((body.act ≡ none) × (body.sub ≡ input.caller_service_id)
            ⊎ (body.act ≡ some input.caller_service_id) × (access ≡ plane))
  unfolding claims_body subject_allowed
  claims_body_lem none confirmation h = (refl, refl, refl, refl, refl, inl (refl, refl))
  claims_body_lem (some subject) confirmation h =
      (refl, refl, refl, refl, refl, inr (refl, ground arith))

-- The values that the steps of `issue` pass on.
pub record Steps (crypto : Crypto) (issuer : CapabilityIssuer) (broker : Option Text)
    (access : AbilityAccess) (now : ℕ) (input : IssueCapabilityTokenInput)
    (issued : IssuedCapabilityToken) : Type 0 where
  pub scopes : List Text
  pub grants : List ServiceGrant
  pub ttl : ℕ
  pub subject : Option CapabilitySubject
  pub confirmation : Option Text
  pub requested : normalize_scopes input.scopes 400 ≡ ok scopes
  pub usable : grants_for_target issuer.grants_by_target input.target_service_id ≡ ok grants
  pub granted : is_granted grants input.caller_service_id scopes ≡ true
  pub timed : token_ttl input.ttl_seconds issuer.max_ttl_seconds ≡ ok ttl
  pub named : token_subject input.subject ≡ ok subject
  pub bound : token_confirmation input.confirmation ≡ ok confirmation
  pub allowed : subject_allowed subject access ≡ true
  pub signed :
      sign_capability_token crypto.sign crypto.random_id
        (claims_body issuer.authority.issuer input access broker scopes subject confirmation)
        none
        issuer.authority.key_id
        now
        issuer.authority.signing_jwk
        (some (whole ttl))
      ≡ ok issued

module _ (crypto : Crypto) (issuer : CapabilityIssuer) (broker : Option Text)
    (access : AbilityAccess) (now : ℕ) (input : IssueCapabilityTokenInput)
    (issued : IssuedCapabilityToken)
    (h : issue crypto issuer broker access now input ≡ ok issued) where
  pub issue-Steps : Steps crypto issuer broker access now input issued
  unfolding issue
  issue-Steps = elim (Result-cases (normalize_scopes input.scopes 400)) [
    | inr (e, refused) ↦ absurd (ground arith)
    | inl (scopes, requested) ↦
        elim (Result-cases (grants_for_target issuer.grants_by_target input.target_service_id)) [
          | inr (e, refused) ↦ absurd (ground arith)
          | inl (grants, usable) ↦
              elim (Result-cases (token_ttl input.ttl_seconds issuer.max_ttl_seconds)) [
                | inr (e, refused) ↦ absurd (ground arith)
                | inl (ttl, timed) ↦ elim (Result-cases (token_subject input.subject)) [
                  | inr (e, refused) ↦ absurd (ground arith)
                  | inl (subject, named) ↦
                      elim (Result-cases (token_confirmation input.confirmation)) [
                        | inr (e, refused) ↦ absurd (ground arith)
                        | inl (confirmation, bound) ↦ record {
                          scopes = scopes;
                          grants = grants;
                          ttl = ttl;
                          subject = subject;
                          confirmation = confirmation;
                          requested = requested;
                          usable = usable;
                          granted = ground arith;
                          timed = timed;
                          named = named;
                          bound = bound;
                          allowed = ground arith;
                          signed = ground arith;
                        }
                      ]
                ]
              ]
        ]
  ]

  -- A token is only minted for scopes that usable grants of the caller at this target cover; it is
  -- signed by the active key, lasts no longer than the issuer allows, carries the class that the
  -- plane vouches for and the broker that it went through, and names its caller, as its subject or
  -- as the actor of a delegated subject, which only a plane-class caller has.
  pub issue-IsIssued : IsIssued crypto issuer broker access now input issued
  issue-IsIssued =
      let steps = issue-Steps in
      let authority = issuer.authority in
      let body =
        claims_body authority.issuer input access broker steps.scopes steps.subject
          steps.confirmation in
      let made =
        sign_capability_token-eq-ok crypto body authority.key_id now authority.signing_jwk steps.ttl
          issued steps.signed in
      let says =
        claims_body_lem authority.issuer input access broker steps.scopes steps.subject
          steps.confirmation steps.allowed in
      record {
        claims = timed_claims body crypto.random_id (now / 1000) steps.ttl;
        grants = steps.grants;
        ttl = steps.ttl;
        signed = made.1;
        requested = rw says.0 steps.requested;
        usable = steps.usable;
        granted =
            rw says.0
              ((is_granted_iff steps.grants input.caller_service_id steps.scopes).0 steps.granted);
        target = says.1;
        iss = says.2;
        access_class = says.3;
        via = says.4;
        begins = refl;
        issued_at = refl;
        ends = refl;
        expires = made.0;
        short = token_ttl-le input.ttl_seconds issuer.max_ttl_seconds steps.ttl steps.timed;
        attributed = says.5;
      }
