-- ===== src/Issuer/Issue/Verifies.antt =====
-- A token that the issuer mints is accepted by the service that it is for.
use service_plane.Prelude.{ℕ, ◌+◌, ◌/◌, ◌≤◌, ◌<◌, ◌≡◌, sym, Option, none, some, List}
use service_plane.Prelude.Lists.{All, length}
use service_plane.Prelude.Text.{Text, eq_refl, In}
use service_plane.Prelude.Number.{exceeds-whole}
use service_plane.Shared.Result.{ok}
use service_plane.Shared.Types.{
  AbilityAccess, CapabilitySubject, IssuedCapabilityToken, IssueCapabilityTokenInput,
}
use service_plane.Shared.Crypto.{Crypto}
use service_plane.Shared.Jwk.{service_plane_jwk_signing_key}
use service_plane.Shared.Tokens.{max_token_length}
use service_plane.Shared.Tokens.Verify.{VerifyOptions, issuer_check, verify_capability_token}
use service_plane.Shared.Tokens.Verify.Sound.{
  FromIssuer, issuer_check_iff, IsNamed, IsAcceptable, check_claims_iff,
}
use service_plane.Issuer.{normalize_scopes}
use service_plane.Issuer.Issue.{
  IssuerOptions, CapabilityIssuer, create_capability_issuer, token_subject, token_ttl,
  token_confirmation, claims_body, issue,
}
use service_plane.Issuer.Issue.Sound.{Steps, issue-Steps, sign_capability_token-eq-ok}
use service_plane.Issuer.Issue.Active.{
  IsJws, create_capability_issuer-HasActiveKey, authenticate-signed, at_most-whole,
}
use service_plane.Issuer.Issue.Claims.{
  token_subject-IsBounded, expected_identity, IsReadable, bearer_claims, bearer_claims-IsWellFormed,
  bearer_claims-IsTimed, identity_of-bearer_claims, non_empty-bounded,
}

-- A verifier at the target service that trusts the issuer, at a time in the token's life, which asks
-- for scopes that the token has.
pub record IsVerifier (issuer : CapabilityIssuer) (input : IssueCapabilityTokenInput)
    (scopes : List Text) (now ttl : ℕ) (o : VerifyOptions) : Type 0 where
  pub keys : o.jwks ≡ ok issuer.authority.public_jwks
  pub pinned : o.issuer ≡ some issuer.authority.issuer
  pub audience : o.expected_audience ≡ input.target_service_id
  pub named : All IsNamed o.required_scopes
  pub required : All (λ scope. In scope scopes) o.required_scopes
  pub later : now / 1000 ≤ o.now / 1000
  pub before : o.now / 1000 < now / 1000 + ttl

module _ (crypto : Crypto) (issuer : CapabilityIssuer) (broker : Option Text)
    (access : AbilityAccess) (now : ℕ) (input : IssueCapabilityTokenInput) (scopes : List Text)
    (ttl : ℕ) (o : VerifyOptions) (token : Text)
    (r : IsReadable issuer input broker scopes crypto.random_id)
    (v : IsVerifier issuer input scopes now ttl o) where
  pinned-issuer : FromIssuer o.issuer issuer.authority.issuer
  unfolding issuer_check
  pinned-issuer = (issuer_check_iff o.issuer issuer.authority.issuer).0 (
      rw (
        v.pinned,
        non_empty-bounded (some issuer.authority.issuer) r.iss,
        eq_refl issuer.authority.issuer,
      ))

  bearer_claims-IsAcceptable :
      (subject : Option CapabilitySubject)
      → IsAcceptable crypto token o (
          bearer_claims issuer input access broker scopes crypto.random_id (now / 1000) ttl subject)
  unfolding claims_body
  bearer_claims-IsAcceptable none = record {
    issuer = pinned-issuer;
    audience = sym v.audience;
    active = exceeds-whole (now / 1000) (o.now / 1000) v.later;
    issued = exceeds-whole (now / 1000) (o.now / 1000) v.later;
    live = at_most-whole (now / 1000 + ttl) (o.now / 1000) v.before;
    scopes = v.required;
    proved = tt;
  }
  bearer_claims-IsAcceptable (some s) = record {
    issuer = pinned-issuer;
    audience = sym v.audience;
    active = exceeds-whole (now / 1000) (o.now / 1000) v.later;
    issued = exceeds-whole (now / 1000) (o.now / 1000) v.later;
    live = at_most-whole (now / 1000 + ttl) (o.now / 1000) v.before;
    scopes = v.required;
    proved = tt;
  }

module _ (crypto : Crypto) (issuer : CapabilityIssuer) (broker : Option Text)
    (access : AbilityAccess) (now : ℕ) (input : IssueCapabilityTokenInput)
    (issued : IssuedCapabilityToken) (scopes : List Text) (subject : Option CapabilitySubject)
    (ttl : ℕ) where
  minted :
      normalize_scopes input.scopes 400 ≡ ok scopes
      → token_subject input.subject ≡ ok subject
      → token_ttl input.ttl_seconds issuer.max_ttl_seconds ≡ ok ttl
      → input.confirmation ≡ none
      → Steps crypto issuer broker access now input issued
      → issued.token
        ≡ crypto.sign
            (bearer_claims issuer input access broker scopes crypto.random_id
              (now / 1000)
              ttl
              subject)
            (service_plane_jwk_signing_key issuer.authority.signing_jwk issuer.authority.key_id)
  unfolding token_confirmation
  minted requested named timed bearer steps =
      let same_scopes : scopes ≡ steps.scopes = cc (requested, steps.requested) in
      let same_subject : subject ≡ steps.subject = cc (named, steps.named) in
      let same_ttl : ttl ≡ steps.ttl = cc (timed, steps.timed) in
      let unbound : none ≡ steps.confirmation = cc (rw bearer at steps.bound) in
      rw (same_scopes, same_subject, same_ttl, unbound)
        (sign_capability_token-eq-ok crypto
          (claims_body issuer.authority.issuer input access broker steps.scopes steps.subject
            steps.confirmation)
          issuer.authority.key_id now issuer.authority.signing_jwk steps.ttl issued steps.signed).1

module _ (crypto : Crypto) (options : IssuerOptions) (issuer : CapabilityIssuer)
    (broker : Option Text) (access : AbilityAccess) (now : ℕ) (input : IssueCapabilityTokenInput)
    (issued : IssuedCapabilityToken) (scopes : List Text) (subject : Option CapabilitySubject)
    (ttl : ℕ) (o : VerifyOptions) where
  -- Where signing and decoding are those of a JWS, a token that a created issuer mints for a
  -- request that is bound to no key, with bounded parts and within the size limit, gives a verifier
  -- the identity of the caller with the class, the scopes and the subject asked for: one at the
  -- target service that trusts the issuer and has its published keys, at a time in the token's
  -- life, which requires scopes that the token has, none of them empty.
  pub verify-issue :
      IsJws crypto
        (bearer_claims issuer input access broker scopes crypto.random_id (now / 1000) ttl subject)
        issuer.authority.signing_jwk
        issuer.authority.key_id
      → create_capability_issuer options ≡ ok issuer
      → issue crypto issuer broker access now input ≡ ok issued
      → normalize_scopes input.scopes 400 ≡ ok scopes
      → token_subject input.subject ≡ ok subject
      → token_ttl input.ttl_seconds issuer.max_ttl_seconds ≡ ok ttl
      → input.confirmation ≡ none
      → IsReadable issuer input broker scopes crypto.random_id
      → IsVerifier issuer input scopes now ttl o
      → length issued.token ≤ max_token_length
      → verify_capability_token crypto issued.token o
        ≡ ok (
            expected_identity issuer input access broker scopes subject
              (now / 1000 + ttl)
              crypto.random_id)
  unfolding verify_capability_token
  verify-issue jws created h requested named timed bearer r v short =
      let steps = issue-Steps crypto issuer broker access now input issued h in
      let signed =
        minted crypto issuer broker access now input issued scopes subject ttl requested named timed
          bearer steps in
      let subject_bounded = token_subject-IsBounded input.subject subject named in
      let claims =
        bearer_claims issuer input access broker scopes crypto.random_id (now / 1000) ttl subject in
      let authentic =
        authenticate-signed crypto issuer.authority claims issued.token o jws
          (create_capability_issuer-HasActiveKey options issuer created) signed short v.keys
          (bearer_claims-IsWellFormed issuer input access broker scopes crypto.random_id
            (now / 1000) ttl r subject subject_bounded)
          (bearer_claims-IsTimed issuer input access broker scopes crypto.random_id (now / 1000) ttl
            subject) in
      let checked = (check_claims_iff crypto issued.token o claims v.named).1 (
        bearer_claims-IsAcceptable crypto issuer broker access now input scopes ttl o issued.token r
          v subject) in
      let identity =
        identity_of-bearer_claims issuer input access broker scopes crypto.random_id (now / 1000)
          ttl r subject subject_bounded in
      rw (authentic, checked, identity)
