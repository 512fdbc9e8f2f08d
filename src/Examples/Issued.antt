-- ===== src/Examples/Issued.antt =====
-- Runs of the issuer and of the verifier.
use service_plane.Prelude.{
  ℕ, ◌≡◌, ◌↔◌, ◌≤◌, refl, inl, inr, Bool, true, false, Option, none, some, List, [], ◌∷◌, arith,
}
use service_plane.Prelude.Lists.{length, any, all, filter}
use service_plane.Prelude.Text.{text, ◌==◌, trim, unique, includes, split}
use service_plane.Shared.Result.{ok, map_ok, ◌>>◌}
use service_plane.Shared.Types.{plane, CapabilityClaims}
use service_plane.Shared.Tokens.{
  max_token_length, parse_capability_claims, normalize_ttl_seconds, sign_capability_token,
}
use service_plane.Shared.Tokens.Verify.{
  verify_capability_token, three_parts, check_claims, identity_of,
}
use service_plane.Shared.Tokens.Verify.Identity.{IsIdentityOf}
use service_plane.Shared.Tokens.Verify.Sound.{IsAcceptable, check_claims_iff}
use service_plane.Shared.Tokens.Verify.Authentic.{
  IsSigned, verify_capability_token-IsSigned, check_claims_of_empty_scope,
}
use service_plane.Shared.Tokens.Parse.{
  IsWellFormed, IsTimed, claims_value, parse_capability_claims-claims_value,
}
use service_plane.Shared.Tokens.Parsed.{parse_capability_claims-IsWellFormed}
use service_plane.Issuer.Grants.{of_target, check_grants, grants_for_target_lem}
use service_plane.Issuer.Issue.Sound.{IsIssued, issue-IsIssued}
use service_plane.Issuer.{
  normalize_scope, normalize_scopes, normalize_id, normalize_signing_jwks,
  capability_scopes_by_service, validate_grants_by_target, validate_grant_scopes, add_grant, get,
  put, normalize_grant, define_service_grants, grants_for_target, is_granted,
}
use service_plane.Issuer.Issue.{
  create_capability_signing_authority, create_capability_issuer, token_subject, token_ttl,
  claims_body, issue,
}
use service_plane.Issuer.Issue.Active.{IsJws}
use service_plane.Issuer.Issue.Claims.{
  expected_identity, IsReadable, bearer_claims-IsWellFormed, bearer_claims-IsTimed,
}
use service_plane.Issuer.Issue.Verifies.{IsVerifier, verify-issue}
use service_plane.Examples.Plane.{
  demo_grant, demo_options, demo_issuer, demo_input, demo_claims, demo_crypto, demo_issued,
  demo_verifier,
}

demo_options-created : create_capability_issuer demo_options ≡ ok demo_issuer
unfolding create_capability_issuer create_capability_signing_authority normalize_signing_jwks
    capability_scopes_by_service validate_grants_by_target normalize_grant normalize_scopes
    normalize_scope normalize_id normalize_ttl_seconds trim unique includes ◌==◌ map_ok any get put
    add_grant validate_grant_scopes service_plane.Prelude.Number.is_finite
    service_plane.Prelude.Number.is_safe_integer service_plane.Prelude.Number.exceeds
    service_plane.Prelude.Number.floor_of
demo_options-created = refl

pub demo_token-issued : issue demo_crypto demo_issuer none plane 5000 demo_input ≡ ok demo_issued
unfolding issue normalize_scopes normalize_scope normalize_ttl_seconds trim unique includes ◌==◌
    map_ok any all filter get grants_for_target is_granted sign_capability_token token_ttl
    token_subject service_plane.Issuer.Issue.subject_allowed
    service_plane.Issuer.Issue.token_confirmation service_plane.Issuer.Issue.claims_body
    service_plane.Prelude.Number.is_finite service_plane.Prelude.Number.is_safe_integer
    service_plane.Prelude.Number.exceeds service_plane.Prelude.Number.floor_of
demo_token-issued = refl

demo_scopes-normal : normalize_scopes demo_input.scopes 400 ≡ ok (text "r" ∷ [])
unfolding normalize_scopes normalize_scope trim unique map_ok any
demo_scopes-normal = refl

demo_token-IsJws :
    IsJws demo_crypto demo_claims demo_issuer.authority.signing_jwk demo_issuer.authority.key_id
unfolding ◌==◌ three_parts split
demo_token-IsJws = record { decodes = refl; verifies = refl; parts = refl }

demo_input-IsReadable : IsReadable demo_issuer demo_input none (text "r" ∷ []) (text "id")
demo_input-IsReadable = record {
  caller = omega arith;
  target = omega arith;
  iss = omega arith;
  jti = omega arith;
  via = tt;
  scp = (omega arith, tt);
  some_scope = omega arith;
  few_scopes = omega arith;
}

demo_verifier-IsVerifier : IsVerifier demo_issuer demo_input (text "r" ∷ []) 5000 120 demo_verifier
demo_verifier-IsVerifier = record {
  keys = refl;
  pinned = refl;
  audience = refl;
  named = (tt, tt);
  required = (inl refl, tt);
  later = omega arith;
  before = omega arith;
}

demo_subject-normal : token_subject demo_input.subject ≡ ok none
unfolding token_subject
demo_subject-normal = refl

demo_ttl-normal : token_ttl demo_input.ttl_seconds demo_issuer.max_ttl_seconds ≡ ok 120
unfolding token_ttl
demo_ttl-normal = refl

demo_token-short : length demo_issued.token ≤ max_token_length
demo_token-short = omega arith

verify-issue_example :
    verify_capability_token demo_crypto (text "h.p.s") demo_verifier
    ≡ ok (expected_identity demo_issuer demo_input plane none (text "r" ∷ []) none 125 (text "id"))
verify-issue_example =
    verify-issue demo_crypto demo_options demo_issuer none plane 5000 demo_input demo_issued
      (text "r" ∷ []) none 120 demo_verifier demo_token-IsJws demo_options-created demo_token-issued
      demo_scopes-normal demo_subject-normal demo_ttl-normal refl demo_input-IsReadable
      demo_verifier-IsVerifier demo_token-short

demo_token-verified :
    verify_capability_token demo_crypto (text "h.p.s") demo_verifier
    ≡ ok (expected_identity demo_issuer demo_input plane none (text "r" ∷ []) none 125 (text "id"))
demo_token-verified =
    verify-issue demo_crypto demo_options demo_issuer none plane 5000 demo_input demo_issued
      (text "r" ∷ []) none 120 demo_verifier demo_token-IsJws demo_options-created demo_token-issued
      demo_scopes-normal demo_subject-normal demo_ttl-normal refl demo_input-IsReadable
      demo_verifier-IsVerifier demo_token-short

issue-IsIssued_example : IsIssued demo_crypto demo_issuer none plane 5000 demo_input demo_issued
issue-IsIssued_example =
    issue-IsIssued demo_crypto demo_issuer none plane 5000 demo_input demo_issued demo_token-issued

verify_capability_token-IsSigned_example :
    (claims : CapabilityClaims) × IsSigned demo_crypto (text "h.p.s") demo_verifier claims
    × IsAcceptable demo_crypto (text "h.p.s") demo_verifier claims
    × (expected_identity demo_issuer demo_input plane none (text "r" ∷ []) none 125 (text "id")
        ≡ identity_of claims)
    × IsIdentityOf claims
        (expected_identity demo_issuer demo_input plane none (text "r" ∷ []) none 125 (text "id"))
verify_capability_token-IsSigned_example =
    verify_capability_token-IsSigned demo_crypto (text "h.p.s") demo_verifier
      (expected_identity demo_issuer demo_input plane none (text "r" ∷ []) none 125 (text "id"))
      (tt, tt) demo_token-verified

check_claims_iff_example :
    (check_claims demo_crypto (text "h.p.s") demo_verifier demo_claims ≡ ok tt)
    ↔ IsAcceptable demo_crypto (text "h.p.s") demo_verifier demo_claims
check_claims_iff_example =
    check_claims_iff demo_crypto (text "h.p.s") demo_verifier demo_claims (tt, tt)

demo_grants-normal : define_service_grants (demo_grant ∷ []) ≡ ok (demo_grant ∷ [])
unfolding define_service_grants normalize_grant normalize_scopes normalize_scope normalize_id trim
    unique map_ok any
demo_grants-normal = refl

demo_grants-validated :
    validate_grants_by_target (demo_grant ∷ []) ((text "b", text "r" ∷ []) ∷ [])
    ≡ ok demo_issuer.grants_by_target
unfolding validate_grants_by_target normalize_grant normalize_scopes normalize_scope normalize_id
    trim unique map_ok any get put add_grant validate_grant_scopes includes ◌==◌
demo_grants-validated = refl

grants_for_target_lem_example : grants_for_target demo_issuer.grants_by_target (text "b") ≡ (
    check_grants ((text "b", text "r" ∷ []) ∷ []) (of_target (text "b") (demo_grant ∷ []))
    >> ok (of_target (text "b") (demo_grant ∷ [])))
grants_for_target_lem_example =
    grants_for_target_lem ((text "b", text "r" ∷ []) ∷ []) (demo_grant ∷ []) (demo_grant ∷ [])
      demo_issuer.grants_by_target (text "b") demo_grants-normal demo_grants-validated

demo_claims-IsWellFormed : IsWellFormed demo_claims
demo_claims-IsWellFormed =
    bearer_claims-IsWellFormed demo_issuer demo_input plane none (text "r" ∷ []) (text "id") 5 120
      demo_input-IsReadable none tt

demo_claims-IsTimed : IsTimed demo_claims
demo_claims-IsTimed =
    bearer_claims-IsTimed demo_issuer demo_input plane none (text "r" ∷ []) (text "id") 5 120 none

demo_claims-parsed : parse_capability_claims (claims_value demo_claims) ≡ ok demo_claims
demo_claims-parsed =
    parse_capability_claims-claims_value demo_claims demo_claims-IsWellFormed demo_claims-IsTimed

parse_capability_claims-claims_value_example :
    parse_capability_claims (claims_value demo_claims) ≡ ok demo_claims
parse_capability_claims-claims_value_example =
    parse_capability_claims-claims_value demo_claims demo_claims-IsWellFormed demo_claims-IsTimed

parse_capability_claims-IsWellFormed_example : IsWellFormed demo_claims
parse_capability_claims-IsWellFormed_example =
    parse_capability_claims-IsWellFormed (claims_value demo_claims) demo_claims demo_claims-parsed

demo_claims-no_empty_scope : includes demo_claims.scp [] ≡ false
unfolding includes ◌==◌ claims_body
demo_claims-no_empty_scope = refl

check_claims_of_empty_scope_example :
    check_claims demo_crypto
      (text "h.p.s")
      (record demo_verifier { required_scopes = [] ∷ text "w" ∷ [] })
      demo_claims
    ≡ check_claims demo_crypto
        (text "h.p.s")
        (record demo_verifier { required_scopes = [] })
        demo_claims
check_claims_of_empty_scope_example =
    check_claims_of_empty_scope demo_crypto (text "h.p.s") demo_verifier demo_claims (text "w" ∷ [])
      demo_claims-no_empty_scope
