-- ===== src/Shared/Proof/Laws.antt =====
-- What a proof that was accepted shows of its sender.
use service_plane.Prelude.{◌+◌, ◌/◌, ◌≡◌, true, false, inl, inr, some, arith}
use service_plane.Prelude.Tests.{Option-cases}
use service_plane.Prelude.Text.{Text, eq_iff}
use service_plane.Prelude.Number.{exceeds, at_most_ℤ, exceeds_by, sub_ℕ}
use service_plane.Prelude.Value.{Value}
use service_plane.Shared.Result.{ok, Result-cases}
use service_plane.Shared.Crypto.{Crypto}
use service_plane.Shared.Proof.{
  max_proof_ttl_seconds, max_proof_skew_seconds, VerifyProofOptions, ProofClaims,
  parse_proof_claims, check_proof_claims, verify_capability_proof,
}

-- The claims bind the proof to one key, one token, one service and one ability, and it is fresh on the
-- verifier's clock up to the allowed skew.
pub record IsBound (crypto : Crypto) (proof : Text) (o : VerifyProofOptions) (claims : ProofClaims)
    : Type 0 where
  pub key : crypto.sha256_of_key claims.crv claims.x claims.y ≡ o.confirmation
  pub signed : crypto.verify_proof proof claims.cnk ≡ true
  pub audience : claims.aud ≡ o.target_service_id
  pub ability : claims.abl ≡ o.ability_id
  pub token : claims.ath ≡ crypto.sha256 o.token
  pub begun : exceeds claims.iat (o.now / 1000 + max_proof_skew_seconds) ≡ false
  pub live : at_most_ℤ claims.exp (sub_ℕ (o.now / 1000) max_proof_skew_seconds) ≡ false
  pub short : exceeds_by claims.exp claims.iat max_proof_ttl_seconds ≡ false

check_proof_claims-IsBound :
    (crypto : Crypto) (proof : Text) (o : VerifyProofOptions) (claims : ProofClaims)
    → check_proof_claims crypto proof o claims ≡ ok tt
    → IsBound crypto proof o claims
unfolding check_proof_claims
check_proof_claims-IsBound crypto proof o claims h = ground (
  arith,
  eq_iff (crypto.sha256_of_key claims.crv claims.x claims.y) o.confirmation,
  eq_iff claims.aud o.target_service_id,
  eq_iff claims.abl o.ability_id,
  eq_iff claims.ath (crypto.sha256 o.token),
)

-- A proof that is accepted decodes to claims that bind it to the key that the token names, to the
-- token, to the service and to the ability, which its own key signed, and which are fresh up to the
-- allowed skew and span no more than the longest lifetime.
pub verify_capability_proof-IsBound :
    (crypto : Crypto) (proof : Text) (o : VerifyProofOptions)
    → verify_capability_proof crypto proof o ≡ ok tt
    → (header payload : Value) × (claims : ProofClaims) × (crypto.decode proof
        ≡ some (header, payload))
      × (parse_proof_claims payload ≡ ok claims)
      × IsBound crypto proof o claims
unfolding verify_capability_proof
verify_capability_proof-IsBound crypto proof o h = elim (Option-cases (crypto.decode proof)) [
  | inl undecoded ↦ absurd (ground arith)
  | inr ((header, payload), decoded) ↦ elim (Result-cases (parse_proof_claims payload)) [
    | inl (claims, parsed) ↦ (
      header,
      payload,
      claims,
      decoded,
      parsed,
      check_proof_claims-IsBound crypto proof o claims (ground arith),
    )
    | inr (e, refused) ↦ absurd (ground arith)
  ]
]
