-- ===== src/Examples/Plane.antt =====
-- A plane with one key, one service and one grant, and the token that it mints at five seconds.
use service_plane.Prelude.{false, none, some, [], ◌∷◌}
use service_plane.Prelude.Text.{text, ◌==◌}
use service_plane.Shared.Result.{ok}
use service_plane.Shared.Types.{
  plane, CapabilityClaims, IssuedCapabilityToken, ServiceGrant, IssueCapabilityTokenInput,
}
use service_plane.Shared.Jwk.{Jwk, public_jwk_from_private_jwk}
use service_plane.Shared.Crypto.{Crypto}
use service_plane.Shared.Tokens.Parse.{claims_value}
use service_plane.Shared.Tokens.Verify.{VerifyOptions}
use service_plane.Issuer.Issue.{IssuerOptions, CapabilityIssuer}
use service_plane.Issuer.Issue.Active.{header_value}
use service_plane.Issuer.Issue.Claims.{bearer_claims}

abbrev pub demo_key : Jwk
demo_key = record {
  alg = none;
  crv = some (text "P-256");
  d = some (text "d");
  key_ops = [];
  kid = some (text "k1");
  kty = some (text "EC");
  use_of = none;
  x = some (text "x");
  y = some (text "y");
}

abbrev pub demo_grant : ServiceGrant
demo_grant = record { caller = text "a"; scopes = text "r" ∷ []; target = text "b" }

abbrev pub demo_options : IssuerOptions
demo_options = record {
  capabilities = record { service_id = text "b"; scopes = text "r" ∷ [] } ∷ [];
  grants = demo_grant ∷ [];
  issuer = text "p";
  private_jwks = demo_key ∷ [];
  ttl_seconds = none;
}

abbrev pub demo_issuer : CapabilityIssuer
demo_issuer = record {
  authority = record {
    issuer = text "p";
    public_jwks = public_jwk_from_private_jwk demo_key (text "k1") ∷ [];
    key_id = text "k1";
    key_ids = text "k1" ∷ [];
    signing_jwk = demo_key;
  };
  grants_by_target = (text "b", record { error = none; grants = demo_grant ∷ [] }) ∷ [];
  max_ttl_seconds = 120;
}

abbrev pub demo_input : IssueCapabilityTokenInput
demo_input = record {
  caller_service_id = text "a";
  confirmation = none;
  scopes = text "r" ∷ [];
  subject = none;
  target_service_id = text "b";
  ttl_seconds = none;
}

abbrev pub demo_claims : CapabilityClaims
demo_claims = bearer_claims demo_issuer demo_input plane none (text "r" ∷ []) (text "id") 5 120 none

-- Signing gives one token, which decodes to the claims of the demo and verifies under any key.
abbrev pub demo_crypto : Crypto
demo_crypto = record {
  decode = λ token. some (header_value (text "k1"), claims_value demo_claims);
  verifying = λ key token. token == text "h.p.s";
  verify_proof = λ proof key. false;
  sha256 = λ s. s;
  sha256_of_key = λ crv x y. x;
  sign = λ claims key. text "h.p.s";
  random_id = text "id";
}

abbrev pub demo_issued : IssuedCapabilityToken
demo_issued = record { expires_at = 125000; token = text "h.p.s" }

abbrev pub demo_verifier : VerifyOptions
demo_verifier = record {
  ability_id = none;
  expected_audience = text "b";
  issuer = some (text "p");
  jwks = ok (public_jwk_from_private_jwk demo_key (text "k1") ∷ []);
  now = 6000;
  proof = none;
  required_scopes = text "r" ∷ [];
}
