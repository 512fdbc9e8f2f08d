-- ===== src/Shared/Crypto.antt =====
-- What the code takes from hono and WebCrypto: decoding and signing of a compact JWS, the check of a
-- signature, and SHA-256. Each is pure here; a promise that is rejected is `none` or `false`.
use service_plane.Prelude.{Bool, Option}
use service_plane.Prelude.Text.{Text}
use service_plane.Prelude.Value.{Value}
use service_plane.Shared.Jwk.{Jwk}
use service_plane.Shared.Types.{CapabilityClaims}

pub record Crypto : Type 0 where
  -- `decode(token)`: header and payload
  pub decode : Text → Option (Value × Value)
  -- `verifying(key, 'ES256', …)` of the parts of a token, the key imported by WebCrypto
  pub verifying : Jwk → Text → Bool
  -- `verify(proof, key, …)` of a proof with the key that it carries
  pub verify_proof : Text → Value → Bool
  -- `sha256Base64Url` of the text's UTF-8 bytes
  pub sha256 : Text → Text
  -- the same, of the canonical JSON of an EC key with these `crv`, `x` and `y`
  pub sha256_of_key : Text → Text → Text → Text
  -- `sign(claims, key, 'ES256')`
  pub sign : CapabilityClaims → Jwk → Text
  -- `crypto.randomUUID()`
  pub random_id : Text
