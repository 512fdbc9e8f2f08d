-- ===== src/Shared/Jwk.antt =====
-- Keys of src/shared/jwk-auth.ts. The private members other than `d` belong to other key types.
use service_plane.Prelude.{Option, none, some, List, [], ◌∷◌}
use service_plane.Prelude.Lists.{is_nil}
use service_plane.Prelude.Tests.{if◌then◌else◌}
use service_plane.Prelude.Text.{Text, text}

pub record Jwk : Type 0 where
  pub alg : Option Text
  pub crv : Option Text
  pub d : Option Text
  pub key_ops : List Text
  pub kid : Option Text
  pub kty : Option Text
  pub use_of : Option Text
  pub x : Option Text
  pub y : Option Text

abbrev pub es256 : Text
es256 = text "ES256"

-- publicJwkFromPrivateJwk(privateJwk, keyId)
unfoldable pub public_jwk_from_private_jwk : Jwk → Text → Jwk
public_jwk_from_private_jwk private kid = record private {
  d = none;
  alg = some es256;
  kid = some kid;
  key_ops = text "verify" ∷ [];
  use_of = some (text "sig");
}

-- servicePlaneJwkSigningKey(privateJwk, keyId)
unfoldable pub service_plane_jwk_signing_key : Jwk → Text → Jwk
service_plane_jwk_signing_key private kid = record private {
  alg = some es256;
  kid = if is_nil kid then private.kid else some kid;
  key_ops = text "sign" ∷ [];
  use_of = some (text "sig");
}
