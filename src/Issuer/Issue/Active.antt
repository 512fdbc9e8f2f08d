-- ===== src/Issuer/Issue/Active.antt =====
-- The active key of an issuer, and that what it signs passes the authentication of a verifier that has
-- the published keys.
use service_plane.Prelude.{
  ℕ, ◌≤◌, ◌<◌, ◌≡◌, refl, inl, inr, true, false, some, List, [], ◌∷◌, map, arith,
}
use service_plane.Prelude.Lists.{find?, length}
use service_plane.Prelude.Text.{Text, text, ◌==◌, eq_refl, split}
use service_plane.Prelude.Number.{whole, exceeds, at_most}
use service_plane.Prelude.Value.{Value, str, obj, end, field, prop, is_object}
use service_plane.Shared.Result.{ok, Result-cases}
use service_plane.Shared.Types.{CapabilityClaims}
use service_plane.Shared.Jwk.{
  Jwk, es256, public_jwk_from_private_jwk, service_plane_jwk_signing_key,
}
use service_plane.Shared.Crypto.{Crypto}
use service_plane.Shared.Tokens.{max_token_length}
use service_plane.Shared.Tokens.Parse.{
  IsWellFormed, IsTimed, claims_value, parse_capability_claims-claims_value,
}
use service_plane.Shared.Tokens.Verify.{VerifyOptions, three_parts, has_kid, authenticate}
use service_plane.Issuer.{normalize_signing_jwks}
use service_plane.Issuer.Issue.{
  IssuerOptions, CapabilityIssuer, SigningAuthority, key_id_of, published, authority_of,
  create_capability_signing_authority, create_capability_issuer,
}

-- The header of a JWS, as hono's `sign` writes it.
abbrev pub header_value : Text → Value
header_value kid = obj (
    field (text "alg") (str es256)
      (field (text "kid") (str kid) (field (text "typ") (str (text "JWT")) end)))

-- What JWS promises of a token that is signed with these claims and this key: it has three parts, it
-- decodes to its header and these claims, and the public key verifies it.
pub record IsJws (crypto : Crypto) (c : CapabilityClaims) (private : Jwk) (kid : Text)
    : Type 0 where
  pub decodes :
      crypto.decode (crypto.sign c (service_plane_jwk_signing_key private kid))
      ≡ some (header_value kid, claims_value c)
  pub verifies :
      crypto.verifying
        (public_jwk_from_private_jwk private kid)
        (crypto.sign c (service_plane_jwk_signing_key private kid))
      ≡ true
  pub parts :
      three_parts (split b'.' (crypto.sign c (service_plane_jwk_signing_key private kid))) ≡ true

-- An authority signs with the first key that it publishes.
pub record HasActiveKey (a : SigningAuthority) : Type 0 where
  pub retired : List Jwk
  pub keys : a.public_jwks ≡ published a.signing_jwk ∷ retired
  pub id : a.key_id ≡ key_id_of a.signing_jwk

authority_of-HasActiveKey :
    (issuer : Text) (normalized : List Jwk) (a : SigningAuthority)
    → authority_of issuer normalized ≡ ok a
    → HasActiveKey a
unfolding authority_of
authority_of-HasActiveKey issuer [] a h = absurd (ground arith)
authority_of-HasActiveKey issuer (signing ∷ retired) a h = record {
  retired = map published retired;
  keys = ground arith;
  id = ground arith;
}

create_capability_signing_authority-HasActiveKey :
    (issuer : Text) (jwks : List Jwk) (a : SigningAuthority)
    → create_capability_signing_authority issuer jwks ≡ ok a
    → HasActiveKey a
unfolding create_capability_signing_authority
create_capability_signing_authority-HasActiveKey issuer jwks a h =
    elim (Result-cases (normalize_signing_jwks jwks)) [
      | inr (e, refused) ↦ absurd (ground arith)
      | inl (normalized, n) ↦ authority_of-HasActiveKey issuer normalized a (ground arith)
    ]

pub create_capability_issuer-HasActiveKey :
    (o : IssuerOptions) (issuer : CapabilityIssuer)
    → create_capability_issuer o ≡ ok issuer
    → HasActiveKey issuer.authority
unfolding create_capability_issuer
create_capability_issuer-HasActiveKey o issuer h =
    create_capability_signing_authority-HasActiveKey o.issuer o.private_jwks issuer.authority
      (ground arith)

find?-active :
    (a : SigningAuthority)
    → HasActiveKey a
    → find? (has_kid a.key_id) a.public_jwks
      ≡ some (public_jwk_from_private_jwk a.signing_jwk a.key_id)
unfolding find? has_kid public_jwk_from_private_jwk
find?-active a active = rw (active.keys, active.id, eq_refl (key_id_of a.signing_jwk))

header_value_props :
    (kid : Text)
    → (is_object (header_value kid) ≡ true)
      × (prop (text "alg") (header_value kid) ≡ str es256)
      × (prop (text "kid") (header_value kid) ≡ str kid)
unfolding is_object prop ◌==◌
header_value_props kid = (refl, refl, refl)

public_jwk-alg : (key : Jwk) (kid : Text) → (public_jwk_from_private_jwk key kid).alg ≡ some es256
unfolding public_jwk_from_private_jwk
public_jwk-alg key kid = refl

pub authenticate-signed :
    (crypto : Crypto) (a : SigningAuthority) (c : CapabilityClaims) (token : Text)
    (o : VerifyOptions)
    → IsJws crypto c a.signing_jwk a.key_id
    → HasActiveKey a
    → token ≡ crypto.sign c (service_plane_jwk_signing_key a.signing_jwk a.key_id)
    → length token ≤ max_token_length
    → o.jwks ≡ ok a.public_jwks
    → IsWellFormed c
    → IsTimed c
    → authenticate crypto token o ≡ ok c
unfolding authenticate
authenticate-signed crypto a c token o jws active signed short keys w t =
    let key = public_jwk_from_private_jwk a.signing_jwk a.key_id in
    ground (
      arith,
      jws.decodes,
      jws.verifies,
      jws.parts,
      find?-active a active,
      parse_capability_claims-claims_value c w t,
      eq_refl es256,
      header_value_props a.key_id,
      public_jwk-alg a.signing_jwk a.key_id,
    )

pub at_most-whole : (a n : ℕ) → n < a → at_most (whole a) n ≡ false
unfolding at_most exceeds
at_most-whole a n h = ground arith
