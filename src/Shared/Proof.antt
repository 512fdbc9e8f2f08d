-- ===== src/Shared/Proof.antt =====
-- verifyCapabilityProof of src/shared/proof-of-possession.ts: the check that the sender of a token
-- holds the key that the token is bound to.
pub mod Laws
use service_plane.Prelude.{ℕ, ◌+◌, ◌/◌, Bool, true, false, ◌&&◌, ◌||◌, not, Option, none, some}
use service_plane.Prelude.Tests.{leb, ltb, if◌then◌else◌}
use service_plane.Prelude.Lists.{length, is_nil}
use service_plane.Prelude.Text.{Text, text, ◌==◌}
use service_plane.Prelude.Number.{JsNumber, exceeds, at_most_ℤ, at_most_number, exceeds_by, sub_ℕ}
use service_plane.Prelude.Value.{Value, str, num, prop, is_object, is_string}
use service_plane.Shared.Message.{
  Message, bad_proof, proof_key_mismatch, bad_proof_signature, proof_in_future, proof_expired,
  proof_lifetime, proof_audience, proof_ability, proof_token, bad_proof_claims, bad_proof_key,
}
use service_plane.Shared.Errors.{auth_error}
use service_plane.Shared.Result.{Result, ok, err, ◌>>=◌, ◌>>◌, require}
use service_plane.Shared.Crypto.{Crypto}

abbrev pub max_proof_ttl_seconds : ℕ
max_proof_ttl_seconds = 300

abbrev pub max_proof_length : ℕ
max_proof_length = 8192

abbrev pub max_proof_skew_seconds : ℕ
max_proof_skew_seconds = 60

pub record VerifyProofOptions : Type 0 where
  pub ability_id : Text
  pub confirmation : Text
  pub now : ℕ
  pub target_service_id : Text
  pub token : Text

-- The claims of a proof, with `crv`, `x` and `y` of its key.
pub record ProofClaims : Type 0 where
  pub abl : Text
  pub ath : Text
  pub aud : Text
  pub cnk : Value
  pub crv : Text
  pub x : Text
  pub y : Text
  pub exp : JsNumber
  pub iat : JsNumber
  pub jti : Text

abbrev refuse {ℓ} : {A : Type ℓ} → Message → Result A
refuse message = err (auth_error message 401)

string_field : Value → Message → Result Text
string_field (str s) message = ok s
string_field _ message = refuse message

number_field : Value → Result JsNumber
number_field (num x) = ok x
number_field _ = refuse bad_proof_claims

is_text : Value → Text → Bool
is_text (str s) t = s == t
is_text _ t = false

-- parseProofClaims(payload)
unfoldable pub parse_proof_claims : Value → Result ProofClaims
unfolding string_field number_field is_text
parse_proof_claims payload = do
  require (is_object payload) (auth_error bad_proof_claims 401)
  abl ← string_field (prop (text "abl") payload) bad_proof_claims
  ath ← string_field (prop (text "ath") payload) bad_proof_claims
  aud ← string_field (prop (text "aud") payload) bad_proof_claims
  exp ← number_field (prop (text "exp") payload)
  iat ← number_field (prop (text "iat") payload)
  jti ← string_field (prop (text "jti") payload) bad_proof_claims
  let cnk = prop (text "cnk") payload
  require (is_object cnk) (auth_error bad_proof_claims 401)
  require (not (is_string (prop (text "d") cnk))) (auth_error bad_proof_key 401)
  require (is_text (prop (text "kty") cnk) (text "EC")) (auth_error bad_proof_key 401)
  crv ← string_field (prop (text "crv") cnk) bad_proof_key
  x ← string_field (prop (text "x") cnk) bad_proof_key
  y ← string_field (prop (text "y") cnk) bad_proof_key
  ok (record {
    abl = abl;
    ath = ath;
    aud = aud;
    cnk = cnk;
    crv = crv;
    x = x;
    y = y;
    exp = exp;
    iat = iat;
    jti = jti;
  })

payload_of : Option (Value × Value) → Result Value
payload_of none = refuse bad_proof
payload_of (some (header, payload)) = ok payload

module _ (crypto : Crypto) where
  -- The checks of `verifyCapabilityProof` after the claims are read.
  unfoldable pub check_proof_claims : Text → VerifyProofOptions → ProofClaims → Result (Unit {0})
  check_proof_claims proof o claims = do
    require (crypto.sha256_of_key claims.crv claims.x claims.y == o.confirmation)
        (auth_error proof_key_mismatch 401)
    require (crypto.verify_proof proof claims.cnk) (auth_error bad_proof_signature 401)
    let now = o.now / 1000
    require (not (exceeds claims.iat (now + max_proof_skew_seconds)))
        (auth_error proof_in_future 401)
    require (not (at_most_ℤ claims.exp (sub_ℕ now max_proof_skew_seconds)))
        (auth_error proof_expired 401)
    require
        (not (
          at_most_number claims.exp claims.iat
          || exceeds_by claims.exp claims.iat max_proof_ttl_seconds))
        (auth_error proof_lifetime 401)
    require (claims.aud == o.target_service_id) (auth_error proof_audience 401)
    require (claims.abl == o.ability_id) (auth_error proof_ability 401)
    require (claims.ath == crypto.sha256 o.token) (auth_error proof_token 401)
    ok tt

  -- verifyCapabilityProof(proof, options)
  unfoldable pub verify_capability_proof : Text → VerifyProofOptions → Result (Unit {0})
  unfolding payload_of
  verify_capability_proof proof o = do
    require (not (is_nil proof) && leb (length proof) max_proof_length) (auth_error bad_proof 401)
    payload ← payload_of (crypto.decode proof)
    claims ← parse_proof_claims payload
    check_proof_claims proof o claims
