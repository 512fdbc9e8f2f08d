-- ===== src/Shared/Tokens/Verify.antt =====
-- verifyCapabilityToken of src/shared/capability-tokens.ts. The cache of imported keys is left out: it
-- holds what the import of the same key returns.
pub mod Sound
pub mod Identity
pub mod Authentic
use service_plane.Prelude.{
  ℕ, ◌+◌, ◌/◌, Bool, true, false, ◌&&◌, ◌||◌, not, Option, none, some, List, [], ◌∷◌,
}
use service_plane.Prelude.Tests.{leb, ltb, if◌then◌else◌}
use service_plane.Prelude.Lists.{length, is_nil, find?}
use service_plane.Prelude.Text.{Text, text, ◌==◌, split, includes}
use service_plane.Prelude.Number.{JsNumber, exceeds, at_most}
use service_plane.Prelude.Value.{Value, str, prop, is_object}
use service_plane.Shared.Message.{
  Message, token_too_large, bad_token, bad_header, unknown_kid, bad_signature, bad_issuer,
  bad_audience, not_active_yet, issued_in_future, expired_token, proof_required,
  ability_id_required, bad_encoding, missing_scope,
}
use service_plane.Shared.Errors.{auth_error, or_default}
use service_plane.Shared.Result.{Result, ok, err, ◌>>=◌, ◌>>◌, require}
use service_plane.Shared.Types.{
  AbilityAccess, plane, CapabilitySubject, CapabilityClaims, CapabilityIdentity,
}
use service_plane.Shared.Jwk.{Jwk, es256}
use service_plane.Shared.Crypto.{Crypto}
use service_plane.Shared.Proof.{verify_capability_proof}
use service_plane.Shared.Tokens.{max_token_length, parse_capability_claims}

-- `jwks` is what the key set or its resolver gives, or the error that it throws.
pub record VerifyOptions : Type 0 where
  pub ability_id : Option Text
  pub expected_audience : Text
  pub issuer : Option Text
  pub jwks : Result (List Jwk)
  pub now : ℕ
  pub proof : Option Text
  pub required_scopes : List Text

-- The string that an optional string is where the code asks `if (value)`: not an empty one.
abbrev pub non_empty : Option Text → Option Text
non_empty none = none
non_empty (some []) = none
non_empty (some (c ∷ s)) = some (c ∷ s)

-- `parts.length === 3` and no part empty
unfoldable pub three_parts : List Text → Bool
three_parts (a ∷ b ∷ c ∷ []) = not (is_nil a) && not (is_nil b) && not (is_nil c)
three_parts _ = false

decoded : Option (Value × Value) → Result (Value × Value)
decoded none = err (auth_error bad_encoding 401)
decoded (some parts) = ok parts

-- The key id of a header with the pinned algorithm.
header_kid : Value → Value → Result Text
header_kid (str alg) (str kid) = if alg == es256 then ok kid else err (auth_error bad_header 401)
header_kid _ _ = err (auth_error bad_header 401)

-- `candidate.kid === header.kid`
unfoldable pub has_kid : Text → Jwk → Bool
has_kid kid key = elim key.kid [ none ↦ false | some k ↦ k == kid ]

key_or_error : Option Jwk → Result Jwk
key_or_error none = err (auth_error unknown_kid 401)
key_or_error (some key) = ok key

-- `typeof key.alg === 'string' && key.alg !== 'ES256'`
other_algorithm : Option Text → Bool
other_algorithm none = false
other_algorithm (some alg) = not (alg == es256)

unfoldable pub issuer_check : Option Text → Text → Bool
issuer_check none iss = true
issuer_check (some expected) iss = iss == expected

pub scope_check : Option Text → Result (Unit {0})
scope_check none = ok tt
scope_check (some scope) = err (auth_error (missing_scope scope) 403)

identity_subject : CapabilityClaims → Option Text → Option CapabilitySubject
identity_subject claims none = none
identity_subject claims (some actor) =
    some (record { id = claims.sub; kind = non_empty claims.spk; org_id = non_empty claims.spo })

-- the identity that `verifyCapabilityToken` returns for the claims of a token
unfoldable pub identity_of : CapabilityClaims → CapabilityIdentity
unfolding identity_subject
identity_of claims = record {
  audience = claims.aud;
  broker_service_id = non_empty claims.spb;
  caller_access = or_default claims.spa plane;
  confirmation = claims.cnf;
  expires_at = claims.exp;
  issuer = claims.iss;
  scopes = claims.scp;
  service_id = or_default claims.act claims.sub;
  subject = identity_subject claims claims.act;
  token_id = claims.jti;
}

module _ (crypto : Crypto) where
  -- The check of a token that is bound to a key: of its `cnf`, with the proof and the ability id that
  -- the verifier was given.
  unfoldable pub proof_check :
      Option Text → Option Text → Option Text → ℕ → Text → Text → Result (Unit {0})
  proof_check none proof ability_id now aud token = ok tt
  proof_check (some jkt) none ability_id now aud token = err (auth_error proof_required 401)
  proof_check (some jkt) (some proof) none now aud token = err (auth_error ability_id_required 500)
  proof_check (some jkt) (some proof) (some ability_id) now aud token =
      verify_capability_proof crypto proof (record {
        ability_id = ability_id;
        confirmation = jkt;
        now = now;
        target_service_id = aud;
        token = token;
      })

  -- The claims of a token whose form and signature have been checked.
  unfoldable pub authenticate : Text → VerifyOptions → Result CapabilityClaims
  unfolding three_parts decoded header_kid key_or_error other_algorithm
  authenticate token o = do
    require (leb (length token) max_token_length) (auth_error token_too_large 401)
    require (three_parts (split b'.' token)) (auth_error bad_token 401)
    parts ← decoded (crypto.decode token)
    require (is_object parts.0) (auth_error bad_header 401)
    kid ← header_kid (prop (text "alg") parts.0) (prop (text "kid") parts.0)
    keys ← o.jwks
    key ← key_or_error (find? (has_kid kid) keys)
    require (not (other_algorithm key.alg)) (auth_error bad_signature 401)
    require (crypto.verifying key token) (auth_error bad_signature 401)
    parse_capability_claims parts.1

  -- What is asked of the claims of an authentic token.
  unfoldable pub check_claims : Text → VerifyOptions → CapabilityClaims → Result (Unit {0})
  unfolding issuer_check scope_check proof_check
  check_claims token o claims = do
    require (issuer_check (non_empty o.issuer) claims.iss) (auth_error bad_issuer 401)
    require (claims.aud == o.expected_audience) (auth_error bad_audience 401)
    let now = o.now / 1000
    require (not (exceeds claims.nbf now)) (auth_error not_active_yet 401)
    require (not (exceeds claims.iat now)) (auth_error issued_in_future 401)
    require (not (at_most claims.exp now)) (auth_error expired_token 401)
    scope_check (non_empty (find? (λ scope. not (includes claims.scp scope)) o.required_scopes))
    proof_check claims.cnf (non_empty o.proof) (non_empty o.ability_id) o.now claims.aud token

  -- verifyCapabilityToken(token, options)
  unfoldable pub verify_capability_token : Text → VerifyOptions → Result CapabilityIdentity
  verify_capability_token token o = do
    claims ← authenticate token o
    check_claims token o claims
    ok (identity_of claims)
