-- ===== src/Shared/Tokens.antt =====
-- src/shared/capability-tokens.ts: subjects, signing, and the parsing of claims. Verification is in
-- the child `Verify`. Signing and decoding a JWS are hono's: parameters here.
pub mod Parse
pub mod Parsed
pub mod Verify
use service_plane.Prelude.{
  ℕ, ◌+◌, ◌*◌, ◌/◌, Bool, true, false, ◌&&◌, ◌||◌, not, Option, none, some, List, [], ◌∷◌, map,
}
use service_plane.Prelude.Tests.{leb, ltb, if◌then◌else◌}
use service_plane.Prelude.Lists.{length, is_nil, all}
use service_plane.Prelude.Text.{Text, text, trim}
use service_plane.Prelude.Number.{JsNumber, whole, is_finite, is_safe_integer, exceeds, floor_of}
use service_plane.Prelude.Value.{Value, undefined, str, num, arr, prop, is_object, elements}
use service_plane.Shared.Message.{
  Message, spo_without_act, spk_without_act, bad_subject, bad_claims, bad_confirmation, bad_actor,
  bad_ttl,
}
use service_plane.Shared.Errors.{auth_error, or_default}
use service_plane.Shared.Result.{Result, ok, err, ◌>>=◌, ◌>>◌, require}
use service_plane.Shared.Types.{
  AbilityAccess, access_of_text, CapabilitySubject, ClaimsBody, CapabilityClaims,
  IssuedCapabilityToken,
}
use service_plane.Shared.Jwk.{Jwk, service_plane_jwk_signing_key}

abbrev pub max_token_length : ℕ
max_token_length = 8192

abbrev pub max_claim_length : ℕ
max_claim_length = 512

abbrev pub max_scope_count : ℕ
max_scope_count = 128

abbrev pub default_ttl_seconds : ℕ
default_ttl_seconds = 120

abbrev pub max_ttl_seconds : ℕ
max_ttl_seconds = 24 * 60 * 60

-- isBoundedClaimString(value)
unfoldable pub is_bounded_claim : Text → Bool
is_bounded_claim s = ltb 0 (length s) && leb (length s) max_claim_length

unfoldable pub is_bounded_option : Option Text → Bool
unfolding is_bounded_claim
is_bounded_option none = true
is_bounded_option (some s) = is_bounded_claim s

unfoldable pub trim_option : Option Text → Option Text
trim_option none = none
trim_option (some s) = some (trim s)

-- normalizeCapabilitySubject(subject)
unfoldable pub normalize_capability_subject : CapabilitySubject → Result CapabilitySubject
unfolding trim_option
normalize_capability_subject subject =
    let id = trim subject.id in
    let kind = trim_option subject.kind in
    let org_id = trim_option subject.org_id in
    if is_bounded_claim id && is_bounded_option kind && is_bounded_option org_id
    then ok (record { id = id; kind = kind; org_id = org_id })
    else err (auth_error bad_subject 400)

-- normalizeTtlSeconds(ttlSeconds), here and in control-plane/capabilities.ts, with the status of its
-- refusal
unfoldable pub normalize_ttl_seconds : JsNumber → ℕ → Result ℕ
normalize_ttl_seconds ttl status =
    if not (is_finite ttl)
      || not (is_safe_integer ttl)
      || not (exceeds ttl 0)
      || exceeds ttl max_ttl_seconds
    then err (auth_error bad_ttl status)
    else ok (floor_of ttl)

abbrev pub is_some {ℓ} : {A : Type ℓ} → Option A → Bool
is_some none = false
is_some (some a) = true

-- What the code takes from elsewhere to sign: hono's `sign` and a random id.
module _ (sign : CapabilityClaims → Jwk → Text) (random_id : Text) where
  -- signCapabilityToken(options), at the time `now` in milliseconds
  unfoldable pub sign_capability_token :
      ClaimsBody → Option Text → Text → ℕ → Jwk → Option JsNumber → Result IssuedCapabilityToken
  sign_capability_token body jti key_id now private_jwk ttl_seconds = do
    require (not (is_some body.spo) || is_some body.act) (auth_error spo_without_act 500)
    require (not (is_some body.spk) || is_some body.act) (auth_error spk_without_act 500)
    ttl ← normalize_ttl_seconds (or_default ttl_seconds (whole default_ttl_seconds)) 401
    let issued_at = now / 1000
    let claims : CapabilityClaims = record {
      body = body;
      exp = whole (issued_at + ttl);
      iat = whole issued_at;
      jti = or_default jti random_id;
      nbf = whole issued_at;
    }
    ok (record {
      expires_at = (issued_at + ttl) * 1000;
      token = sign claims (service_plane_jwk_signing_key private_jwk key_id);
    })

-- `typeof v === 'string'` and the bounds, as `parseCapabilityClaims` asks of its strings
unfoldable pub string_claim : Value → Message → Result Text
unfolding is_bounded_claim
string_claim (str s) message = if is_bounded_claim s then ok s else err (auth_error message 401)
string_claim _ message = err (auth_error message 401)

unfoldable pub optional_claim : Value → Result (Option Text)
unfolding string_claim
optional_claim undefined = ok none
optional_claim v = do s ← string_claim v bad_claims; ok (some s)

unfoldable pub number_claim : Value → Result JsNumber
number_claim (num x) = ok x
number_claim _ = err (auth_error bad_claims 401)

access_or_error : Option AbilityAccess → Result (Option AbilityAccess)
access_or_error none = err (auth_error bad_claims 401)
access_or_error (some a) = ok (some a)

unfoldable pub access_claim : Value → Result (Option AbilityAccess)
unfolding access_or_error
access_claim undefined = ok none
access_claim (str s) = access_or_error (access_of_text s)
access_claim _ = err (auth_error bad_claims 401)

unfoldable pub string_claims : List Value → Result (List Text)
string_claims [] = ok []
string_claims (v ∷ vs) = do s ← string_claim v bad_claims; ss ← string_claims vs; ok (s ∷ ss)

unfoldable pub scope_claim : Value → Result (List Text)
unfolding string_claims
scope_claim (arr vs) = do
  let scopes = elements vs
  require (not (is_nil scopes)) (auth_error bad_claims 401)
  require (leb (length scopes) max_scope_count) (auth_error bad_claims 401)
  string_claims scopes
scope_claim _ = err (auth_error bad_claims 401)

-- parseConfirmationClaim(value) and parseActorClaim(value): an object with one string in it
unfoldable pub object_claim : Text → Message → Value → Result (Option Text)
unfolding string_claim
object_claim key message undefined = ok none
object_claim key message v = do
  require (is_object v) (auth_error message 401)
  s ← string_claim (prop key v) message
  ok (some s)

-- The `spo` of a token: it and `spk` want an actor.
unfoldable pub org_claim : Value → Option Text → Option Text → Result (Option Text)
unfolding optional_claim
org_claim undefined none actor = ok none
org_claim v spk none = err (auth_error bad_claims 401)
org_claim v spk (some actor) = optional_claim v

-- parseCapabilityClaims(value)
unfoldable pub parse_capability_claims : Value → Result CapabilityClaims
parse_capability_claims value = do
  require (is_object value) (auth_error bad_claims 401)
  aud ← string_claim (prop (text "aud") value) bad_claims
  exp ← number_claim (prop (text "exp") value)
  iat ← number_claim (prop (text "iat") value)
  iss ← string_claim (prop (text "iss") value) bad_claims
  jti ← string_claim (prop (text "jti") value) bad_claims
  nbf ← number_claim (prop (text "nbf") value)
  sub ← string_claim (prop (text "sub") value) bad_claims
  spa ← access_claim (prop (text "spa") value)
  spb ← optional_claim (prop (text "spb") value)
  spk ← optional_claim (prop (text "spk") value)
  scp ← scope_claim (prop (text "scp") value)
  act ← object_claim (text "sub") bad_actor (prop (text "act") value)
  spo ← org_claim (prop (text "spo") value) spk act
  cnf ← object_claim (text "jkt") bad_confirmation (prop (text "cnf") value)
  ok (record {
    body = record {
      act = act;
      aud = aud;
      cnf = cnf;
      iss = iss;
      scp = scp;
      spa = spa;
      spb = spb;
      spk = spk;
      spo = spo;
      sub = sub;
    };
    exp = exp;
    iat = iat;
    jti = jti;
    nbf = nbf;
  })
