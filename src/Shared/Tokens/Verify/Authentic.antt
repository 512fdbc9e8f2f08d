-- ===== src/Shared/Tokens/Verify/Authentic.antt =====
-- From an accepted token back to the signature and the claims that it rests on.
use service_plane.Prelude.{◌≡◌, inl, inr, true, false, some, List, [], ◌∷◌, arith, subst, sym}
use service_plane.Prelude.Tests.{Option-cases}
use service_plane.Prelude.Lists.{All, find?}
use service_plane.Prelude.Text.{Text, text, eq_iff, includes}
use service_plane.Prelude.Value.{Value, undefined, null, bool, num, str, arr, obj, prop}
use service_plane.Shared.Result.{ok, Result-cases}
use service_plane.Shared.Types.{CapabilityClaims, CapabilityIdentity}
use service_plane.Shared.Jwk.{Jwk, es256}
use service_plane.Shared.Crypto.{Crypto}
use service_plane.Shared.Tokens.{parse_capability_claims}
use service_plane.Shared.Tokens.Verify.{
  VerifyOptions, header_kid, has_kid, authenticate, check_claims, identity_of,
  verify_capability_token,
}
use service_plane.Shared.Tokens.Verify.Identity.{IsIdentityOf, identity_of-IsIdentityOf}
use service_plane.Shared.Tokens.Verify.Sound.{IsNamed, IsAcceptable, check_claims_iff}

-- The token decodes to a header with the pinned algorithm, and to the claims; the first key of the key
-- set with the header's id verifies its signature.
pub record IsSigned (crypto : Crypto) (token : Text) (o : VerifyOptions) (claims : CapabilityClaims)
    : Type 0 where
  pub header : Value
  pub payload : Value
  pub kid : Text
  pub keys : List Jwk
  pub key : Jwk
  pub decoded : crypto.decode token ≡ some (header, payload)
  pub algorithm : prop (text "alg") header ≡ str es256
  pub key_id : prop (text "kid") header ≡ str kid
  pub resolved : o.jwks ≡ ok keys
  pub chosen : find? (has_kid kid) keys ≡ some key
  pub verified : crypto.verifying key token ≡ true
  pub parsed : parse_capability_claims payload ≡ ok claims

header_kid-eq-ok :
    (alg kid : Value) (k : Text) → header_kid alg kid ≡ ok k → (alg ≡ str es256) × (kid ≡ str k)
unfolding header_kid
header_kid-eq-ok (str a) (str b) k h = ground (arith, eq_iff a es256)
header_kid-eq-ok (str a) undefined k h = cc
header_kid-eq-ok (str a) null k h = cc
header_kid-eq-ok (str a) (bool b) k h = cc
header_kid-eq-ok (str a) (num b) k h = cc
header_kid-eq-ok (str a) (arr b) k h = cc
header_kid-eq-ok (str a) (obj b) k h = cc
header_kid-eq-ok _ _ k h = cc

authenticate-IsSigned :
    (crypto : Crypto) (token : Text) (o : VerifyOptions) (claims : CapabilityClaims)
    → authenticate crypto token o ≡ ok claims
    → IsSigned crypto token o claims
unfolding authenticate
authenticate-IsSigned crypto token o claims h = elim (Option-cases (crypto.decode token)) [
  | inl undecoded ↦ absurd (ground arith)
  | inr ((header, payload), decoded) ↦
      let alg = prop (text "alg") header in
      let id = prop (text "kid") header in
      elim (Result-cases (header_kid alg id)) [
        | inr (e, refused) ↦ absurd (ground arith)
        | inl (kid, headed) ↦ elim (Result-cases o.jwks) [
          | inr (e, refused) ↦ absurd (ground arith)
          | inl (keys, resolved) ↦ elim (Option-cases (find? (has_kid kid) keys)) [
            | inl missing ↦ absurd (ground arith)
            | inr (key, chosen) ↦
                let known = header_kid-eq-ok alg id kid headed in
                record {
                  header = header;
                  payload = payload;
                  kid = kid;
                  keys = keys;
                  key = key;
                  decoded = decoded;
                  algorithm = known.0;
                  key_id = known.1;
                  resolved = resolved;
                  chosen = chosen;
                  verified = ground arith;
                  parsed = ground arith;
                }
          ]
        ]
      ]
]

-- Where no required scope is the empty string: an accepted token was signed by a published key, its
-- claims are acceptable to this verifier now, and the identity that is returned is the one that the
-- claims name: the actor, if there is one, or else their subject, with their audience, broker, class,
-- confirmation, expiry, issuer, scopes and id, and acting for their subject where there is an actor.
pub verify_capability_token-IsSigned :
    (crypto : Crypto) (token : Text) (o : VerifyOptions) (identity : CapabilityIdentity)
    → All IsNamed o.required_scopes
    → verify_capability_token crypto token o ≡ ok identity
    → (claims : CapabilityClaims) × IsSigned crypto token o claims
      × IsAcceptable crypto token o claims
      × (identity ≡ identity_of claims)
      × IsIdentityOf claims identity
unfolding verify_capability_token
verify_capability_token-IsSigned crypto token o identity named h =
    elim (Result-cases (authenticate crypto token o)) [
      | inr (e, refused) ↦ absurd (ground arith)
      | inl (claims, authentic) ↦ (
        claims,
        authenticate-IsSigned crypto token o claims authentic,
        (check_claims_iff crypto token o claims named).0 (ground arith),
        ground arith,
        (let same : identity ≡ identity_of claims = ground arith in
            subst (IsIdentityOf claims) (sym same) (identity_of-IsIdentityOf claims)),
      )
    ]

-- Where the empty string stands first among the required scopes and the token lacks it, no later
-- required scope is looked at: the claims are treated as if nothing were required.
pub check_claims_of_empty_scope :
    (crypto : Crypto) (token : Text) (o : VerifyOptions) (claims : CapabilityClaims)
    (rest : List Text)
    → includes claims.scp [] ≡ false
    → check_claims crypto token (record o { required_scopes = [] ∷ rest }) claims
      ≡ check_claims crypto token (record o { required_scopes = [] }) claims
unfolding check_claims find?
check_claims_of_empty_scope crypto token o claims rest h = rw h
