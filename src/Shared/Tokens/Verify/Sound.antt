-- ===== src/Shared/Tokens/Verify/Sound.antt =====
-- What a token that was accepted shows, and which tokens are accepted.
use service_plane.Prelude.{
  ◌/◌, ◌≡◌, refl, ◌↔◌, inl, inr, not, Bool, true, false, Option, none, some, List, [], ◌∷◌, arith,
}
use service_plane.Prelude.Tests.{Option-cases}
use service_plane.Prelude.Lists.{All, is_nil, find?}
use service_plane.Prelude.Text.{Text, eq_iff, In, includes, find?-includes_iff}
use service_plane.Prelude.Number.{exceeds, at_most}
use service_plane.Shared.Result.{Result, ok}
use service_plane.Shared.Types.{CapabilityClaims}
use service_plane.Shared.Crypto.{Crypto}
use service_plane.Shared.Proof.{verify_capability_proof}
use service_plane.Shared.Tokens.Verify.{
  VerifyOptions, non_empty, issuer_check, scope_check, proof_check, check_claims,
}

-- The issuer that the verifier pins, if it pins one.
abbrev pub FromIssuer : Option Text → Text → Type 0
FromIssuer none iss = Unit
FromIssuer (some []) iss = Unit
FromIssuer (some (c ∷ s)) iss = iss ≡ c ∷ s

-- A token that is bound to a key comes with a proof for that key, which holds for the verifier's ability
-- and this very token.
abbrev pub IsProved : Crypto → Text → VerifyOptions → Text → Option Text → Type 0
IsProved crypto token o aud none = Unit
IsProved crypto token o aud (some jkt) =
    (proof : Text) × (ability_id : Text) × (o.proof ≡ some proof)
    × (is_nil proof ≡ false)
    × (o.ability_id ≡ some ability_id)
    × (is_nil ability_id ≡ false)
    × (verify_capability_proof crypto proof (record {
      ability_id = ability_id;
      confirmation = jkt;
      now = o.now;
      target_service_id = aud;
      token = token;
    })
        ≡ ok tt)

-- What the claims of an accepted token satisfy at the time of the check.
pub record IsAcceptable (crypto : Crypto) (token : Text) (o : VerifyOptions)
    (claims : CapabilityClaims) : Type 0 where
  pub issuer : FromIssuer o.issuer claims.iss
  pub audience : claims.aud ≡ o.expected_audience
  pub active : exceeds claims.nbf (o.now / 1000) ≡ false
  pub issued : exceeds claims.iat (o.now / 1000) ≡ false
  pub live : at_most claims.exp (o.now / 1000) ≡ false
  pub scopes : All (λ scope. In scope claims.scp) o.required_scopes
  pub proved : IsProved crypto token o claims.aud claims.cnf

abbrev pub IsNamed : Text → Type 0
IsNamed [] = ⊥
IsNamed (c ∷ s) = Unit

find?-IsNamed :
    (p : Text → Bool) (xs : List Text) → All IsNamed xs → non_empty (find? p xs) ≡ find? p xs
unfolding find?
find?-IsNamed p [] h = refl
find?-IsNamed p ([] ∷ xs) (h, hs) = absurd h
find?-IsNamed p ((c ∷ s) ∷ xs) (h, hs) = ground (arith, find?-IsNamed p xs hs)

some_lacking :
    (xs required : List Text) (s : Text)
    → find? (λ t. not (includes xs t)) required ≡ some s
    → ¬ All (λ t. In t xs) required
some_lacking xs required s e all = cc (e, (find?-includes_iff xs required).1 all)

scope_check_iff :
    (xs required : List Text)
    → All IsNamed required
    → (scope_check (non_empty (find? (λ s. not (includes xs s)) required)) ≡ ok tt)
      ↔ All (λ s. In s xs) required
unfolding scope_check
scope_check_iff xs required h =
    rw (find?-IsNamed (λ s. not (includes xs s)) required h)
      (elim (Option-cases (find? (λ s. not (includes xs s)) required)) [
        | inl e ↦ (λ _. (find?-includes_iff xs required).0 e, λ _. rw e)
        | inr (s, e) ↦
            (λ k. absurd (cc (rw e at k)), λ all. absurd (some_lacking xs required s e all))
      ])

pub issuer_check_iff :
    (pinned : Option Text) (iss : Text)
    → (issuer_check (non_empty pinned) iss ≡ true) ↔ FromIssuer pinned iss
unfolding issuer_check
issuer_check_iff none iss = ground arith
issuer_check_iff (some []) iss = ground arith
issuer_check_iff (some (c ∷ s)) iss = eq_iff iss (c ∷ s)

pub non_empty-some :
    (given : Option Text) (s : Text)
    → non_empty given ≡ some s
    → (given ≡ some s) × (is_nil s ≡ false)
non_empty-some none s h = absurd (ground arith)
non_empty-some (some []) s h = absurd (ground arith)
non_empty-some (some (c ∷ r)) s h = (h, ground arith)

some-non_empty : (s : Text) → is_nil s ≡ false → non_empty (some s) ≡ some s
some-non_empty [] h = absurd (ground arith)
some-non_empty (c ∷ s) h = refl

module _ (crypto : Crypto) (token : Text) (o : VerifyOptions) (aud : Text) where
  abbrev checked_proof : Option Text → Result (Unit {0})
  checked_proof cnf =
      proof_check crypto cnf (non_empty o.proof) (non_empty o.ability_id) o.now aud token

  proof_check-IsProved :
      (cnf : Option Text) → checked_proof cnf ≡ ok tt → IsProved crypto token o aud cnf
  unfolding proof_check
  proof_check-IsProved none = λ h. tt
  proof_check-IsProved (some jkt) = elim (Option-cases (non_empty o.proof)) [
    | inl missing ↦ rw missing (λ h. absurd (ground arith))
    | inr (proof, given) ↦ rw given (elim (Option-cases (non_empty o.ability_id)) [
      | inl missing ↦ rw missing (λ h. absurd (ground arith))
      | inr (id, named) ↦ rw named (λ h.
          let shown = non_empty-some o.proof proof given in
          let ability = non_empty-some o.ability_id id named in
          (proof, id, shown.0, shown.1, ability.0, ability.1, h))
    ])
  ]

  IsProved-proof_check :
      (cnf : Option Text) → IsProved crypto token o aud cnf → checked_proof cnf ≡ ok tt
  unfolding proof_check
  IsProved-proof_check none h = refl
  IsProved-proof_check (some jkt) (proof, id, given, shown, named, known, h) =
      rw (given, named, some-non_empty proof shown, some-non_empty id known) h

-- Where no required scope is the empty string, the checks of a token's claims pass exactly when the
-- claims are acceptable: the pinned issuer if there is one, this audience, a time at which the token is
-- live, every required scope, and, where the token is bound to a key, a proof that verifies for that key,
-- the verifier's ability, this audience and this token.
pub check_claims_iff :
    (crypto : Crypto) (token : Text) (o : VerifyOptions) (claims : CapabilityClaims)
    → All IsNamed o.required_scopes
    → (check_claims crypto token o claims ≡ ok tt) ↔ IsAcceptable crypto token o claims
unfolding check_claims
check_claims_iff crypto token o claims named =
    let scopes = scope_check_iff claims.scp o.required_scopes named in
    let issuer = issuer_check_iff o.issuer claims.iss in
    (
      λ h. record {
        issuer = issuer.0 (ground arith);
        audience = ground (arith, eq_iff claims.aud o.expected_audience);
        active = ground arith;
        issued = ground arith;
        live = ground arith;
        scopes = scopes.0 (ground arith);
        proved = proof_check-IsProved crypto token o claims.aud claims.cnf (ground arith);
      },
      λ a. ground (
        arith,
        eq_iff claims.aud o.expected_audience,
        scopes.1 a.scopes,
        issuer.1 a.issuer,
        IsProved-proof_check crypto token o claims.aud claims.cnf a.proved,
      ),
    )
