-- ===== src/Shared/Tokens/Parse.antt =====
-- What parsed claims satisfy, and that claims which satisfy it are read back from their JSON.
use service_plane.Prelude.{◌≤◌, ◌<◌, ◌≡◌, refl, ◌⊎◌, true, Option, none, some, List, [], ◌∷◌, arith}
use service_plane.Prelude.Lists.{All, length}
use service_plane.Prelude.Text.{Text, text, ◌==◌, eq_refl}
use service_plane.Prelude.Number.{JsNumber, nan, infinite, finite, is_finite}
use service_plane.Prelude.Value.{
  Value, Values, undefined, null, num, str, arr, obj, nil, cons, end, field, elements, prop,
  is_object,
}
use service_plane.Shared.Result.{ok}
use service_plane.Shared.Types.{
  AbilityAccess, plane, service, access_text, access_of_text, CapabilityClaims,
}
use service_plane.Shared.Message.{Message, bad_claims, bad_actor, bad_confirmation}
use service_plane.Shared.Tokens.{
  max_claim_length, max_scope_count, is_some, string_claim, optional_claim, number_claim,
  access_claim, string_claims, scope_claim, object_claim, org_claim, parse_capability_claims,
}

abbrev pub IsBounded : Text → Type 0
IsBounded s = (0 < length s) × (length s ≤ max_claim_length)

abbrev pub IsBoundedOption : Option Text → Type 0
IsBoundedOption none = Unit
IsBoundedOption (some s) = IsBounded s

-- Bounded strings, between one and 128 scopes, and subject metadata only beside an actor.
pub record IsWellFormed (c : CapabilityClaims) : Type 0 where
  pub act : IsBoundedOption c.act
  pub aud : IsBounded c.aud
  pub cnf : IsBoundedOption c.cnf
  pub iss : IsBounded c.iss
  pub jti : IsBounded c.jti
  pub scp : All IsBounded c.scp
  pub some_scope : 0 < length c.scp
  pub few_scopes : length c.scp ≤ max_scope_count
  pub spb : IsBoundedOption c.spb
  pub spk : IsBoundedOption c.spk
  pub spo : IsBoundedOption c.spo
  pub sub : IsBounded c.sub
  pub delegated_kind : (c.spk ≡ none) ⊎ (is_some c.act ≡ true)
  pub delegated_org : (c.spo ≡ none) ⊎ (is_some c.act ≡ true)

-- Times that are finite.
pub record IsTimed (c : CapabilityClaims) : Type 0 where
  pub exp : is_finite c.exp ≡ true
  pub iat : is_finite c.iat ≡ true
  pub nbf : is_finite c.nbf ≡ true

-- The claims as `JSON.stringify` and `JSON.parse` carry them: an absent claim reads as `undefined`, and
-- a number that is not finite as `null`.
abbrev json_number : JsNumber → Value
json_number (finite z f) = num (finite z f)
json_number (infinite negative) = null
json_number nan = null

json_number-num : (x : JsNumber) → is_finite x ≡ true → json_number x ≡ num x
unfolding is_finite
json_number-num (finite z f) h = refl
json_number-num (infinite negative) h = absurd (ground arith)
json_number-num nan h = absurd (ground arith)

abbrev optional_value : Option Text → Value
optional_value none = undefined
optional_value (some s) = str s

abbrev access_value : Option AbilityAccess → Value
access_value none = undefined
access_value (some a) = str (access_text a)

abbrev object_value : Text → Option Text → Value
object_value key none = undefined
object_value key (some s) = obj (field key (str s) end)

abbrev strings : List Text → Values
strings [] = nil
strings (s ∷ ss) = cons (str s) (strings ss)

unfoldable pub claims_value : CapabilityClaims → Value
claims_value c = obj (
    field (text "act") (object_value (text "sub") c.act) (
      field (text "aud") (str c.aud) (
        field (text "cnf") (object_value (text "jkt") c.cnf) (
          field (text "exp") (json_number c.exp) (
            field (text "iat") (json_number c.iat) (
              field (text "iss") (str c.iss) (
                field (text "jti") (str c.jti) (
                  field (text "nbf") (json_number c.nbf) (
                    field (text "scp") (arr (strings c.scp)) (
                      field (text "spa") (access_value c.spa) (
                        field (text "spb") (optional_value c.spb) (
                          field (text "spk") (optional_value c.spk) (
                            field (text "spo") (optional_value c.spo)
                              (field (text "sub") (str c.sub) end))))))))))))))

string_claim-bounded : (s : Text) (m : Message) → IsBounded s → string_claim (str s) m ≡ ok s
unfolding string_claim
string_claim-bounded s m h = ground arith

optional_claim-bounded :
    (o : Option Text) → IsBoundedOption o → optional_claim (optional_value o) ≡ ok o
unfolding optional_claim
optional_claim-bounded none h = refl
optional_claim-bounded (some s) h = rw (string_claim-bounded s bad_claims h)

access_claim-value : (a : Option AbilityAccess) → access_claim (access_value a) ≡ ok a
unfolding access_claim access_of_text
access_claim-value none = refl
access_claim-value (some plane) = refl
access_claim-value (some service) = refl

object_claim-bounded :
    (key : Text) (m : Message) (o : Option Text)
    → IsBoundedOption o
    → object_claim key m (object_value key o) ≡ ok o
unfolding object_claim prop is_object
object_claim-bounded key m none h = refl
object_claim-bounded key m (some s) h =
    rw (eq_refl key, object_claim) (ground (arith, string_claim-bounded s m h))

string_claims-bounded :
    (ss : List Text) → All IsBounded ss → string_claims (elements (strings ss)) ≡ ok ss
unfolding string_claims
string_claims-bounded [] h = refl
string_claims-bounded (s ∷ ss) (h, hs) =
    rw (string_claim-bounded s bad_claims h, string_claims-bounded ss hs)

length-strings : (ss : List Text) → length (elements (strings ss)) ≡ length ss
length-strings [] = refl
length-strings (s ∷ ss) = omega (arith, length-strings ss)

scope_claim-bounded :
    (ss : List Text)
    → All IsBounded ss
    → 0 < length ss
    → length ss ≤ max_scope_count
    → scope_claim (arr (strings ss)) ≡ ok ss
unfolding scope_claim
scope_claim-bounded [] h k l = elim k [ ]
scope_claim-bounded (s ∷ ss) h k l =
    ground (arith, length-strings ss, string_claims-bounded (s ∷ ss) h)

org_claim-bounded :
    (spo spk act : Option Text)
    → IsBoundedOption spo
    → (spk ≡ none) ⊎ (is_some act ≡ true)
    → (spo ≡ none) ⊎ (is_some act ≡ true)
    → org_claim (optional_value spo) spk act ≡ ok spo
unfolding org_claim
org_claim-bounded none none none h k l = refl
org_claim-bounded none (some s) none h k l = ground arith
org_claim-bounded (some s) spk none h k l = ground arith
org_claim-bounded none none (some a) h k l = refl
org_claim-bounded none (some s) (some a) h k l = refl
org_claim-bounded (some s) none (some a) h k l = optional_claim-bounded (some s) h
org_claim-bounded (some s) (some t) (some a) h k l = optional_claim-bounded (some s) h

module _ (c : CapabilityClaims) where
  claims_value_props :
      (is_object (claims_value c) ≡ true)
      × (prop (text "act") (claims_value c) ≡ object_value (text "sub") c.act)
      × (prop (text "aud") (claims_value c) ≡ str c.aud)
      × (prop (text "cnf") (claims_value c) ≡ object_value (text "jkt") c.cnf)
      × (prop (text "exp") (claims_value c) ≡ json_number c.exp)
      × (prop (text "iat") (claims_value c) ≡ json_number c.iat)
      × (prop (text "iss") (claims_value c) ≡ str c.iss)
      × (prop (text "jti") (claims_value c) ≡ str c.jti)
      × (prop (text "nbf") (claims_value c) ≡ json_number c.nbf)
      × (prop (text "scp") (claims_value c) ≡ arr (strings c.scp))
      × (prop (text "spa") (claims_value c) ≡ access_value c.spa)
      × (prop (text "spb") (claims_value c) ≡ optional_value c.spb)
      × (prop (text "spk") (claims_value c) ≡ optional_value c.spk)
      × (prop (text "spo") (claims_value c) ≡ optional_value c.spo)
      × (prop (text "sub") (claims_value c) ≡ str c.sub)
  unfolding claims_value prop is_object ◌==◌
  claims_value_props =
      (refl, refl, refl, refl, refl, refl, refl, refl, refl, refl, refl, refl, refl, refl, refl)

  number_claim-num : (x : JsNumber) → number_claim (num x) ≡ ok x
  unfolding number_claim
  number_claim-num x = refl

  -- Claims that are well formed, with finite times, survive their JSON form: the verifier reads what the
  -- issuer wrote.
  pub parse_capability_claims-claims_value :
      IsWellFormed c → IsTimed c → parse_capability_claims (claims_value c) ≡ ok c
  unfolding parse_capability_claims
  parse_capability_claims-claims_value w t =
      let (o, act, aud, cnf, exp, iat, iss, jti, nbf, scp, spa, spb, spk, spo, sub) =
        claims_value_props in
      simp (
        o,
        act,
        aud,
        cnf,
        exp,
        iat,
        iss,
        jti,
        nbf,
        scp,
        spa,
        spb,
        spk,
        spo,
        sub,
        json_number-num c.exp t.exp,
        json_number-num c.iat t.iat,
        json_number-num c.nbf t.nbf,
        number_claim-num,
        string_claim-bounded c.aud bad_claims w.aud,
        string_claim-bounded c.iss bad_claims w.iss,
        string_claim-bounded c.jti bad_claims w.jti,
        string_claim-bounded c.sub bad_claims w.sub,
        access_claim-value c.spa,
        optional_claim-bounded c.spb w.spb,
        optional_claim-bounded c.spk w.spk,
        scope_claim-bounded c.scp w.scp w.some_scope w.few_scopes,
        object_claim-bounded (text "sub") bad_actor c.act w.act,
        org_claim-bounded c.spo c.spk c.act w.spo w.delegated_kind w.delegated_org,
        object_claim-bounded (text "jkt") bad_confirmation c.cnf w.cnf,
      )
