-- ===== src/Shared/Tokens/Parsed.antt =====
-- Whatever the payload of a token, the claims that are read from it are well formed.
use service_plane.Prelude.{
  ◌≤◌, ◌<◌, ◌≡◌, refl, ◌⊎◌, true, Option, none, some, List, [], ◌∷◌, arith, inr,
}
use service_plane.Prelude.Lists.{All, length}
use service_plane.Prelude.Text.{Text, text}
use service_plane.Prelude.Value.{Value, undefined, str, arr, elements, prop}
use service_plane.Shared.Result.{ok}
use service_plane.Shared.Types.{CapabilityClaims}
use service_plane.Shared.Message.{Message, bad_claims, bad_actor, bad_confirmation}
use service_plane.Shared.Tokens.{
  max_scope_count, is_some, string_claim, optional_claim, string_claims, scope_claim, object_claim,
  org_claim, parse_capability_claims,
}
use service_plane.Shared.Tokens.Parse.{IsBounded, IsBoundedOption, IsWellFormed}

string_claim-IsBounded :
    (v : Value) (m : Message) (s : Text) → string_claim v m ≡ ok s → IsBounded s
unfolding string_claim
string_claim-IsBounded (str t) m s h = ground arith
string_claim-IsBounded _ m s h = cc

optional_claim-IsBounded :
    (v : Value) (o : Option Text) → optional_claim v ≡ ok o → IsBoundedOption o
optional_claim-IsBounded v none h = tt
optional_claim-IsBounded undefined (some s) h = unfold optional_claim in cc
optional_claim-IsBounded v (some s) h =
    string_claim-IsBounded v bad_claims s (unfold optional_claim in ground arith)

object_claim-IsBounded :
    (key : Text) (m : Message) (v : Value) (o : Option Text)
    → object_claim key m v ≡ ok o
    → IsBoundedOption o
object_claim-IsBounded key m v none h = tt
object_claim-IsBounded key m undefined (some s) h = unfold object_claim in cc
object_claim-IsBounded key m v (some s) h =
    string_claim-IsBounded (prop key v) m s (unfold object_claim in ground arith)

string_claims-IsBounded :
    (vs : List Value) (ss : List Text)
    → string_claims vs ≡ ok ss
    → All IsBounded ss × (length ss ≡ length vs)
unfolding string_claims
string_claims-IsBounded [] [] h = (tt, refl)
string_claims-IsBounded [] (s ∷ ss) h = cc
string_claims-IsBounded (v ∷ vs) [] h = absurd (ground arith)
string_claims-IsBounded (v ∷ vs) (s ∷ ss) h =
    let rest = string_claims-IsBounded vs ss (ground arith) in
    ((string_claim-IsBounded v bad_claims s (ground arith), rest.0), omega (arith, rest.1))

scope_claim-IsBounded :
    (v : Value) (ss : List Text)
    → scope_claim v ≡ ok ss
    → All IsBounded ss × (0 < length ss) × (length ss ≤ max_scope_count)
unfolding scope_claim
scope_claim-IsBounded (arr vs) ss h =
    let bounded = string_claims-IsBounded (elements vs) ss (ground arith) in
    (bounded.0, ground (arith, bounded.1), ground (arith, bounded.1))
scope_claim-IsBounded _ ss h = cc

org_claim-IsDelegated :
    (v : Value) (spk act o : Option Text)
    → org_claim v spk act ≡ ok o
    → IsBoundedOption o
      × ((spk ≡ none) ⊎ (is_some act ≡ true))
      × ((o ≡ none) ⊎ (is_some act ≡ true))
org_claim-IsDelegated undefined none none o h = unfold org_claim in ground arith
org_claim-IsDelegated undefined (some k) none o h = absurd (unfold org_claim in ground arith)
org_claim-IsDelegated v spk none o h = absurd (unfold org_claim in ground arith)
org_claim-IsDelegated v spk (some a) o h =
    (optional_claim-IsBounded v o (unfold org_claim in ground arith), inr refl, inr refl)

-- Whatever the payload, claims that are read from it have bounded strings, between one and 128 scopes,
-- and subject metadata only beside an actor.
pub parse_capability_claims-IsWellFormed :
    (v : Value) (c : CapabilityClaims) → parse_capability_claims v ≡ ok c → IsWellFormed c
unfolding parse_capability_claims
parse_capability_claims-IsWellFormed v c h =
    let scopes = scope_claim-IsBounded (prop (text "scp") v) c.scp (ground arith) in
    let org = org_claim-IsDelegated (prop (text "spo") v) c.spk c.act c.spo (ground arith) in
    let strings = λ (k : Text) (m : Message) (s : Text). string_claim-IsBounded (prop k v) m s in
    record {
      act =
          object_claim-IsBounded (text "sub") bad_actor (prop (text "act") v) c.act (ground arith);
      aud = strings (text "aud") bad_claims c.aud (ground arith);
      cnf =
          object_claim-IsBounded (text "jkt") bad_confirmation (prop (text "cnf") v) c.cnf
            (ground arith);
      iss = strings (text "iss") bad_claims c.iss (ground arith);
      jti = strings (text "jti") bad_claims c.jti (ground arith);
      scp = scopes.0;
      some_scope = scopes.1;
      few_scopes = scopes.2;
      spb = optional_claim-IsBounded (prop (text "spb") v) c.spb (ground arith);
      spk = optional_claim-IsBounded (prop (text "spk") v) c.spk (ground arith);
      spo = org.0;
      sub = strings (text "sub") bad_claims c.sub (ground arith);
      delegated_kind = org.1;
      delegated_org = org.2;
    }
