-- ===== src/Service/Shell/Admitted.antt =====
-- Whom the root of a session lets in.
use service_plane.Prelude.{
  ℕ, ◌≡◌, ◌⊎◌, refl, sym, subst, inl, inr, Bool, false, Option, some, List, [], arith,
}
use service_plane.Prelude.Tests.{Option-cases}
use service_plane.Prelude.Text.{Text}
use service_plane.Shared.Errors.{or_default}
use service_plane.Shared.Jwk.{Jwk}
use service_plane.Shared.Result.{Result, ok, Result-cases}
use service_plane.Shared.Types.{AbilityAccess, plane, service, CapabilityClaims, CapabilityIdentity}
use service_plane.Shared.Crypto.{Crypto}
use service_plane.Shared.Tokens.Verify.{VerifyOptions, identity_of, verify_capability_token}
use service_plane.Shared.Tokens.Verify.Identity.{IsIdentityOf}
use service_plane.Shared.Tokens.Verify.Sound.{IsAcceptable}
use service_plane.Shared.Tokens.Verify.Authentic.{IsSigned, verify_capability_token-IsSigned}
use service_plane.Service.Access.{verify_ability_access, verify_authentication_token}
use service_plane.Service.Reply.{value}
use service_plane.Service.Handler.{HandlerState, create_validating_handler}
use service_plane.Service.Shell.Brokered.{IsBrokered, verify_service_ingress-IsBrokered}
use service_plane.Service.Shell.{
  control_plane, verifier, AuthRoot, FactoryInput, factory_input, deadline_of, created,
  authenticate,
}

-- How the root of a session verifies a token: with the keys and the time of the service, for the ability,
-- as the audience and from the issuer that are configured, or else as the service and from the control
-- plane.
abbrev pub verified_by : AuthRoot → Option Text → Result (List Jwk) → VerifyOptions
verified_by root proof keys = record {
  ability_id = some root.ability.id;
  expected_audience = or_default root.auth.expected_audience root.service_id;
  issuer = some (or_default root.auth.issuer control_plane);
  jwks = keys;
  now = root.auth.now;
  proof = proof;
  required_scopes = [];
}

-- The identity is that of a signed token, acceptable to the service for this ability; the caller came
-- through the ingress, and is a service where only services may call.
pub record IsLetIn (crypto : Crypto) (root : AuthRoot) (token : Text) (proof : Option Text)
    (identity : CapabilityIdentity) : Type 0 where
  pub keys : Result (List Jwk)
  pub claims : CapabilityClaims
  pub configured : root.auth.jwks ≡ some keys
  pub signed : IsSigned crypto token (verified_by root proof keys) claims
  pub acceptable : IsAcceptable crypto token (verified_by root proof keys) claims
  pub named : identity ≡ identity_of claims
  pub identified : IsIdentityOf claims identity
  pub brokered : IsBrokered root.auth root.ingress identity.broker_service_id
  pub admitted : (root.ability.access ≡ plane) ⊎ (identity.caller_access ≡ service)

access-of_ok :
    (id : Text) (access caller : AbilityAccess)
    → verify_ability_access id access caller ≡ ok tt
    → (access ≡ plane) ⊎ (caller ≡ service)
unfolding verify_ability_access
access-of_ok id plane caller h = inl refl
access-of_ok id service service h = inr refl
access-of_ok id service plane h = absurd (ground arith)

token-verified :
    (crypto : Crypto) (token : Text) (options : VerifyOptions) (identity : CapabilityIdentity)
    → verify_authentication_token crypto token options ≡ ok identity
    → verify_capability_token crypto token options ≡ ok identity
unfolding verify_authentication_token
token-verified crypto token options identity h = ground arith

verifier-verified_by :
    (root : AuthRoot) (proof : Option Text) (o : VerifyOptions)
    → verifier root.auth root.service_id root.ability.id proof ≡ ok o
    → (keys : Result (List Jwk)) × (root.auth.jwks ≡ some keys) × (o ≡ verified_by root proof keys)
unfolding verifier
verifier-verified_by root proof o h = elim (Option-cases root.auth.jwks) [
  | inl missing ↦ absurd (ground arith)
  | inr (keys, given) ↦ (keys, given, ground arith)
]

factory_input-IsLetIn :
    (crypto : Crypto) (root : AuthRoot) (started_at : ℕ) (token : Text) (proof : Option Text)
    (input : FactoryInput)
    → factory_input crypto root started_at token proof ≡ ok input
    → IsLetIn crypto root token proof input.identity
unfolding factory_input
factory_input-IsLetIn crypto root started_at token proof input h =
    elim (Result-cases (verifier root.auth root.service_id root.ability.id proof)) [
      | inr (e, refused) ↦ absurd (ground arith)
      | inl (options, configured) ↦
          let (keys, published, same) = verifier-verified_by root proof options configured in
          let verified : verify_authentication_token crypto token options ≡ ok input.identity =
            ground arith in
          let (claims, signed, acceptable, named, identified) =
            verify_capability_token-IsSigned crypto token (verified_by root proof keys)
              input.identity tt
              (token-verified crypto token (verified_by root proof keys) input.identity
                (rw same at verified)) in
          record {
            keys = keys;
            claims = claims;
            configured = published;
            signed = signed;
            acceptable = acceptable;
            named = named;
            identified = identified;
            brokered =
                verify_service_ingress-IsBrokered root.auth root.ingress
                  input.identity.broker_service_id (ground arith);
            admitted =
                access-of_ok root.ability.id root.ability.access input.identity.caller_access
                  (ground arith);
          }
    ]

-- What a session starts from: its ability's methods, streaming as its root allows, and the budget of the
-- call, counted from when it was let in.
pub record IsFresh (root : AuthRoot) (started_at : ℕ) (state : HandlerState) : Type 0 where
  pub methods : state.methods ≡ root.ability.methods
  pub streaming : state.allow_streaming ≡ root.allow_streaming
  pub deadline : state.deadline_at ≡ deadline_of started_at root.timeout_ms
  pub undisposed : state.disposed ≡ false

created-IsFresh :
    (crypto : Crypto) (root : AuthRoot) (bound : FactoryInput → Bool) (started_at : ℕ)
    (token : Text) (proof : Option Text) (input : FactoryInput) (state : HandlerState)
    → factory_input crypto root started_at token proof ≡ ok input
    → created root bound (ok input) ≡ value state
    → IsFresh root started_at state × (state.identity ≡ input.identity) × (bound input ≡ false)
unfolding factory_input create_validating_handler
created-IsFresh crypto root bound started_at token proof input state h k = (
  record {
    methods = ground arith;
    streaming = ground arith;
    deadline = ground arith;
    undisposed = ground arith;
  },
  ground arith,
  ground arith,
)

-- A session with an ability only starts for a token that a key of the service's key set signed, that is
-- acceptable at the service's time, for the audience and from the issuer that are configured, or else for
-- the service itself and from the control plane, with a proof for this ability where it is bound to a key;
-- the session takes over the identity of the token. Where the service has an ingress, the identity names
-- one of the brokers that are configured for it, or else the trusted issuer; where only services may call,
-- it is one of a service; and the handler is the session's own. The session has the methods of the ability,
-- streams as its transport allows, and carries the caller's budget.
pub authenticate-IsLetIn :
    (crypto : Crypto) (root : AuthRoot) (bound : FactoryInput → Bool) (started_at : ℕ)
    (token : Text) (proof : Option Text) (state : HandlerState)
    → authenticate crypto root bound started_at token proof ≡ value state
    → (input : FactoryInput) × IsLetIn crypto root token proof state.identity
      × IsFresh root started_at state
      × (bound input ≡ false)
      × (input.identity ≡ state.identity)
unfolding authenticate
authenticate-IsLetIn crypto root bound started_at token proof state h =
    elim (Result-cases (factory_input crypto root started_at token proof)) [
      | inr (e, refused) ↦ absurd (ground arith)
      | inl (input, let_in) ↦
          let (fresh, identity, unbound) =
            created-IsFresh crypto root bound started_at token proof input state let_in
              (ground arith) in
          (
            input,
            subst (IsLetIn crypto root token proof) (sym identity)
                (factory_input-IsLetIn crypto root started_at token proof input let_in),
            fresh,
            unbound,
            sym identity,
          )
    ]
