-- ===== src/Invocation/Sessions.antt =====
-- What an invocation is limited to, and that its session is disposed of.
use service_plane.Prelude.Number.{finite, sub_ℕ}
use service_plane.Prelude.Value.{number_value}
use service_plane.Shared.Deadline.{normalize_timeout_ms, remaining_timeout_ms}
use service_plane.Broker.Budget.{WithinBudget, remaining-WithinBudget}
use service_plane.Broker.Attributed.{IsAttributed, broker_caller_subject-IsAttributed}
use service_plane.Broker.Class.{MayUse, broker_caller_access-IsService}
use service_plane.Prelude.{
  ℕ, ◌-◌, ◌≡◌, refl, ◌⊎◌, inl, inr, false, Option, some, List, [], ◌∷◌, arith,
}
use service_plane.Prelude.Text.{Text}
use service_plane.Shared.Errors.{ServicePlaneError, or_default}
use service_plane.Shared.Result.{Result, ok, err, Result-cases}
use service_plane.Shared.Types.{plane, service, published}
use service_plane.Shared.Crypto.{Crypto}
use service_plane.Issuer.{get}
use service_plane.Broker.{broker_caller_access, broker_caller_subject, transport_for_ability}
use service_plane.Broker.Connect.{AbilitySessionOptions, is_exhausted}
use service_plane.Broker.Transports.{IsOffered, transport_for_ability-IsOffered}
use service_plane.Invocation.{
  ControlPlaneMethodInvocation, ControlPlaneInvocationOptions, is_stream,
  authorize_published_ability, method_session_options, call_method, invoke_control_plane_method,
}

-- A session for a published ability that the caller may use, with the scopes of the invocation, for
-- the caller as its subject where it is a user, over a transport that the ability offers, with what
-- the time since the request was received leaves of the caller's budget.
pub record IsInvocation (now : ℕ) (i : ControlPlaneMethodInvocation)
    (o : ControlPlaneInvocationOptions) (s : AbilitySessionOptions) : Type 0 where
  pub exposed : i.ability.exposure ≡ published
  pub allowed : MayUse i.ability.access o.caller
  pub target : s.target_service_id ≡ i.ability.service_id
  pub opened : s.ability_id ≡ i.ability.id
  pub scopes : s.scopes ≡ i.scopes
  pub attributed : IsAttributed o.caller s.subject
  pub budget :
      WithinBudget
        (normalize_timeout_ms (number_value o.timeout_ms))
        (now - or_default o.received_at now)
        s.timeout_ms
  pub offered : IsOffered i.ability s.transport

authorize_published_ability-lem :
    (i : ControlPlaneMethodInvocation) (o : ControlPlaneInvocationOptions)
    → authorize_published_ability i.ability o.caller ≡ ok tt
    → (i.ability.exposure ≡ published) × MayUse i.ability.access o.caller
unfolding authorize_published_ability
authorize_published_ability-lem i o h =
    let allowed : (i.ability.access ≡ plane) ⊎ (broker_caller_access o.caller ≡ service) =
      ground arith in
    (
      ground arith,
      elim allowed [
        | inl any ↦ inl any
        | inr only ↦ inr ((broker_caller_access-IsService o.caller).0 only)
      ],
    )

module _ (crypto : Crypto) (now : ℕ) (i : ControlPlaneMethodInvocation)
    (o : ControlPlaneInvocationOptions) where
  method_session_options-IsInvocation :
      (s : AbilitySessionOptions)
      → method_session_options crypto now i o ≡ ok s
      → IsInvocation now i o s
  unfolding method_session_options
  method_session_options-IsInvocation s h = elim (Result-cases (broker_caller_subject o.caller)) [
    | inr (e, refused) ↦ absurd (ground arith)
    | inl (subject, attributed) ↦
        let requires = some (is_stream (get i.method i.ability.methods)) in
        elim (Result-cases (transport_for_ability i.ability requires)) [
          | inr (e, refused) ↦ absurd (ground arith)
          | inl (transport, chosen) ↦
              let same : s.transport ≡ transport = ground arith in
              let authorized : authorize_published_ability i.ability o.caller ≡ ok tt =
                ground arith in
              let (exposed, allowed) = authorize_published_ability-lem i o authorized in
              let left : s.timeout_ms
                  ≡ remaining_timeout_ms o.timeout_ms
                      (finite (sub_ℕ now (or_default o.received_at now)) 0) =
                ground arith in
              let in_time : is_exhausted s.timeout_ms ≡ false = ground arith in
              record {
                exposed = exposed;
                allowed = allowed;
                target = ground arith;
                opened = ground arith;
                scopes = ground arith;
                attributed = broker_caller_subject-IsAttributed o.caller s.subject (ground arith);
                budget = rw left (
                    remaining-WithinBudget o.timeout_ms (or_default o.received_at now) now
                      (rw left at in_time));
                offered =
                    rw same (transport_for_ability-IsOffered i.ability requires transport chosen).0;
              }
        ]
  ]

  -- Why an invocation has no session: its options are refused, or opening it fails.
  abbrev pub IsUnopened :
      {S : Type 0} → (AbilitySessionOptions → Result S) → ServicePlaneError → Type 0
  IsUnopened open_session e =
      (method_session_options crypto now i o ≡ err e)
      ⊎ ((s : AbilitySessionOptions) × (method_session_options crypto now i o ≡ ok s)
          × (open_session s ≡ err e))

  -- What an invocation ends with: no session and the error that there is none for, or the one session
  -- that was opened, which is disposed of whatever its method returns or throws.
  abbrev pub IsSettled :
      {S I V : Type 0}
      → (AbilitySessionOptions → Result S)
      → (S → Text → Option (I → Result V))
      → I
      → Result V × List S
      → Type 0
  IsSettled {S = S} open_session api input after =
      ((e : ServicePlaneError) × IsUnopened open_session e × (after ≡ (err e, [])))
      ⊎ ((s : AbilitySessionOptions) × (session : S) × IsInvocation now i o s
          × (open_session s ≡ ok session)
          × (after ≡ (call_method i.method input (api session i.method), session ∷ [])))

  -- An invocation ends in one of two ways. Its options are refused or opening the session fails, and
  -- it throws that error. Or it opens one session, for a published ability that the caller may use,
  -- with the scopes of the invocation, for the caller as its subject where it is a user and for none
  -- otherwise, over a transport that the ability offers, with what the time since the request was
  -- received leaves of the caller's budget; it answers what the method returns or throws, and
  -- disposes of that session either way.
  pub invoke_control_plane_method-IsSettled :
      {S I V : Type 0} (open_session : AbilitySessionOptions → Result S)
      (api : S → Text → Option (I → Result V)) (input : I)
      → IsSettled open_session api input
          (invoke_control_plane_method open_session api crypto now i input o)
  unfolding invoke_control_plane_method
  invoke_control_plane_method-IsSettled open_session api input =
      elim (Result-cases (method_session_options crypto now i o)) [
        | inr (e, refused) ↦ inl (e, inl refused, rw refused refl)
        | inl (s, prepared) ↦ elim (Result-cases (open_session s)) [
          | inr (e, refused) ↦ inl (e, inr (s, prepared, refused), rw (prepared, refused) refl)
          | inl (session, opened) ↦ inr (
            s,
            session,
            method_session_options-IsInvocation s prepared,
            opened,
            rw (prepared, opened) refl,
          )
        ]
      ]
