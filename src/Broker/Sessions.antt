-- ===== src/Broker/Sessions.antt =====
-- What a session that the broker opens is limited to.
use service_plane.Prelude.{
  ℕ, ◌-◌, ◌≡◌, ◌∙◌, ◌⊎◌, inl, inr, Bool, true, false, Option, none, some, List, [], ◌∷◌, arith,
}
use service_plane.Prelude.Tests.{Option-cases, if◌then◌else◌}
use service_plane.Prelude.Lists.{All, is_nil, find?, find?-holds}
use service_plane.Prelude.Text.{Text, eq_iff, In, includes_iff}
use service_plane.Prelude.Number.{finite, sub_ℕ}
use service_plane.Prelude.Value.{number_value}
use service_plane.Shared.Errors.{or_default}
use service_plane.Shared.Result.{ok, Result-cases}
use service_plane.Shared.Types.{plane, service}
use service_plane.Shared.Crypto.{Crypto}
use service_plane.Shared.Deadline.{normalize_timeout_ms, remaining_timeout_ms}
use service_plane.Shared.Deadline.Policy.{normalize_timeout_ms-EachBudget}
use service_plane.Shared.Catalog.{DiscoveredServiceAbility}
use service_plane.Issuer.Issue.{CapabilityIssuer}
use service_plane.Broker.{
  BrokerCaller, broker_caller_subject, broker_caller_access, authorize_ability,
  transport_for_ability,
}
use service_plane.Broker.Connect.{
  CreateBrokerOptions, BrokerRoot, root_capability, BrokeredAbility, is_ability, root_ability,
  AbilitySessionOptions, requested_scopes, declared_scopes, is_exhausted, as_option, stream_methods,
  session_options,
}
use service_plane.Broker.Budget.{WithinBudget, normal-WithinBudget}
use service_plane.Broker.Attributed.{
  IsAttributed, broker_caller_subject-IsAttributed, StreamsRefused, stream_methods-StreamsRefused,
}
use service_plane.Broker.Class.{MayUse, broker_caller_access-IsService}
use service_plane.Broker.Transports.{IsOffered, transport_for_ability-IsOffered}

declared_scopes-All :
    (declared scopes : List Text)
    → declared_scopes declared scopes ≡ ok tt
    → All (λ scope. In scope declared) scopes
unfolding declared_scopes
declared_scopes-All declared [] h = tt
declared_scopes-All declared (scope ∷ scopes) h =
    ground (arith, includes_iff declared scope, declared_scopes-All declared scopes)

authorize_ability_lem :
    (ability : DiscoveredServiceAbility) (caller : Option BrokerCaller)
    → authorize_ability ability caller ≡ ok tt
    → MayUse ability.access caller
unfolding authorize_ability
authorize_ability_lem ability caller h =
    let allowed : (ability.access ≡ plane) ⊎ (broker_caller_access caller ≡ service) =
      ground arith in
    elim allowed [
      | inl any ↦ inl any
      | inr only ↦ inr ((broker_caller_access-IsService caller).0 only)
    ]

-- The limits of a session, in terms of the brokered ability that it is opened on.
record IsLimited (input : BrokeredAbility) (now : ℕ) (s : AbilitySessionOptions) : Type 0 where
  target : s.target_service_id ≡ input.ability.service_id
  opened : s.ability_id ≡ input.ability.id
  declared : All (λ scope. In scope input.ability.scopes) s.scopes
  some_scope : is_nil s.scopes ≡ false
  attributed : broker_caller_subject input.root.caller ≡ ok s.subject
  left :
      s.timeout_ms
      ≡ remaining_timeout_ms
          (as_option input.root.timeout_ms)
          (finite (sub_ℕ now input.root.received_at) 0)
  in_time : is_exhausted s.timeout_ms ≡ false
  offered : IsOffered input.ability s.transport
  unary :
      (input.root.allow_streaming ≡ true) ⊎ (s.reject_stream_methods ≡ stream_methods input.ability)

module _ (crypto : Crypto) (issuer : CapabilityIssuer) (now : ℕ) (input : BrokeredAbility)
    (scopes : List Text) (s : AbilitySessionOptions) where
  session_options-IsLimited :
      session_options crypto issuer now input scopes ≡ ok s → IsLimited input now s
  unfolding session_options
  session_options-IsLimited h = elim (Result-cases (broker_caller_subject input.root.caller)) [
    | inr (e, refused) ↦ absurd (ground arith)
    | inl (subject, attributed) ↦
        let requires = if input.root.allow_streaming then none else some false in
        elim (Result-cases (transport_for_ability input.ability requires)) [
          | inr (e, refused) ↦ absurd (ground arith)
          | inl (transport, chosen) ↦
              let same : s.transport ≡ transport = ground arith in
              let kept : s.scopes ≡ requested_scopes scopes = ground arith in
              let known : declared_scopes input.ability.scopes (requested_scopes scopes) ≡ ok tt =
                ground arith in
              record {
                target = ground arith;
                opened = ground arith;
                declared =
                    rw kept
                      (declared_scopes-All input.ability.scopes (requested_scopes scopes) known);
                some_scope = ground arith;
                attributed = ground arith;
                left = ground arith;
                in_time = ground arith;
                offered =
                    rw same
                      (transport_for_ability-IsOffered input.ability requires transport chosen).0;
                unary = ground arith;
              }
        ]
  ]

-- What a BrokerRoot finds.
record IsFound (root : BrokerRoot) (service_id ability_id : Text) (input : BrokeredAbility)
    : Type 0 where
  abilities : List DiscoveredServiceAbility
  known : root.abilities ≡ ok abilities
  found : find? (is_ability service_id ability_id) abilities ≡ some input.ability
  same_root : input.root ≡ root
  allowed : MayUse input.ability.access root.caller

root_ability-IsFound :
    (root : BrokerRoot) (service_id ability_id : Text) (input : BrokeredAbility)
    → root_ability root service_id ability_id ≡ ok input
    → IsFound root service_id ability_id input
unfolding root_ability
root_ability-IsFound root service_id ability_id input h = elim (Result-cases root.abilities) [
  | inr (e, refused) ↦ absurd (ground arith)
  | inl (abilities, known) ↦
      elim (Option-cases (find? (is_ability service_id ability_id) abilities)) [
        | inl missing ↦ absurd (ground arith)
        | inr (ability, found) ↦
            let same : input.ability ≡ ability = ground arith in
            record {
              abilities = abilities;
              known = known;
              found = rw same found;
              same_root = ground arith;
              allowed = authorize_ability_lem input.ability root.caller (ground arith);
            }
      ]
]

is_ability-named :
    (service_id ability_id : Text) (ability : DiscoveredServiceAbility)
    → is_ability service_id ability_id ability ≡ true
    → (ability.service_id ≡ service_id) × (ability.id ≡ ability_id)
unfolding is_ability
is_ability-named service_id ability_id ability h =
    ground (arith, eq_iff ability.service_id service_id, eq_iff ability.id ability_id)

-- What the broker opens a session with, at the time `now`, on a root of the time `start`: for the ability
-- that was asked for, which the registry knows and the caller may use, with scopes that the ability
-- declares, the caller's own subject, a transport that the ability offers, with what the time since the
-- request was received leaves of the caller's budget, and with no streaming method where the caller's leg
-- carries none.
pub record IsSessionOf (o : CreateBrokerOptions) (start now : ℕ) (caller : Option BrokerCaller)
    (allow_streaming : Bool) (service_id ability_id : Text) (s : AbilitySessionOptions)
    : Type 0 where
  pub abilities : List DiscoveredServiceAbility
  pub ability : DiscoveredServiceAbility
  pub known : o.abilities ≡ ok abilities
  pub found : find? (is_ability service_id ability_id) abilities ≡ some ability
  pub target : s.target_service_id ≡ service_id
  pub opened : s.ability_id ≡ ability_id
  pub allowed : MayUse ability.access caller
  pub declared : All (λ scope. In scope ability.scopes) s.scopes
  pub some_scope : is_nil s.scopes ≡ false
  pub attributed : IsAttributed caller s.subject
  pub budget :
      WithinBudget
        (normalize_timeout_ms (number_value o.timeout_ms))
        (now - or_default o.received_at start)
        s.timeout_ms
  pub offered : IsOffered ability s.transport
  pub unary : (allow_streaming ≡ true) ⊎ StreamsRefused ability.methods s.reject_stream_methods

module _ (crypto : Crypto) (issuer : CapabilityIssuer) (o : CreateBrokerOptions) (start now : ℕ)
    (caller : Option BrokerCaller) (allow_streaming : Bool) (service_id ability_id : Text)
    (scopes : List Text) (input : BrokeredAbility) (s : AbilitySessionOptions) where
  -- A session that is opened on an ability of a broker root is for the ability that was asked for,
  -- which the registry knows and which the caller may use, being open to any caller or the caller
  -- being one that was authenticated as a service; with one or more of the scopes that the ability
  -- declares and a transport that the ability offers; for the caller as its subject where it is a
  -- user, and for none where it is a service or there is no caller; with the caller's budget, if
  -- there is one, less the time since the request was received, or since the root was made, which has
  -- not used it up; and with each streaming method refused unless the caller's leg carries streams.
  pub session_options-IsSessionOf :
      root_ability (root_capability o start caller allow_streaming) service_id ability_id ≡ ok input
      → session_options crypto issuer now input scopes ≡ ok s
      → IsSessionOf o start now caller allow_streaming service_id ability_id s
  unfolding root_capability
  session_options-IsSessionOf h k =
      let root = root_capability o start caller allow_streaming in
      let f = root_ability-IsFound root service_id ability_id input h in
      let l = session_options-IsLimited crypto issuer now input scopes s k in
      let named =
        is_ability-named service_id ability_id input.ability
          (find?-holds (is_ability service_id ability_id) f.abilities input.ability f.found) in
      let asked = normalize_timeout_ms (number_value o.timeout_ms) in
      let left = rw f.same_root at l.left in
      let unary = rw f.same_root at l.unary in
      record {
        abilities = f.abilities;
        ability = input.ability;
        known = f.known;
        found = f.found;
        target = l.target ∙ named.0;
        opened = l.opened ∙ named.1;
        allowed = f.allowed;
        declared = l.declared;
        some_scope = l.some_scope;
        attributed =
            broker_caller_subject-IsAttributed caller s.subject (rw f.same_root at l.attributed);
        budget = rw left (
            normal-WithinBudget asked root.received_at now
              (normalize_timeout_ms-EachBudget (number_value o.timeout_ms)) (rw left at l.in_time));
        offered = l.offered;
        unary = elim unary [
          | inl streams ↦ inl streams
          | inr named ↦ inr (rw named (stream_methods-StreamsRefused input.ability))
        ];
      }
