-- ===== src/Broker/Attributed.antt =====
-- Whom a session acts for, and what it refuses to stream: brokerCallerSubject and the rejected methods of
-- src/control-plane/broker.ts.
use service_plane.Prelude.{
  ◌≡◌, refl, sym, ap, subst, ◌∙◌, ◌⊎◌, inl, inr, true, false, Option, none, some, List, [], ◌∷◌,
  map, arith,
}
use service_plane.Prelude.Tests.{Bool-cases, if◌then◌else◌}
use service_plane.Prelude.Lists.{All, filter, is_nil}
use service_plane.Prelude.Text.{Text, In, trim, trim_idem}
use service_plane.Shared.Result.{ok, Result-cases}
use service_plane.Shared.Types.{CapabilitySubject}
use service_plane.Shared.Tokens.{trim_option, normalize_capability_subject}
use service_plane.Shared.Tokens.Verify.{non_empty}
use service_plane.Shared.Catalog.{ServiceAbilityMethodDiscovery, DiscoveredServiceAbility}
use service_plane.Broker.{
  BrokerCaller, CallerKind, is_user, service_caller, user, trimmed_org, subject_of,
  broker_caller_subject,
}
use service_plane.Broker.Connect.{stream_methods}

-- An optional text without the spaces around it.
abbrev pub IsTrimmed : Option Text → Option Text → Type 0
IsTrimmed none kept = kept ≡ none
IsTrimmed (some given) kept = kept ≡ some (trim given)

-- The same, left out where only spaces were given.
abbrev pub IsTrimmedOrg : Option Text → Option Text → Type 0
IsTrimmedOrg none kept = kept ≡ none
IsTrimmedOrg (some given) kept =
    ((is_nil (trim given) ≡ true) × (kept ≡ none))
    ⊎ ((is_nil (trim given) ≡ false) × (kept ≡ some (trim given)))

-- A service acts for itself; a user is named by its id, its kind and its organisation.
abbrev pub IsSubjectOf : CallerKind → BrokerCaller → Option CapabilitySubject → Type 0
IsSubjectOf service_caller caller subject = subject ≡ none
IsSubjectOf user caller subject =
    (s : CapabilitySubject) × (subject ≡ some s)
    × (s.id ≡ trim caller.id)
    × IsTrimmed caller.principal_kind s.kind
    × IsTrimmedOrg caller.org_id s.org_id

-- Without a caller there is no subject.
abbrev pub IsAttributed : Option BrokerCaller → Option CapabilitySubject → Type 0
IsAttributed none subject = subject ≡ none
IsAttributed (some caller) subject = IsSubjectOf caller.kind caller subject

trim_option-IsTrimmed : (given kept : Option Text) → kept ≡ trim_option given → IsTrimmed given kept
unfolding trim_option
trim_option-IsTrimmed none kept h = h
trim_option-IsTrimmed (some given) kept h = h

trimmed-IsTrimmedOrg :
    (given : Text) (kept : Option Text) (t : Text)
    → trim given ≡ t
    → kept ≡ trim_option (non_empty (some t))
    → IsTrimmedOrg (some given) kept
unfolding trim_option
trimmed-IsTrimmedOrg given kept [] e h = inl (rw e refl, h)
trimmed-IsTrimmedOrg given kept (c ∷ s) e h =
    let twice : trim (c ∷ s) ≡ trim given = ap trim (sym e) ∙ trim_idem given in
    inr (rw e refl, h ∙ ap some twice)

trimmed_org-IsTrimmedOrg :
    (given kept : Option Text) → kept ≡ trim_option (trimmed_org given) → IsTrimmedOrg given kept
unfolding trim_option trimmed_org
trimmed_org-IsTrimmedOrg none kept h = h
trimmed_org-IsTrimmedOrg (some given) kept h = trimmed-IsTrimmedOrg given kept (trim given) refl h

normalize_capability_subject-lem :
    (asked s : CapabilitySubject)
    → normalize_capability_subject asked ≡ ok s
    → (s.id ≡ trim asked.id)
      × (s.kind ≡ trim_option asked.kind)
      × (s.org_id ≡ trim_option asked.org_id)
unfolding normalize_capability_subject
normalize_capability_subject-lem asked s h = (ground arith, ground arith, ground arith)

subject_of-IsSubjectOf :
    (caller : BrokerCaller) (subject : Option CapabilitySubject)
    → subject_of caller ≡ ok subject
    → IsSubjectOf user caller subject
unfolding subject_of
subject_of-IsSubjectOf caller subject h =
    let asked : CapabilitySubject = record {
      id = caller.id;
      kind = caller.principal_kind;
      org_id = trimmed_org caller.org_id;
    } in
    elim (Result-cases (normalize_capability_subject asked)) [
      | inr (e, refused) ↦ absurd (ground arith)
      | inl (s, normal) ↦
          let (id, kind, org) = normalize_capability_subject-lem asked s normal in
          (
            s,
            ground arith,
            id,
            trim_option-IsTrimmed caller.principal_kind s.kind kind,
            trimmed_org-IsTrimmedOrg caller.org_id s.org_id org,
          )
    ]

attributed_kind :
    (caller : BrokerCaller) (kind : CallerKind) (subject : Option CapabilitySubject)
    → (if is_user kind then subject_of caller else ok none) ≡ ok subject
    → IsSubjectOf kind caller subject
unfolding is_user
attributed_kind caller service_caller subject h = ground arith
attributed_kind caller user subject h = subject_of-IsSubjectOf caller subject h

pub broker_caller_subject-IsAttributed :
    (caller : Option BrokerCaller) (subject : Option CapabilitySubject)
    → broker_caller_subject caller ≡ ok subject
    → IsAttributed caller subject
unfolding broker_caller_subject
broker_caller_subject-IsAttributed none subject h = ground arith
broker_caller_subject-IsAttributed (some caller) subject h =
    attributed_kind caller caller.kind subject h

-- Each of the methods that streams is refused.
abbrev pub StreamsRefused : List (Text × ServiceAbilityMethodDiscovery) → List Text → Type 0
StreamsRefused methods refused =
    All (λ (m : Text × ServiceAbilityMethodDiscovery). (m.1.stream ≡ false) ⊎ In m.0 refused)
      methods

abbrev streaming : List (Text × ServiceAbilityMethodDiscovery) → List Text
streaming methods =
    map (λ (m : Text × ServiceAbilityMethodDiscovery). m.0)
      (filter (λ (m : Text × ServiceAbilityMethodDiscovery). m.1.stream) methods)

StreamsRefused-cons :
    (methods : List (Text × ServiceAbilityMethodDiscovery)) (name : Text) (names : List Text)
    → StreamsRefused methods names
    → StreamsRefused methods (name ∷ names)
StreamsRefused-cons [] name names h = tt
StreamsRefused-cons (m ∷ methods) name names (inl unary, hs) =
    (inl unary, StreamsRefused-cons methods name names hs)
StreamsRefused-cons (m ∷ methods) name names (inr among, hs) =
    (inr (inr among), StreamsRefused-cons methods name names hs)

streaming-StreamsRefused :
    (methods : List (Text × ServiceAbilityMethodDiscovery))
    → StreamsRefused methods (streaming methods)
unfolding filter
streaming-StreamsRefused [] = tt
streaming-StreamsRefused (m ∷ methods) =
    let rest = streaming-StreamsRefused methods in
    elim (Bool-cases m.1.stream) [
      | inr unary ↦
          let same : streaming (m ∷ methods) ≡ streaming methods = ground (arith, unary) in
          subst (StreamsRefused (m ∷ methods)) (sym same) (inl unary, rest)
      | inl streams ↦
          let same : streaming (m ∷ methods) ≡ m.0 ∷ streaming methods = ground (arith, streams) in
          subst (StreamsRefused (m ∷ methods)) (sym same)
            (inr (inl refl), StreamsRefused-cons methods m.0 (streaming methods) rest)
    ]

pub stream_methods-StreamsRefused :
    (ability : DiscoveredServiceAbility) → StreamsRefused ability.methods (stream_methods ability)
unfolding stream_methods
stream_methods-StreamsRefused ability = streaming-StreamsRefused ability.methods
