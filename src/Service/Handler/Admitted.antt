-- ===== src/Service/Handler/Admitted.antt =====
-- When a call of a method reaches the implementation of the service.
use service_plane.Prelude.{
  ◌≡◌, refl, ap, ◌∙◌, ◌↔◌, ◌⊎◌, inl, inr, Bool, true, false, Option, none, some, List, [], ◌∷◌,
  arith,
}
use service_plane.Prelude.Lists.{All, is_nil}
use service_plane.Prelude.Text.{Text, In, includes_iff}
use service_plane.Prelude.Value.{Value}
use service_plane.Shared.Result.{ok, Result-cases}
use service_plane.Shared.Types.{CapabilityIdentity}
use service_plane.Issuer.{get, normalize_scopes}
use service_plane.Service.Reply.{value, Reply-cases}
use service_plane.Service.Schema.{validate_ability_value}
use service_plane.Service.Access.{require_each_scope, require_scopes}
use service_plane.Service.Handler.{
  Method, HandlerState, active, known_method, single_argument, admit,
}

scopes-ne-nil :
    (scopes required : List Text)
    → normalize_scopes scopes 500 ≡ ok required
    → is_nil scopes ≡ false
unfolding normalize_scopes
scopes-ne-nil [] required h = absurd (ground arith)
scopes-ne-nil (s ∷ ss) required h = refl

-- The scopes, normalised, each of which is held; there is at least one.
abbrev pub AreHeld : List Text → List Text → Type 0
AreHeld held scopes =
    (required : List Text) × (is_nil scopes ≡ false)
    × (normalize_scopes scopes 500 ≡ ok required)
    × All (λ scope. In scope held) required

require_each_scope_iff :
    (held scopes : List Text)
    → (require_each_scope held scopes ≡ ok tt) ↔ All (λ scope. In scope held) scopes
unfolding require_each_scope
require_each_scope_iff held [] = (λ _. tt, λ _. refl)
require_each_scope_iff held (scope ∷ scopes) =
    ground (arith, includes_iff held scope, require_each_scope_iff held scopes)

require_scopes_iff :
    (identity : CapabilityIdentity) (scopes : List Text)
    → (require_scopes (some identity) scopes ≡ ok identity) ↔ AreHeld identity.scopes scopes
unfolding require_scopes
require_scopes_iff identity scopes = elim (Result-cases (normalize_scopes scopes 500)) [
  | inl (required, h) ↦ (
    λ k. (
      required,
      scopes-ne-nil scopes required h,
      h,
      (require_each_scope_iff identity.scopes required).0 (ground arith),
    ),
    λ k. ground (arith, require_each_scope_iff identity.scopes k.0),
  )
  | inr (e, h) ↦ (λ k. absurd (ground arith), λ k. absurd (ground arith))
]

-- An admitted call: the target is not disposed when the call arrives, nor once its input is validated;
-- the method is known, and is called in a session if it streams; there is one argument, which the input
-- schema accepts with `input`; the caller holds the method's scopes, of which there is one at least; and
-- the handler implements the method.
pub record IsAdmitted (implements : Text → Bool) (s later : HandlerState) (name : Text)
    (args : List Value) (method : Method) (input : Value) : Type 0 where
  pub arg : Value
  pub open_at_call : s.disposed ≡ false
  pub known : get name s.methods ≡ some method
  pub carried : (method.stream ≡ false) ⊎ (s.allow_streaming ≡ true)
  pub single : args ≡ arg ∷ []
  pub held : AreHeld s.identity.scopes method.scopes
  pub implemented : implements name ≡ true
  pub valid : validate_ability_value (method.input arg) name 422 ≡ value input
  pub open_at_start : later.disposed ≡ false

single_argument-eq :
    (name : Text) (args : List Value) (arg : Value)
    → single_argument name args ≡ value arg
    → args ≡ arg ∷ []
unfolding single_argument
single_argument-eq name [] arg h = absurd (ground arith)
single_argument-eq name (a ∷ []) arg h = ground arith
single_argument-eq name (a ∷ b ∷ rest) arg h = absurd (ground arith)

known_method-eq :
    (name : Text) (o : Option Method) (method : Method)
    → known_method name o ≡ value method
    → o ≡ some method
unfolding known_method
known_method-eq name none method h = absurd (ground arith)
known_method-eq name (some m) method h = ground arith

require_scopes-eq :
    (identity other : CapabilityIdentity) (scopes : List Text)
    → require_scopes (some identity) scopes ≡ ok other
    → other ≡ identity
unfolding require_scopes
require_scopes-eq identity other scopes h = ground arith

-- A call of a method reaches the implementation of the service, with a given input, exactly when the
-- target is not disposed, neither when the call arrives nor once its input is validated, the method is
-- known and streams in a session only, the one argument passes the input schema as that input, the
-- caller holds the scopes of the method, of which there is one at least, and the handler implements it.
pub admit_iff :
    (implements : Text → Bool) (s later : HandlerState) (name : Text) (args : List Value)
    (method : Method) (input : Value)
    → (admit implements s later name args ≡ value (method, input))
      ↔ IsAdmitted implements s later name args method input
unfolding admit active known_method single_argument
admit_iff implements s later name args method input = (
  λ h. elim (Reply-cases (known_method name (get name s.methods))) [
    | inr (t, e) ↦ absurd (ground arith)
    | inl (m, known) ↦ elim (Reply-cases (single_argument name args)) [
      | inr (t, e) ↦ absurd (ground arith)
      | inl (arg, single) ↦ elim (Result-cases (require_scopes (some s.identity) m.scopes)) [
        | inr (t, e) ↦ absurd (ground arith)
        | inl (identity, held) ↦
            elim (Reply-cases (validate_ability_value (m.input arg) name 422)) [
              | inr (t, e) ↦ absurd (ground arith)
              | inl (v, valid) ↦
                  let same : (m ≡ method) × (v ≡ input) = (ground arith, ground arith) in
                  let e : identity ≡ s.identity =
                    require_scopes-eq s.identity identity m.scopes held in
                  rw (← same.0, ← same.1)
                    (record {
                      arg = arg;
                      open_at_call = ground arith;
                      known = known_method-eq name (get name s.methods) m known;
                      carried = ground arith;
                      single = single_argument-eq name args arg single;
                      held = (require_scopes_iff s.identity m.scopes).0 (held ∙ ap ok e);
                      implemented = ground arith;
                      valid = valid;
                      open_at_start = ground arith;
                    })
            ]
      ]
    ]
  ],
  λ h. ground (arith, (require_scopes_iff s.identity method.scopes).1 h.held),
)
