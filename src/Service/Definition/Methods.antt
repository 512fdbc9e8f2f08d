-- ===== src/Service/Definition/Methods.antt =====
-- What holds of the methods of an accepted ability.
use service_plane.Prelude.{
  ℕ, ◌≤◌, ◌<◌, ◌≡◌, inl, inr, Bool, true, false, Option, none, some, List, [], ◌∷◌, map, arith,
}
use service_plane.Prelude.Lists.{All, is_nil}
use service_plane.Prelude.Text.{Text, text, In, includes, includes_iff}
use service_plane.Prelude.Number.{
  JsNumber, nan, infinite, finite, pos, negsuc, is_integer, is_safe_integer, exceeds, is_below,
  floor_of,
}
use service_plane.Prelude.Value.{Value, is_record}
use service_plane.Shared.Result.{ok, Result-cases}
use service_plane.Service.Definition.Rest.{
  IsRestOption, normalize_rest-IsRestOption, ability_json_schema-record,
}
use service_plane.Service.Definition.Keys.{Distinct, Fresh, Distinct-cons, Fresh-cons}
use service_plane.Service.Declared.{
  validate_method_scopes, ability_json_schema, schema_resource_id, resolve_method_timeout_ms,
  max_method_timeout_ms,
}
use service_plane.Service.Definition.{
  DeclaredMethod, NormalizedMethod, normalize_method, normalize_methods_from, method_timeout,
  normalize_rest, normalize_mcp_prompt, normalize_mcp_resource,
}

abbrev pub method_name : NormalizedMethod → Text
method_name m = m.name

abbrev pub IsTimeout : Option ℕ → Type 0
IsTimeout none = Unit
IsTimeout (some ms) = (0 < ms) × (ms ≤ max_method_timeout_ms)

validate_method_scopes-In :
    (name : Text) (scopes ability_scopes : List Text)
    → validate_method_scopes name scopes ability_scopes ≡ ok tt
    → All (λ scope. In scope ability_scopes) scopes
unfolding validate_method_scopes
validate_method_scopes-In name [] ability_scopes h = tt
validate_method_scopes-In name (scope ∷ scopes) ability_scopes h =
    ground (
      arith,
      includes_iff ability_scopes scope,
      validate_method_scopes-In name scopes ability_scopes,
    )

resolve_method_timeout_ms-IsTimeout :
    (declared : Option JsNumber) (service_default resolved : Option ℕ)
    → IsTimeout service_default
    → resolve_method_timeout_ms declared service_default ≡ ok resolved
    → IsTimeout resolved
unfolding resolve_method_timeout_ms is_safe_integer is_integer exceeds is_below floor_of
resolve_method_timeout_ms-IsTimeout none d r k h = ground arith
resolve_method_timeout_ms-IsTimeout (some nan) d r k h = ground arith
resolve_method_timeout_ms-IsTimeout (some (infinite b)) d r k h = ground arith
resolve_method_timeout_ms-IsTimeout (some (finite (pos n) f)) d r k h = ground arith
resolve_method_timeout_ms-IsTimeout (some (finite (negsuc n) f)) d r k h = ground arith

module _ (reserved_member : Text → Bool) (root_properties : Value → Option (List Text))
    (encode : Text → Text) (service_id ability_id : Text) (ability_scopes : List Text)
    (known : Option (List Text)) (require_scopes : Bool) (service_default : Option ℕ) where
  -- Its scopes are among the ability's, and not none where scopes are required; where it streams it has
  -- no single-response projection and no timeout, and else its timeout is one that a timer can keep.
  pub record IsSoundMethod (m : NormalizedMethod) : Type 0 where
    pub declared : All (λ scope. In scope ability_scopes) m.scopes
    pub scoped : (require_scopes ≡ true) → (is_nil m.scopes ≡ false)
    pub projected :
        (m.stream ≡ true)
        → (m.rest ≡ none) × (m.mcp_prompt ≡ none) × (m.mcp_resource ≡ none) × (m.timeout_ms ≡ none)
    pub bounded : IsTimeout m.timeout_ms
    pub input_rendered : is_record m.input_schema ≡ true
    pub output_rendered : is_record m.output_schema ≡ true
    pub routed : IsRestOption reserved_member root_properties encode m.input_schema m.rest

  method_timeout-IsTimeout :
      (stream : Bool) (declared : Option JsNumber) (resolved : Option ℕ)
      → IsTimeout service_default
      → method_timeout reserved_member root_properties encode stream declared service_default
        ≡ ok resolved
      → IsTimeout resolved
  unfolding method_timeout
  method_timeout-IsTimeout true declared resolved k h = ground arith
  method_timeout-IsTimeout false declared resolved k h =
      resolve_method_timeout_ms-IsTimeout declared service_default resolved k h

  module _ (seen : List Text) (key : Text) (method : DeclaredMethod) (m : NormalizedMethod)
      (accepted : normalize_method reserved_member root_properties encode service_id ability_id
          ability_scopes known require_scopes service_default seen key method
        ≡ ok m) where
    unprojected :
        m.stream ≡ true
        → (m.rest ≡ none) × (m.mcp_prompt ≡ none) × (m.mcp_resource ≡ none) × (m.timeout_ms ≡ none)
    unfolding normalize_method normalize_rest normalize_mcp_prompt normalize_mcp_resource
        method_timeout
    unprojected streams = ground arith

    timeout_ms-IsTimeout : IsTimeout service_default → IsTimeout m.timeout_ms
    unfolding normalize_method
    timeout_ms-IsTimeout k =
        ground (arith, method_timeout-IsTimeout method.stream method.timeout_ms m.timeout_ms k)

    scopes-validated : validate_method_scopes m.name m.scopes ability_scopes ≡ ok tt
    unfolding normalize_method
    scopes-validated = ground arith

    scopes-ne-nil : require_scopes ≡ true → is_nil m.scopes ≡ false
    unfolding normalize_method
    scopes-ne-nil k = ground arith

    name_fresh : includes seen m.name ≡ false
    unfolding normalize_method
    name_fresh = ground arith

    input-rendered :
        ability_json_schema method.input
          (schema_resource_id encode service_id ability_id m.name (text "input"))
        ≡ ok m.input_schema
    unfolding normalize_method
    input-rendered = ground arith

    output-rendered :
        ability_json_schema method.output
          (schema_resource_id encode service_id ability_id m.name (text "output"))
        ≡ ok m.output_schema
    unfolding normalize_method
    output-rendered = ground arith

    rest-normalized :
        normalize_rest reserved_member root_properties encode service_id ability_id m.name
          m.input_schema method.rest
        ≡ ok m.rest
    unfolding normalize_method
    rest-normalized = ground arith

    normalize_method-IsSoundMethod : IsTimeout service_default → IsSoundMethod m
    normalize_method-IsSoundMethod k = record {
      declared = validate_method_scopes-In m.name m.scopes ability_scopes scopes-validated;
      scoped = scopes-ne-nil;
      projected = unprojected;
      bounded = timeout_ms-IsTimeout k;
      input_rendered = ability_json_schema-record _ _ m.input_schema input-rendered;
      output_rendered = ability_json_schema-record _ _ m.output_schema output-rendered;
      routed =
          normalize_rest-IsRestOption reserved_member root_properties encode service_id ability_id
            m.name m.input_schema method.rest m.rest rest-normalized;
    }

  -- Methods whose names are different from one another and from those of `seen`.
  abbrev pub AreMethods : List Text → List NormalizedMethod → Type 0
  AreMethods seen ms =
      All IsSoundMethod ms × Distinct (map method_name ms) × Fresh method_name seen ms

  pub normalize_methods-AreMethods :
      (seen : List Text) (declared : List (Text × DeclaredMethod)) (ms : List NormalizedMethod)
      → IsTimeout service_default
      → normalize_methods_from reserved_member root_properties encode service_id ability_id
          ability_scopes known require_scopes service_default seen declared
        ≡ ok ms
      → AreMethods seen ms
  unfolding normalize_methods_from
  normalize_methods-AreMethods seen [] ms k h =
      let e : [] ≡ ms = ground arith in rw (← e) (tt, tt, tt)
  normalize_methods-AreMethods seen ((key, method) ∷ declared) ms k h =
      elim (Result-cases (
        normalize_method reserved_member root_properties encode service_id ability_id ability_scopes
          known require_scopes service_default seen key method)) [
            | inr (e, refused) ↦ absurd (ground arith)
            | inl (m, accepted) ↦
                elim (Result-cases (
                  normalize_methods_from reserved_member root_properties encode service_id
                    ability_id ability_scopes known require_scopes service_default (m.name ∷ seen)
                    declared)) [
                      | inr (e, refused) ↦ absurd (ground arith)
                      | inl (rest, later) ↦
                          let e : m ∷ rest ≡ ms = ground arith in
                          let (all, distinct, fresh) =
                            normalize_methods-AreMethods (m.name ∷ seen) declared rest k later in
                          rw (← e) (
                            (normalize_method-IsSoundMethod seen key method m accepted k, all),
                            Distinct-cons method_name seen m rest distinct fresh,
                            Fresh-cons method_name seen m rest
                                (name_fresh seen key method m accepted) fresh,
                          )
                    ]
          ]
