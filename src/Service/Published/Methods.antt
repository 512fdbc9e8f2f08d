-- ===== src/Service/Published/Methods.antt =====
-- The methods of an accepted service are published as the registry accepts them.
use service_plane.Prelude.{
  ℕ, ◌≡◌, refl, Bool, true, false, ◌&&◌, ◌||◌, not, Option, none, some, List, [], ◌∷◌, arith,
}
use service_plane.Prelude.Lists.{All, all}
use service_plane.Prelude.Text.{Text, text, ◌==◌, includes}
use service_plane.Prelude.Number.{is_integer, is_safe_integer, exceeds, is_below}
use service_plane.Prelude.Value.{
  Value, str, elements, prop, own, is_record, is_undefined, is_string,
}
use service_plane.Shared.Catalog.{
  ServiceHttpMethod, http_delete, http_get, http_patch, http_post, http_put, http_query,
}
use service_plane.Shared.Paths.{normalize_path}
use service_plane.Registry.{
  is_true, is_array_of, is_text_with, is_http_method, is_optional, is_success_status,
  is_positive_integer, variables_known, is_valid_rest_discovery, is_ability_method_discovery,
}
use service_plane.Service.Definition.{RestProjection, NormalizedMethod}
use service_plane.Service.Definition.Rest.{IsRest, IsRestOption, IsSuccessStatus}
use service_plane.Service.Definition.Methods.{IsSoundMethod, IsTimeout}
use service_plane.Service.Published.{
  array_of, optional, mcp_value, prompt_value, resource_value, flag_value, http_method_text,
  texts_value, natural_value, rest_value, method_value,
}

pub all-array :
    {A : Type 0} (value_of : A → Value) (p : Value → Bool) (xs : List A)
    → All (λ x. p (value_of x) ≡ true) xs
    → all p (elements (array_of value_of xs)) ≡ true
unfolding all
all-array value_of p [] h = refl
all-array value_of p (x ∷ xs) (h, hs) = ground (arith, all-array value_of p xs hs)

all_strings : (ts : List Text) → All (λ t. is_string (str t) ≡ true) ts
unfolding is_string
all_strings [] = tt
all_strings (t ∷ ts) = (refl, all_strings ts)

pub texts-strings : (ts : List Text) → is_array_of is_string (texts_value ts) ≡ true
unfolding is_array_of
texts-strings ts = all-array str is_string ts (all_strings ts)

status-success :
    (status : Option ℕ)
    → IsSuccessStatus status
    → is_optional is_success_status (optional natural_value status) ≡ true
unfolding is_optional is_undefined is_success_status is_integer is_below exceeds
status-success none h = refl
status-success (some n) h = ground arith

timeout-positive :
    (stream : Bool) (ms : Option ℕ)
    → IsTimeout ms
    → is_optional is_positive_integer (optional natural_value ms) ≡ true
unfolding is_optional is_undefined is_positive_integer is_safe_integer exceeds
timeout-positive stream none h = refl
timeout-positive stream (some n) h = ground arith

method-http : (m : ServiceHttpMethod) → is_http_method (str (http_method_text m)) ≡ true
unfolding is_http_method ◌==◌
method-http http_delete = refl
method-http http_get = refl
method-http http_patch = refl
method-http http_post = refl
method-http http_put = refl
method-http http_query = refl

tags-strings :
    (tags : Option (List Text))
    → is_optional (is_array_of is_string) (optional texts_value tags) ≡ true
unfolding is_optional is_undefined
tags-strings none = refl
tags-strings (some ts) = ground (arith, texts-strings ts)

module _ (reserved_member : Text → Bool) (root_properties : Value → Option (List Text))
    (encode : Text → Text) (reserved : List Text) where
  -- No route of the plane itself is published.
  abbrev pub IsUnreserved : Option RestProjection → Type 0
  IsUnreserved none = Unit
  IsUnreserved (some rest) = includes reserved (normalize_path rest.path) ≡ false

  rest-IsValid :
      (input_schema : Value) (rest : RestProjection)
      → IsRest reserved_member root_properties encode input_schema rest
      → includes reserved (normalize_path rest.path) ≡ false
      → is_valid_rest_discovery root_properties reserved (rest_value rest) input_schema ≡ true
  unfolding is_valid_rest_discovery prop own ◌==◌ is_record is_text_with is_string is_undefined
      is_optional variables_known
  rest-IsValid input_schema rest h u = ground (
    arith,
    method-http rest.method,
    tags-strings rest.tags,
    status-success rest.status h.successful,
  )

  rest-IsOptional :
      (input_schema : Value) (rest : Option RestProjection)
      → IsRestOption reserved_member root_properties encode input_schema rest
      → IsUnreserved rest
      → is_optional
          (λ r. is_valid_rest_discovery root_properties reserved r input_schema)
          (optional rest_value rest)
        ≡ true
  unfolding is_optional is_undefined
  rest-IsOptional input_schema none h u = refl
  rest-IsOptional input_schema (some rest) h u = ground (arith, rest-IsValid input_schema rest h u)

  mcp-IsOptional :
      (mcp : Option Text)
      → is_optional (λ v. is_record v && is_string (prop (text "name") v)) (optional mcp_value mcp)
        ≡ true
  unfolding is_optional is_undefined is_record is_string prop own ◌==◌
  mcp-IsOptional none = refl
  mcp-IsOptional (some name) = refl

  idempotent-IsOptional : (b : Bool) → is_optional is_true (flag_value b) ≡ true
  unfolding is_optional is_undefined is_true
  idempotent-IsOptional true = refl
  idempotent-IsOptional false = refl

  timeout-IsOptional :
      (stream : Bool) (ms : Option ℕ)
      → IsTimeout ms
      → ((stream ≡ true) → (ms ≡ none))
      → is_optional
          (λ v. is_positive_integer v && not (is_true (flag_value stream)))
          (optional natural_value ms)
        ≡ true
  unfolding is_optional is_undefined is_true
  timeout-IsOptional stream none t h = refl
  timeout-IsOptional true (some n) t h = absurd (ground (arith, h refl))
  timeout-IsOptional false (some n) t h = ground (arith, timeout-positive false (some n) t)

  -- A streaming method has none of the three projections.
  bare : Bool → Option (Text × List Text) → Option (Text × Text) → Option RestProjection → Bool
  bare stream prompt resource rest =
      not (is_true (flag_value stream))
      || is_undefined (optional prompt_value prompt)
        && is_undefined (optional resource_value resource)
        && is_undefined (optional rest_value rest)

  bare_of :
      (stream : Bool) (prompt : Option (Text × List Text)) (resource : Option (Text × Text))
      (rest : Option RestProjection)
      → ((stream ≡ true) → (rest ≡ none) × (prompt ≡ none) × (resource ≡ none))
      → bare stream prompt resource rest ≡ true
  unfolding bare is_true is_undefined
  bare_of false prompt resource rest h = refl
  bare_of true prompt resource rest h = let k = h refl in rw (k.0, k.1, k.2) refl

  module _ (service_id ability_id : Text) (ability_scopes : List Text) (known : Option (List Text))
      (require_scopes : Bool) (service_default : Option ℕ) where
    pub method-IsAccepted :
        (m : NormalizedMethod)
        → IsSoundMethod reserved_member root_properties encode service_id ability_id ability_scopes
            known require_scopes service_default m
        → IsUnreserved m.rest
        → is_ability_method_discovery root_properties reserved (method_value m) ≡ true
    unfolding is_ability_method_discovery method_value prop own ◌==◌ is_record bare
    method-IsAccepted m h u = ground (
      arith,
      texts-strings m.scopes,
      h.input_rendered,
      h.output_rendered,
      idempotent-IsOptional m.stream,
      idempotent-IsOptional m.idempotent,
      timeout-IsOptional m.stream m.timeout_ms h.bounded (λ s. (h.projected s).3),
      bare_of m.stream m.mcp_prompt m.mcp_resource m.rest
          (λ s. let k = h.projected s in (k.0, k.1, k.2)),
      rest-IsOptional m.input_schema m.rest h.routed u,
      mcp-IsOptional m.mcp,
    )
