-- ===== src/Shared/Deadline/Policy.antt =====
-- What the timeout policy guarantees, and how a budget runs down.
use service_plane.Prelude.{
  ℕ, zero, suc, ◌+◌, ◌-◌, ◌≤◌, ◌<◌, ◌≡◌, refl, ◌↔◌, ◌⊎◌, inl, inr, Option, none, some, arith, sym,
  ap, ◌∙◌,
}
use service_plane.Prelude.Tests.{Option-cases}
use service_plane.Prelude.Number.{
  JsNumber, nan, infinite, finite, pos, negsuc, whole, is_finite, is_safe_integer, exceeds,
  is_below, floor_of,
}
use service_plane.Prelude.Value.{Value, num, number_value}
use service_plane.Shared.Result.{ok}
use service_plane.Shared.Deadline.{
  max_timeout_ms, normalize_timeout_ms, TimeoutPolicy, policy_default, policy_max,
  resolve_timeout_ms, clamp_asked, or_else, check_policy_field, validate_timeout_policy,
  remaining_timeout_ms,
}

-- A budget that the package accepts as it stands.
abbrev pub IsBudget : ℕ → Type 0
IsBudget n = (0 < n) × (n ≤ max_timeout_ms)

pub normalize_timeout_ms-IsBudget :
    (v : Value) (n : ℕ) → normalize_timeout_ms v ≡ some n → IsBudget n
unfolding normalize_timeout_ms exceeds floor_of is_safe_integer
normalize_timeout_ms-IsBudget (num (finite (pos m) f)) n h = ground arith
normalize_timeout_ms-IsBudget (num (finite (negsuc m) f)) n h = ground arith
normalize_timeout_ms-IsBudget (num nan) n h = ground arith
normalize_timeout_ms-IsBudget (num (infinite b)) n h = ground arith
normalize_timeout_ms-IsBudget _ n h = cc

pub normalize_timeout_ms-whole :
    (n : ℕ) → IsBudget n → normalize_timeout_ms (num (whole n)) ≡ some n
unfolding normalize_timeout_ms exceeds floor_of is_safe_integer is_finite
normalize_timeout_ms-whole n h = ground arith

abbrev pub EachBudget : Option ℕ → Type 0
EachBudget none = Unit
EachBudget (some n) = IsBudget n

pub normalize_timeout_ms-EachBudget : (v : Value) → EachBudget (normalize_timeout_ms v)
normalize_timeout_ms-EachBudget v = elim (Option-cases (normalize_timeout_ms v)) [
  | inl e ↦ rw e tt
  | inr (n, e) ↦ rw e (normalize_timeout_ms-IsBudget v n e)
]

abbrev WithinCeiling : ℕ → Option ℕ → Type 0
WithinCeiling n none = Unit
WithinCeiling n (some max) = n ≤ max

clamp_asked_bounds :
    (asked max : Option ℕ) (n : ℕ)
    → EachBudget asked
    → EachBudget max
    → clamp_asked asked max ≡ some n
    → IsBudget n × WithinCeiling n max
unfolding clamp_asked
clamp_asked_bounds none max n _ _ h = cc
clamp_asked_bounds (some a) none n b _ h = ground arith
clamp_asked_bounds (some a) (some m) n b c h = ground arith

or_else-EachBudget : (a b : Option ℕ) → EachBudget a → EachBudget b → EachBudget (or_else a b)
or_else-EachBudget none b _ h = h
or_else-EachBudget (some a) b h _ = h

resolve_timeout_ms_bounds :
    (requested : Option JsNumber) (policy : Option TimeoutPolicy) (n : ℕ)
    → resolve_timeout_ms requested policy ≡ some n
    → IsBudget n × WithinCeiling n (normalize_timeout_ms (policy_max policy))
unfolding resolve_timeout_ms
resolve_timeout_ms_bounds requested policy n h =
    clamp_asked_bounds _ _ n
      (or_else-EachBudget _ _ (normalize_timeout_ms-EachBudget (number_value requested))
        (normalize_timeout_ms-EachBudget (policy_default policy)))
      (normalize_timeout_ms-EachBudget (policy_max policy)) h

-- A field of a policy passes exactly when it is absent or a whole budget.
abbrev pub IsWholeBudget : Option JsNumber → Type 0
IsWholeBudget x = (x ≡ none) ⊎ ((n : ℕ) × (x ≡ some (whole n)) × IsBudget n)

check_policy_field_sound : (x : Option JsNumber) → check_policy_field x ≡ ok tt → IsWholeBudget x
unfolding check_policy_field exceeds floor_of is_safe_integer is_finite
check_policy_field_sound none h = inl refl
check_policy_field_sound (some (finite (pos m) zero)) h = inr (m, refl, ground arith)
check_policy_field_sound (some (finite (pos m) (suc f))) h = ground arith
check_policy_field_sound (some (finite (negsuc m) f)) h = ground arith
check_policy_field_sound (some nan) h = ground arith
check_policy_field_sound (some (infinite b)) h = ground arith

check_policy_field-whole : (n : ℕ) → IsBudget n → check_policy_field (some (whole n)) ≡ ok tt
unfolding check_policy_field exceeds floor_of is_safe_integer is_finite
check_policy_field-whole n h = ground arith

check_policy_field_complete : (x : Option JsNumber) → IsWholeBudget x → check_policy_field x ≡ ok tt
check_policy_field_complete x (inl e) = rw e (unfold check_policy_field in refl)
check_policy_field_complete x (inr (n, e, h)) = rw e (check_policy_field-whole n h)

-- `validateTimeoutPolicy` accepts a policy exactly when each of its two fields is absent or a positive
-- integer of at most ten minutes.
pub validate_timeout_policy_iff :
    (p : TimeoutPolicy)
    → (validate_timeout_policy (some p) ≡ ok (some p))
      ↔ (IsWholeBudget p.default_ms × IsWholeBudget p.max_ms)
unfolding validate_timeout_policy
validate_timeout_policy_iff p = (
  λ h. (
    check_policy_field_sound p.default_ms (ground arith),
    check_policy_field_sound p.max_ms (ground arith),
  ),
  λ h. rw (check_policy_field_complete p.default_ms h.0, check_policy_field_complete p.max_ms h.1),
)

-- Under a policy that passed validation and names a ceiling, an effective budget is a budget of the
-- package and does not exceed the ceiling as the operator wrote it.
pub resolve-validated-le_ceiling :
    (requested : Option JsNumber) (p : TimeoutPolicy) (ceiling : JsNumber) (n : ℕ)
    → p.max_ms ≡ some ceiling
    → validate_timeout_policy (some p) ≡ ok (some p)
    → resolve_timeout_ms requested (some p) ≡ some n
    → IsBudget n × ((k : ℕ) × (ceiling ≡ whole k) × (n ≤ k))
resolve-validated-le_ceiling requested p ceiling n named valid h =
    let checked : IsWholeBudget p.max_ms = ((validate_timeout_policy_iff p).0 valid).1 in
    let (budget, within) = resolve_timeout_ms_bounds requested (some p) n h in
    elim checked [
      | inl absent ↦ cc
      | inr (k, e, b) ↦ (budget, (k, cc, rw (e, normalize_timeout_ms-whole k b) at within))
    ]

remaining_timeout_ms-whole :
    (budget elapsed : ℕ)
    → IsBudget budget
    → remaining_timeout_ms (some (whole budget)) (whole elapsed) ≡ some (budget - elapsed)
unfolding remaining_timeout_ms is_finite is_below
remaining_timeout_ms-whole budget elapsed h = ground (arith, normalize_timeout_ms-whole budget h)

-- Work on this hop only ever spends the budget: of a budget, two waits in a row leave what one wait of
-- their sum leaves, as long as the first leaves something.
pub remaining-remaining :
    (budget first second : ℕ)
    → IsBudget budget
    → first < budget
    → (left : ℕ) × (remaining_timeout_ms (some (whole budget)) (whole first) ≡ some left)
      × (remaining_timeout_ms (some (whole left)) (whole second)
          ≡ remaining_timeout_ms (some (whole budget)) (whole (first + second)))
remaining-remaining budget first second h k = (
  budget - first,
  remaining_timeout_ms-whole budget first h,
  remaining_timeout_ms-whole (budget - first) second (omega arith)
      ∙ ap some (omega arith)
      ∙ sym (remaining_timeout_ms-whole budget (first + second) h),
)
