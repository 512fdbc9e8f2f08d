-- ===== src/Shared/Deadline.antt =====
-- src/shared/deadline.ts: budgets in milliseconds, their policy, their wire form and what is left of
-- them. A deadline raced against a call is in the child `Race`.
pub mod Policy
pub mod Wire
pub mod Race
use service_plane.Prelude.{
  ℕ, zero, suc, ◌+◌, ◌-◌, ◌*◌, ◌/◌, ◌%◌, min, Bool, true, false, ◌&&◌, ◌||◌, not, Option, none,
  some, List, [], ◌∷◌,
}
use service_plane.Prelude.Tests.{leb, ltb, nat_eq, if◌then◌else◌}
use service_plane.Prelude.Lists.{length, is_nil, all}
use service_plane.Prelude.Text.{Text, trim}
use service_plane.Prelude.Number.{
  JsNumber, finite, pos, negsuc, whole, is_finite, is_safe_integer, exceeds, is_below, floor_of,
}
use service_plane.Prelude.Value.{Value, num, number_value}
use service_plane.Shared.Message.{bad_timeout_policy}
use service_plane.Shared.Errors.{service_plane_error_of}
use service_plane.Shared.Result.{Result, ok, err, ◌>>=◌, ◌>>◌, require}

abbrev pub max_timeout_ms : ℕ
max_timeout_ms = 10 * 60 * 1000

-- normalizeTimeoutMs(value)
unfoldable pub normalize_timeout_ms : Value → Option ℕ
normalize_timeout_ms (num x) =
    if not (is_finite x) || not (is_safe_integer x) || not (exceeds x 0)
    then none
    else some (min (floor_of x) max_timeout_ms)
normalize_timeout_ms _ = none

pub record TimeoutPolicy : Type 0 where
  pub default_ms : Option JsNumber
  pub max_ms : Option JsNumber

-- policy?.defaultMs, policy?.maxMs
abbrev pub policy_default : Option TimeoutPolicy → Value
policy_default none = number_value none
policy_default (some p) = number_value p.default_ms

abbrev pub policy_max : Option TimeoutPolicy → Value
policy_max none = number_value none
policy_max (some p) = number_value p.max_ms

-- `a ?? b`
abbrev pub or_else {ℓ} : {A : Type ℓ} → Option A → Option A → Option A
or_else none b = b
or_else (some a) b = some a

clamped : ℕ → Option ℕ → ℕ
clamped asked none = asked
clamped asked (some max) = min asked max

clamp_asked : Option ℕ → Option ℕ → Option ℕ
unfolding clamped
clamp_asked none max = none
clamp_asked (some asked) max = some (clamped asked max)

-- resolveTimeoutMs(requested, policy)
unfoldable pub resolve_timeout_ms : Option JsNumber → Option TimeoutPolicy → Option ℕ
unfolding clamp_asked
resolve_timeout_ms requested policy =
    clamp_asked
      (or_else (normalize_timeout_ms (number_value requested))
        (normalize_timeout_ms (policy_default policy)))
      (normalize_timeout_ms (policy_max policy))

-- `normalized === value`
is_same_number : Option ℕ → JsNumber → Bool
is_same_number (some n) (finite (pos m) zero) = nat_eq n m
is_same_number _ _ = false

-- one round of the loop of `validateTimeoutPolicy`
unfoldable pub check_policy_field : Option JsNumber → Result (Unit {0})
unfolding is_same_number normalize_timeout_ms
check_policy_field none = ok tt
check_policy_field (some x) = require (is_same_number (normalize_timeout_ms (num x)) x) (
    service_plane_error_of bad_timeout_policy (whole 500)
      (record { code = none; retryable = none }))

-- validateTimeoutPolicy(policy)
unfoldable pub validate_timeout_policy : Option TimeoutPolicy → Result (Option TimeoutPolicy)
validate_timeout_policy none = ok none
validate_timeout_policy (some p) = do
  check_policy_field p.default_ms
  check_policy_field p.max_ms
  ok (some p)

-- Math.max(0, Math.floor(normalized - elapsedMs)), of a finite elapsed time that is not negative;
-- the difference is taken exactly.
abbrev left_after : ℕ → JsNumber → ℕ
left_after n (finite (pos z) (suc f)) = n - (z + 1)
left_after n (finite (pos z) zero) = n - z
left_after n _ = n

-- remainingTimeoutMs(timeoutMs, elapsedMs)
unfoldable pub remaining_timeout_ms : Option JsNumber → JsNumber → Option ℕ
remaining_timeout_ms timeout elapsed = elim (normalize_timeout_ms (number_value timeout)) [
  | none ↦ none
  | some normalized ↦
      if not (is_finite elapsed) || is_below elapsed 0
      then some normalized
      else some (left_after normalized elapsed)
]

unfoldable pub is_digit : ℕ → Bool
is_digit c = leb b'0' c && leb c b'9'

-- `String(n)` of a natural number: its decimal digits. Each round needs one unit of fuel.
unfoldable pub decimal_from : ℕ → ℕ → Text → Text
decimal_from zero n rest = rest
decimal_from (suc fuel) n rest =
    let longer = decimal_from fuel (n / 10) ((b'0' + n % 10) ∷ rest) in
    if ltb n 10 then (b'0' + n) ∷ rest else longer

unfoldable pub decimal : ℕ → Text
unfolding decimal_from
decimal n = decimal_from (suc n) n []

-- `Number(s)` of decimal digits
unfoldable pub number_from : ℕ → Text → ℕ
number_from n [] = n
number_from n (c ∷ s) = number_from (n * 10 + (c - b'0')) s

-- serializeTimeoutMs(timeoutMs)
unfoldable pub serialize_timeout_ms : Option JsNumber → Option Text
serialize_timeout_ms timeout = elim (normalize_timeout_ms (number_value timeout)) [
  | none ↦ none
  | some normalized ↦ some (decimal normalized)
]

-- parseTimeoutMs(value)
unfoldable pub parse_timeout_ms : Option Text → Option ℕ
parse_timeout_ms none = none
parse_timeout_ms (some value) =
    let trimmed = trim value in
    if is_nil trimmed || ltb 12 (length trimmed) || not (all is_digit trimmed)
    then none
    else normalize_timeout_ms (num (whole (number_from 0 trimmed)))

-- timeoutMsFromRequest(request), of what its header and its query parameter hold
unfoldable pub timeout_ms_from_request : Option Text → Option Text → Option ℕ
unfolding parse_timeout_ms
timeout_ms_from_request header query = parse_timeout_ms (or_else header query)
