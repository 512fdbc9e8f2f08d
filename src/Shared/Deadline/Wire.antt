-- ===== src/Shared/Deadline/Wire.antt =====
-- The wire form of a budget: decimal digits, bounded in length and clamped when they are read.
use service_plane.Prelude.{
  ℕ, zero, suc, ◌+◌, ◌/◌, ◌%◌, ◌≤◌, ◌<◌, ◌≡◌, refl, ◌∙◌, ◌⊎◌, inl, inr, true, false, Option, none,
  some, [], ◌∷◌, arith,
}
use service_plane.Prelude.Tests.{Option-cases}
use service_plane.Prelude.Lists.{length, All, All-all, is_nil}
use service_plane.Prelude.Text.{Text, trim, is_space, trim_of_no_space}
use service_plane.Prelude.Number.{JsNumber, whole}
use service_plane.Prelude.Value.{num, number_value}
use service_plane.Shared.Deadline.{
  normalize_timeout_ms, is_digit, decimal_from, decimal, number_from, serialize_timeout_ms,
  parse_timeout_ms,
}
use service_plane.Shared.Deadline.Policy.{
  IsBudget, normalize_timeout_ms-IsBudget, normalize_timeout_ms-whole,
}

-- Reading the digits of `n` and then a rest is reading the rest from `n`, where the fuel exceeds `n`.
number_from-decimal_from :
    (fuel n : ℕ) (rest : Text)
    → n < fuel
    → number_from 0 (decimal_from fuel n rest) ≡ number_from n rest
unfolding number_from decimal_from
number_from-decimal_from zero n rest h = elim h [ ]
number_from-decimal_from (suc fuel) n rest h =
    ground (arith, number_from-decimal_from fuel (n / 10) ((b'0' + n % 10) ∷ rest))

number_from-nil : (n : ℕ) → number_from n [] ≡ n
unfolding number_from
number_from-nil n = refl

decimal_from-digits :
    (fuel n : ℕ) (rest : Text)
    → All (λ c. is_digit c ≡ true) rest
    → All (λ c. is_digit c ≡ true) (decimal_from fuel n rest)
unfolding decimal_from is_digit
decimal_from-digits zero n rest h = h
decimal_from-digits (suc fuel) n rest h =
    ground (arith, decimal_from-digits fuel (n / 10) ((b'0' + n % 10) ∷ rest))

-- `n` has at most `k + 1` digits.
abbrev HasDigits : ℕ → ℕ → Type 0
HasDigits zero n = n < 10
HasDigits (suc k) n = HasDigits k (n / 10)

length-decimal_from :
    (fuel n k : ℕ) (rest : Text)
    → HasDigits k n
    → length (decimal_from fuel n rest) ≤ suc k + length rest
unfolding decimal_from
length-decimal_from zero n k rest h = omega arith
length-decimal_from (suc fuel) n zero rest h = ground arith
length-decimal_from (suc fuel) n (suc k) rest h =
    ground (arith, length-decimal_from fuel (n / 10) k ((b'0' + n % 10) ∷ rest) h)

decimal_from-not_nil :
    (fuel n : ℕ) (rest : Text)
    → is_nil rest ≡ false ⊎ (0 < fuel)
    → is_nil (decimal_from fuel n rest) ≡ false
unfolding decimal_from
decimal_from-not_nil zero n rest h = ground arith
decimal_from-not_nil (suc fuel) n rest h =
    ground (arith, decimal_from-not_nil fuel (n / 10) ((b'0' + n % 10) ∷ rest) (inl refl))

digit-not_space : (c : ℕ) → is_digit c ≡ true → is_space c ≡ false
unfolding is_digit is_space
digit-not_space c h = ground arith

digits-no_space : (s : Text) → All (λ c. is_digit c ≡ true) s → All (λ c. is_space c ≡ false) s
digits-no_space [] h = tt
digits-no_space (c ∷ s) (h, hs) = (digit-not_space c h, digits-no_space s hs)

parse_timeout_ms_of_digits :
    (s : Text) (n : ℕ)
    → All (λ c. is_digit c ≡ true) s
    → length s ≤ 12
    → is_nil s ≡ false
    → number_from 0 s ≡ n
    → IsBudget n
    → parse_timeout_ms (some s) ≡ some n
unfolding parse_timeout_ms
parse_timeout_ms_of_digits s n digits short nonempty value h = ground (
  arith,
  trim_of_no_space s (digits-no_space s digits),
  All-all is_digit s digits,
  normalize_timeout_ms-whole n h,
)

parse_timeout_ms-decimal : (n : ℕ) → IsBudget n → parse_timeout_ms (some (decimal n)) ≡ some n
unfolding decimal
parse_timeout_ms-decimal n h =
    parse_timeout_ms_of_digits (decimal_from (suc n) n []) n (decimal_from-digits (suc n) n [] tt)
      (omega (arith, length-decimal_from (suc n) n 5 [] (omega arith)))
      (decimal_from-not_nil (suc n) n [] (inr (omega arith)))
      (number_from-decimal_from (suc n) n [] (omega arith) ∙ number_from-nil n) h

-- A peer that reads what was sent has the budget that the sender would use itself: the wire form is
-- there exactly when the budget is usable, and parses to the normalised budget.
pub parse-serialize :
    (timeout : Option JsNumber)
    → parse_timeout_ms (serialize_timeout_ms timeout) ≡ normalize_timeout_ms (number_value timeout)
unfolding serialize_timeout_ms
parse-serialize timeout = elim (Option-cases (normalize_timeout_ms (number_value timeout))) [
  | inl e ↦ rw (e, serialize_timeout_ms) (unfold parse_timeout_ms in refl)
  | inr (n, e) ↦
      rw (e, serialize_timeout_ms)
        (parse_timeout_ms-decimal n (normalize_timeout_ms-IsBudget (number_value timeout) n e))
]

-- Whatever a peer sends, what is read from it is a budget of the package.
pub parse_timeout_ms-IsBudget :
    (value : Option Text) (n : ℕ) → parse_timeout_ms value ≡ some n → IsBudget n
unfolding parse_timeout_ms number_from
parse_timeout_ms-IsBudget none n h = cc
parse_timeout_ms-IsBudget (some s) n h =
    normalize_timeout_ms-IsBudget (num (whole (number_from 0 (trim s)))) n (ground arith)
