-- ===== src/Broker/Budget.antt =====
-- What is left of a caller's budget when a session is opened.
use service_plane.Prelude.{
  ℕ, ◌-◌, ◌<◌, ◌≡◌, refl, subst, inl, inr, false, Option, none, some, arith,
}
use service_plane.Prelude.Tests.{leb, Option-cases, Bool-cases}
use service_plane.Prelude.Number.{JsNumber, finite, sub_ℕ, is_finite, is_below}
use service_plane.Prelude.Value.{number_value}
use service_plane.Shared.Deadline.{normalize_timeout_ms, remaining_timeout_ms}
use service_plane.Shared.Deadline.Policy.{EachBudget, normalize_timeout_ms-whole}
use service_plane.Broker.Connect.{is_exhausted, as_option}

-- What a session has of a budget, where there is one: what the time that has passed leaves of it, which is
-- something.
abbrev pub WithinBudget : Option ℕ → ℕ → Option ℕ → Type 0
WithinBudget none elapsed left = left ≡ none
WithinBudget (some n) elapsed left = (elapsed < n) × (left ≡ some (n - elapsed))

as_option-normal :
    (asked : Option ℕ)
    → EachBudget asked
    → normalize_timeout_ms (number_value (as_option asked)) ≡ asked
unfolding normalize_timeout_ms
as_option-normal none b = refl
as_option-normal (some n) b = unfold normalize_timeout_ms in normalize_timeout_ms-whole n b

module _ (timeout : Option JsNumber) (received now : ℕ) where
  abbrev left_of : Option ℕ
  left_of = remaining_timeout_ms timeout (finite (sub_ℕ now received) 0)

  remaining_timeout_ms-left :
      (n : ℕ)
      → normalize_timeout_ms (number_value timeout) ≡ some n
      → left_of ≡ some (n - (now - received))
  unfolding remaining_timeout_ms is_finite is_below
  remaining_timeout_ms-left n e = elim (Bool-cases (leb received now)) [
    | inl later ↦ rw later (ground (arith, e, later))
    | inr earlier ↦ rw earlier (ground (arith, e, earlier))
  ]

  remaining_timeout_ms-none : normalize_timeout_ms (number_value timeout) ≡ none → left_of ≡ none
  unfolding remaining_timeout_ms
  remaining_timeout_ms-none e = ground (arith, e)

  pub remaining-WithinBudget :
      is_exhausted left_of ≡ false
      → WithinBudget (normalize_timeout_ms (number_value timeout)) (now - received) left_of
  unfolding is_exhausted
  remaining-WithinBudget h = elim (Option-cases (normalize_timeout_ms (number_value timeout))) [
    | inl e ↦ rw e (remaining_timeout_ms-none e)
    | inr (n, e) ↦
        let left = remaining_timeout_ms-left n e in rw e (ground (arith, rw left at h), left)
  ]

pub normal-WithinBudget :
    (asked : Option ℕ) (received now : ℕ)
    → EachBudget asked
    → is_exhausted (remaining_timeout_ms (as_option asked) (finite (sub_ℕ now received) 0)) ≡ false
    → WithinBudget asked
        (now - received)
        (remaining_timeout_ms (as_option asked) (finite (sub_ℕ now received) 0))
normal-WithinBudget asked received now b h =
    let within = remaining-WithinBudget (as_option asked) received now h in
    subst
      (λ n.
        WithinBudget n (now - received)
          (remaining_timeout_ms (as_option asked) (finite (sub_ℕ now received) 0)))
      (as_option-normal asked b) within
