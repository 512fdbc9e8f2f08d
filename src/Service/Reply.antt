-- ===== src/Service/Reply.antt =====
-- What a call on the service side gives: a value, or what is thrown, which need not be an error of the
-- program.
use service_plane.Prelude.{◌≡◌, refl, ◌⊎◌, inl, inr, Bool, true, false}
use service_plane.Prelude.Value.{Value}
use service_plane.Shared.Errors.{ServicePlaneError}
use service_plane.Shared.Result.{Result, ok, err}

-- `type_error` is one that JavaScript itself raises.
pub data Thrown : Type 0 where
  own : ServicePlaneError → Thrown
  foreign : Value → Thrown
  type_error : Thrown

pub data Reply (A : Type 0) : Type 0 where
  value : A → Reply A
  raised : Thrown → Reply A

infixl 5 ◌>>=◌
abbrev pub ◌>>=◌ : {A B : Type 0} → Reply A → (A → Reply B) → Reply B
raised t >>= next = raised t
value a >>= next = next a

infixl 5 ◌>>◌
abbrev pub ◌>>◌ : {B : Type 0} → Reply (Unit {0}) → Reply B → Reply B
first >> second = first >>= λ _. second

-- `if (!test) throw thrown`
abbrev pub check : Bool → ServicePlaneError → Reply (Unit {0})
check true thrown = value tt
check false thrown = raised (own thrown)

abbrev pub of_result : {A : Type 0} → Result A → Reply A
of_result (ok a) = value a
of_result (err e) = raised (own e)

pub Reply-cases :
    {A : Type 0} (r : Reply A) → ((a : A) × (r ≡ value a)) ⊎ ((t : Thrown) × (r ≡ raised t))
Reply-cases (value a) = inl (a, refl)
Reply-cases (raised t) = inr (t, refl)
