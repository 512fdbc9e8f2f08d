-- ===== src/Shared/Result.antt =====
-- What a function that may throw returns: its value, or the error that it throws.
use service_plane.Prelude.{List, [], ◌∷◌, ◌≡◌, refl, Bool, true, false, ◌⊎◌, inl, inr}
use service_plane.Shared.Errors.{ServicePlaneError}

pub data Result {ℓ} (Value : Type ℓ) : Type ℓ where
  ok : Value → Result Value
  err : ServicePlaneError → Result Value

-- `if (!test) throw thrown`
abbrev pub require : Bool → ServicePlaneError → Result (Unit {0})
require false thrown = err thrown
require true thrown = ok tt

-- What follows a call that may throw.
infixl 5 ◌>>=◌
abbrev pub ◌>>=◌ {ℓ ℓ'} : {V : Type ℓ} {W : Type ℓ'} → Result V → (V → Result W) → Result W
err thrown >>= next = err thrown
ok value >>= next = next value

infixl 5 ◌>>◌
abbrev pub ◌>>◌ {ℓ} : {W : Type ℓ} → Result (Unit {0}) → Result W → Result W
first >> second = first >>= λ _. second

-- To split on what a call returns and keep the equation.
pub Result-cases {ℓ} :
    {A : Type ℓ} (r : Result A) → ((a : A) × (r ≡ ok a)) ⊎ ((e : ServicePlaneError) × (r ≡ err e))
Result-cases (ok a) = inl (a, refl)
Result-cases (err e) = inr (e, refl)

-- `xs.map(f)`, where `f` may throw
unfoldable pub map_ok {ℓ κ} : {A : Type ℓ} {B : Type κ} → (A → Result B) → List A → Result (List B)
map_ok f [] = ok []
map_ok f (x ∷ xs) = do y ← f x; ys ← map_ok f xs; ok (y ∷ ys)
