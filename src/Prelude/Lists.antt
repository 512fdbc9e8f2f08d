-- ===== src/Prelude/Lists.antt =====
-- Lists measured by native numbers, tests and predicates over them.
use Prim.Native.Nat.{ℕ, suc, ◌+◌, ◌≤◌}
use mathlib.Core.Logic.{◌⊎◌, inl, inr}
use mathlib.Core.Path.{◌≡◌, refl}
use mathlib.Core.Bool.{Bool, true, false, ◌&&◌, ◌||◌}
use mathlib.Core.List.{List, [], ◌∷◌, ◌++◌}
use mathlib.Core.Option.{Option, none, some}
use native.Mathlib.Omega.{arith}
use service_plane.Prelude.Tests.{Bool-cases, if◌then◌else◌}

module _ {ℓ} {A : Type ℓ} where
  abbrev pub length : List A → ℕ
  length [] = 0
  length (x ∷ xs) = suc (length xs)

  abbrev pub is_nil : List A → Bool
  is_nil [] = true
  is_nil (x ∷ xs) = false

  abbrev pub head? : List A → Option A
  head? [] = none
  head? (x ∷ xs) = some x

  pub length-append : (xs ys : List A) → length (xs ++ ys) ≡ length xs + length ys
  length-append [] ys = omega arith
  length-append (x ∷ xs) ys = omega (arith, length-append xs ys)

module _ {ℓ} {A : Type ℓ} (p : A → Bool) where
  -- `xs.every(p)`
  unfoldable pub all : List A → Bool
  all [] = true
  all (x ∷ xs) = p x && all xs

  -- `xs.some(p)`
  unfoldable pub any : List A → Bool
  any [] = false
  any (x ∷ xs) = p x || any xs

  -- `xs.filter(p)`
  unfoldable pub filter : List A → List A
  filter [] = []
  filter (x ∷ xs) = let rest = filter xs in if p x then x ∷ rest else rest

  -- `xs.find(p)`
  unfoldable pub find? : List A → Option A
  find? [] = none
  find? (x ∷ xs) = if p x then some x else find? xs

  unfoldable pub drop_while : List A → List A
  drop_while [] = []
  drop_while (x ∷ xs) = if p x then drop_while xs else x ∷ xs

  -- The list without the longest end that satisfies `p`.
  unfoldable pub drop_while_end : List A → List A
  drop_while_end [] = []
  drop_while_end (x ∷ xs) =
      let rest = drop_while_end xs in if is_nil rest && p x then [] else x ∷ rest

-- Every element, as a type that computes on the list.
module _ {ℓ κ} {A : Type ℓ} where
  abbrev pub All : (A → Type κ) → List A → Type κ
  All P [] = Unit
  All P (x ∷ xs) = P x × All P xs

abbrev pub Among : {A : Type 0} → A → List A → Type 0
Among x [] = ⊥
Among x (y ∷ ys) = (y ≡ x) ⊎ Among x ys

module _ {ℓ} {A : Type ℓ} where
  pub All-append {κ} : (P : A → Type κ) (xs ys : List A) → All P xs → All P ys → All P (xs ++ ys)
  All-append P [] ys hs ks = ks
  All-append P (x ∷ xs) ys (h, hs) ks = (h, All-append P xs ys hs ks)

  pub All-mono {κ ι} :
      (P : A → Type κ) (Q : A → Type ι) (xs : List A) → ((x : A) → P x → Q x) → All P xs → All Q xs
  All-mono P Q [] f hs = tt
  All-mono P Q (x ∷ xs) f (h, hs) = (f x h, All-mono P Q xs f hs)

module _ {ℓ} {A : Type ℓ} (p : A → Bool) where
  pub all-All : (xs : List A) → all p xs ≡ true → All (λ x. p x ≡ true) xs
  unfolding all
  all-All [] h = tt
  all-All (x ∷ xs) h = (ground arith, all-All xs (ground arith))

  pub All-all : (xs : List A) → All (λ x. p x ≡ true) xs → all p xs ≡ true
  unfolding all
  All-all [] h = refl
  All-all (x ∷ xs) (h, hs) = ground (arith, All-all xs hs)

  pub drop_while_end-nil_or_head :
      (x : A) (xs : List A) → p x ≡ false → head? (drop_while_end p (x ∷ xs)) ≡ some x
  unfolding drop_while_end
  drop_while_end-nil_or_head x xs h = ground arith

  pub drop_while_idem : (xs : List A) → drop_while p (drop_while p xs) ≡ drop_while p xs
  unfolding drop_while
  drop_while_idem [] = refl
  drop_while_idem (x ∷ xs) = ground (arith, drop_while_idem xs)

  pub drop_while_end_idem :
      (xs : List A) → drop_while_end p (drop_while_end p xs) ≡ drop_while_end p xs
  unfolding drop_while_end
  drop_while_end_idem [] = refl
  drop_while_end_idem (x ∷ xs) = ground (arith, drop_while_end_idem xs)

  pub drop_while-drop_while_end :
      (xs : List A)
      → drop_while p (drop_while_end p (drop_while p xs)) ≡ drop_while_end p (drop_while p xs)
  unfolding drop_while drop_while_end
  drop_while-drop_while_end [] = refl
  drop_while-drop_while_end (x ∷ xs) = ground (arith, drop_while-drop_while_end xs)

  pub length-drop_while : (xs : List A) → length (drop_while p xs) ≤ length xs
  unfolding drop_while
  length-drop_while [] = omega arith
  length-drop_while (x ∷ xs) = ground (arith, length-drop_while xs)

  pub length-drop_while_end : (xs : List A) → length (drop_while_end p xs) ≤ length xs
  unfolding drop_while_end
  length-drop_while_end [] = omega arith
  length-drop_while_end (x ∷ xs) = ground (arith, length-drop_while_end xs)

-- What a search finds passes its test.
pub find?-holds {ℓ} :
    {A : Type ℓ} (p : A → Bool) (xs : List A) (x : A) → find? p xs ≡ some x → p x ≡ true
unfolding find?
find?-holds p [] x h = cc
find?-holds p (y ∷ xs) x h = elim (Bool-cases (p y)) [
  | inl found ↦ ground (arith, found)
  | inr other ↦ find?-holds p xs x (ground (arith, other))
]
