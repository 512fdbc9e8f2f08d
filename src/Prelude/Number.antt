-- ===== src/Prelude/Number.antt =====
-- JavaScript's `number`, as far as the program observes it: it only compares numbers with integers,
-- asks whether they are finite, integers or safe integers, and rounds them down. Every finite number
-- is a multiple of 2^-1074, so it is its floor and its fraction, counted in these units; -0 is 0.
use service_plane.Prelude.{
  ℕ, suc, ◌-◌, ◌^◌, ◌+◌, ◌≤◌, ◌<◌, ◌≡◌, refl, inl, inr, Bool, true, false, ◌&&◌, ◌||◌, not, arith,
}
use service_plane.Prelude.Tests.{leb, ltb, nat_eq, if◌then◌else◌, Bool-cases}

-- `negsuc n` is -(n + 1).
pub data ℤ : Type 0 where
  pos : ℕ → ℤ
  negsuc : ℕ → ℤ

-- `infinite true` is -∞.
pub data JsNumber : Type 0 where
  nan : JsNumber
  infinite : Bool → JsNumber
  finite : ℤ → ℕ → JsNumber

abbrev pub max_safe_integer : ℕ
max_safe_integer = 2 ^ 53 - 1

-- `n` as a number
abbrev pub whole : ℕ → JsNumber
whole n = finite (pos n) 0

unfoldable pub is_finite : JsNumber → Bool
is_finite (finite z f) = true
is_finite _ = false

unfoldable pub is_integer : JsNumber → Bool
is_integer (finite z f) = nat_eq f 0
is_integer _ = false

unfoldable pub is_safe_integer : JsNumber → Bool
is_safe_integer (finite (pos n) f) = nat_eq f 0 && leb n max_safe_integer
is_safe_integer (finite (negsuc n) f) = nat_eq f 0 && ltb n max_safe_integer
is_safe_integer _ = false

-- `x > n`
unfoldable pub exceeds : JsNumber → ℕ → Bool
exceeds nan n = false
exceeds (infinite negative) n = not negative
exceeds (finite (pos m) f) n = ltb n m || leb n m && ltb 0 f
exceeds (finite (negsuc m) f) n = false

-- `x < n`
unfoldable pub is_below : JsNumber → ℕ → Bool
is_below nan n = false
is_below (infinite negative) n = negative
is_below (finite (pos m) f) n = ltb m n
is_below (finite (negsuc m) f) n = true

-- The natural number that `Math.floor(x)` is, where `x` is finite and not negative.
unfoldable pub floor_of : JsNumber → ℕ
floor_of (finite (pos m) f) = m
floor_of _ = 0

-- `x <= n`, which is false of a number that is not one
unfoldable pub at_most : JsNumber → ℕ → Bool
unfolding exceeds
at_most nan n = false
at_most x n = not (exceeds x n)

ltb_ℤ : ℤ → ℤ → Bool
ltb_ℤ (pos a) (pos b) = ltb a b
ltb_ℤ (pos a) (negsuc b) = false
ltb_ℤ (negsuc a) (pos b) = true
ltb_ℤ (negsuc a) (negsuc b) = ltb b a

eq_ℤ : ℤ → ℤ → Bool
eq_ℤ (pos a) (pos b) = nat_eq a b
eq_ℤ (negsuc a) (negsuc b) = nat_eq a b
eq_ℤ _ _ = false

-- a - b
abbrev pub sub_ℕ : ℕ → ℕ → ℤ
sub_ℕ a b = if leb b a then pos (a - b) else negsuc (b - a - 1)

add_ℕ : ℤ → ℕ → ℤ
add_ℕ (pos a) n = pos (a + n)
add_ℕ (negsuc a) n = sub_ℕ n (suc a)

-- `x <= z`, of an integer `z`
unfoldable pub at_most_ℤ : JsNumber → ℤ → Bool
unfolding ltb_ℤ eq_ℤ
at_most_ℤ nan z = false
at_most_ℤ (infinite negative) z = negative
at_most_ℤ (finite m f) z = ltb_ℤ m z || eq_ℤ m z && nat_eq f 0

-- `x <= y`
unfoldable pub at_most_number : JsNumber → JsNumber → Bool
unfolding ltb_ℤ eq_ℤ
at_most_number nan y = false
at_most_number x nan = false
at_most_number (infinite true) y = true
at_most_number (infinite false) (infinite negative) = not negative
at_most_number (infinite false) (finite z f) = false
at_most_number (finite z f) (infinite negative) = not negative
at_most_number (finite a f) (finite b g) = ltb_ℤ a b || eq_ℤ a b && leb f g

-- `x - y > n`; the difference is taken exactly.
unfoldable pub exceeds_by : JsNumber → JsNumber → ℕ → Bool
unfolding ltb_ℤ eq_ℤ add_ℕ
exceeds_by nan y n = false
exceeds_by x nan n = false
exceeds_by (infinite negative) (infinite other) n = not negative && other
exceeds_by (infinite negative) (finite b g) n = not negative
exceeds_by (finite a f) (infinite negative) n = negative
exceeds_by (finite a f) (finite b g) n = ltb_ℤ (add_ℕ b n) a || eq_ℤ (add_ℕ b n) a && ltb g f

pub whole-finite : (n : ℕ) → is_finite (whole n) ≡ true
unfolding is_finite
whole-finite n = refl

pub exceeds-whole : (n m : ℕ) → n ≤ m → exceeds (whole n) m ≡ false
unfolding exceeds
exceeds-whole n m h = ground arith

pub at_most_ℤ-sub_ℕ : (e n k : ℕ) → n < e + k → at_most_ℤ (whole e) (sub_ℕ n k) ≡ false
unfolding at_most_ℤ ltb_ℤ eq_ℤ
at_most_ℤ-sub_ℕ e n k h = elim (Bool-cases (leb k n)) [
  | inl reached ↦ rw reached (ground arith)
  | inr below ↦ rw below refl
]

pub at_most_number-whole : (e s : ℕ) → s < e → at_most_number (whole e) (whole s) ≡ false
unfolding at_most_number ltb_ℤ eq_ℤ
at_most_number-whole e s h = ground arith

pub exceeds_by-whole : (s t m : ℕ) → t ≤ m → exceeds_by (whole (s + t)) (whole s) m ≡ false
unfolding exceeds_by ltb_ℤ eq_ℤ add_ℕ
exceeds_by-whole s t m h = ground arith
