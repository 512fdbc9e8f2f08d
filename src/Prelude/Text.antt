-- ===== src/Prelude/Text.antt =====
-- Text as JavaScript holds it: the list of its UTF-16 code units. `.length` is the length.
use Prim.Native.Nat.{ℕ}
use Prim.Native.Char.{code}
use Prim.Native.String.{String}
use mathlib.Core.Path.{◌≡◌, refl}
use mathlib.Core.Logic.{◌↔◌, ◌⊎◌, inl, inr}
use mathlib.Core.Option.{none}
use mathlib.Core.Bool.{Bool, true, false, ◌&&◌, ◌||◌, not}
use mathlib.Core.List.{List, [], ◌∷◌, reverse}
use native.Mathlib.Omega.{arith}
use service_plane.Prelude.Tests.{nat_eq, leb, Bool-cases, if◌then◌else◌}
use service_plane.Prelude.Lists.{
  All, find?, filter, drop_while, drop_while_end, drop_while_end_idem, drop_while-drop_while_end,
}

abbrev pub Text : Type 0
Text = List ℕ

-- A literal of ASCII characters.
abbrev pub text : String → Text
text String.[] = []
text (String.◌∷◌ c s) = code c ∷ text s

infix 50 ◌==◌
-- `a === b` on strings
unfoldable pub ◌==◌ : Text → Text → Bool
[] == [] = true
(c ∷ s) == (d ∷ t) = nat_eq c d && s == t
_ == _ = false

pub eq_iff : (s t : Text) → ((s == t) ≡ true) ↔ (s ≡ t)
unfolding ◌==◌
eq_iff [] [] = ground arith
eq_iff (c ∷ s) (d ∷ t) = ground (arith, eq_iff s t)
eq_iff _ _ = ground arith

pub eq_refl : (s : Text) → (s == s) ≡ true
eq_refl s = (eq_iff s s).1 refl

module _ where
  -- `xs.includes(s)`, and `set.has(s)`
  unfoldable pub includes : List Text → Text → Bool
  includes [] s = false
  includes (x ∷ xs) s = x == s || includes xs s

  -- WhiteSpace and LineTerminator of ECMAScript, which `trim` and `\s` share.
  unfoldable pub is_space : ℕ → Bool
  is_space c =
      leb 9 c && leb c 13
      || nat_eq c 32
      || nat_eq c 0xa0
      || nat_eq c 0x1680
      || leb 0x2000 c && leb c 0x200a
      || leb 0x2028 c && leb c 0x2029
      || nat_eq c 0x202f
      || nat_eq c 0x205f
      || nat_eq c 0x3000
      || nat_eq c 0xfeff

  -- `s.trim()`
  unfoldable pub trim : Text → Text
  unfolding drop_while drop_while_end is_space
  trim s = drop_while_end is_space (drop_while is_space s)

-- `s.split(c)` at a code unit: the piece that is open is held in reverse.
split_from : ℕ → Text → Text → List Text
split_from c piece [] = reverse piece ∷ []
split_from c piece (d ∷ s) =
    let closed = split_from c [] s in
    let longer = split_from c (d ∷ piece) s in if nat_eq d c then reverse piece ∷ closed else longer

unfoldable pub split : ℕ → Text → List Text
unfolding split_from
split c s = split_from c [] s

-- `[...new Set(xs)]`: the first of each, in their order
unfoldable pub without : Text → List Text → List Text
without x [] = []
without x (y ∷ ys) = let rest = without x ys in if x == y then rest else y ∷ rest

unfoldable pub unique : List Text → List Text
unfolding without
unique [] = []
unique (x ∷ xs) = x ∷ without x (unique xs)

pub trim_idem : (s : Text) → trim (trim s) ≡ trim s
unfolding trim
trim_idem s =
    rw (drop_while-drop_while_end is_space s, drop_while_end_idem is_space (drop_while is_space s))

-- Nothing is trimmed from a text without spaces.
pub drop_while_of_none {ℓ} :
    {A : Type ℓ} (p : A → Bool) (xs : List A) → All (λ x. p x ≡ false) xs → drop_while p xs ≡ xs
unfolding drop_while
drop_while_of_none p [] h = refl
drop_while_of_none p (x ∷ xs) h = ground arith

pub drop_while_end_of_none {ℓ} :
    {A : Type ℓ} (p : A → Bool) (xs : List A) → All (λ x. p x ≡ false) xs → drop_while_end p xs ≡ xs
unfolding drop_while_end
drop_while_end_of_none p [] h = refl
drop_while_end_of_none p (x ∷ xs) (h, hs) = ground (arith, drop_while_end_of_none p xs hs)

pub trim_of_no_space : (s : Text) → All (λ c. is_space c ≡ false) s → trim s ≡ s
unfolding trim
trim_of_no_space s h = rw (drop_while_of_none is_space s h, drop_while_end_of_none is_space s h)

-- Membership as a type that computes on the list.
abbrev pub In : Text → List Text → Type 0
In s [] = ⊥
In s (x ∷ xs) = (x ≡ s) ⊎ In s xs

pub includes_iff : (xs : List Text) (s : Text) → (includes xs s ≡ true) ↔ In s xs
unfolding includes
includes_iff [] s = (λ h. ground arith, λ h. absurd h)
includes_iff (x ∷ xs) s = ground (arith, eq_iff x s, includes_iff xs s)

-- The first text that a list lacks, and that it lacks none.
pub find?-includes_iff :
    (xs required : List Text)
    → (find? (λ s. not (includes xs s)) required ≡ none) ↔ All (λ s. In s xs) required
unfolding find?
find?-includes_iff xs [] = (λ _. tt, λ _. refl)
find?-includes_iff xs (s ∷ required) =
    ground (arith, includes_iff xs s, find?-includes_iff xs required)

In-without : (x s : Text) (ts : List Text) → In x (without s ts) ↔ (In x ts × ((s == x) ≡ false))
unfolding without
In-without x s [] = (λ h. absurd h, λ h. absurd h.0)
In-without x s (t ∷ ts) = ground (arith, eq_iff s t, eq_iff s x, In-without x s ts)

pub In-unique : (x : Text) (ts : List Text) → In x (unique ts) ↔ In x ts
unfolding unique
In-unique x [] = (λ h. h, λ h. h)
In-unique x (t ∷ ts) = ground (arith, In-without x t (unique ts), In-unique x ts, eq_iff t x)

-- What `filter` keeps was in the list.
pub filter-In : (p : Text → Bool) (xs : List Text) (s : Text) → In s (filter p xs) → In s xs
unfolding filter
filter-In p [] s = λ h. h
filter-In p (x ∷ xs) s = elim (Bool-cases (p x)) [
  | inl kept ↦ rw kept (λ h. elim h [ inl e ↦ inl e | inr later ↦ inr (filter-In p xs s later) ])
  | inr dropped ↦ rw dropped (λ h. inr (filter-In p xs s h))
]
