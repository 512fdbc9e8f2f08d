-- ===== src/Service/Definition/Keys.antt =====
-- Lists whose elements have different keys, as the loops of src/service/discovery.ts build them with a set
-- of the keys that they have seen.
use service_plane.Prelude.{◌≡◌, false, List, [], ◌∷◌, map, arith}
use service_plane.Prelude.Lists.{All}
use service_plane.Prelude.Text.{Text, includes, eq_iff}

-- No text stands twice in the list.
abbrev pub Distinct : List Text → Type 0
Distinct [] = Unit
Distinct (x ∷ xs) = (includes xs x ≡ false) × Distinct xs

module _ {A : Type 0} (key : A → Text) where
  -- None of the keys is among `seen`.
  abbrev pub Fresh : List Text → List A → Type 0
  Fresh seen = All (λ x. includes seen (key x) ≡ false)

  Fresh-tail : (k : Text) (seen : List Text) (xs : List A) → Fresh (k ∷ seen) xs → Fresh seen xs
  unfolding includes
  Fresh-tail k seen [] h = tt
  Fresh-tail k seen (x ∷ xs) (h, hs) = (ground arith, Fresh-tail k seen xs hs)

  Fresh-head :
      (k : Text) (seen : List Text) (xs : List A)
      → Fresh (k ∷ seen) xs
      → includes (map key xs) k ≡ false
  unfolding includes
  Fresh-head k seen [] h = ground arith
  Fresh-head k seen (x ∷ xs) (h, hs) =
      ground (arith, eq_iff k (key x), eq_iff (key x) k, Fresh-head k seen xs hs)

  pub Distinct-cons :
      (seen : List Text) (x : A) (xs : List A)
      → Distinct (map key xs)
      → Fresh (key x ∷ seen) xs
      → Distinct (map key (x ∷ xs))
  Distinct-cons seen x xs distinct fresh = (Fresh-head (key x) seen xs fresh, distinct)

  pub Fresh-cons :
      (seen : List Text) (x : A) (xs : List A)
      → includes seen (key x) ≡ false
      → Fresh (key x ∷ seen) xs
      → Fresh seen (x ∷ xs)
  Fresh-cons seen x xs first fresh = (first, Fresh-tail (key x) seen xs fresh)
