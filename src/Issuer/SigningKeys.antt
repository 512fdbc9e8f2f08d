-- ===== src/Issuer/SigningKeys.antt =====
-- The memo of src/control-plane/signing-keys.ts: copies of a set of signing keys, and when two are the same.
use service_plane.Prelude.{◌≡◌, ◌↔◌, refl, ap, Bool, true, false, ◌&&◌, List, [], ◌∷◌, map, arith}
use service_plane.Prelude.Tests.{nat_eq}
use service_plane.Prelude.Lists.{length}
use service_plane.Prelude.Text.{Text, ◌==◌, eq_iff}

pub record CapabilitySigningKey : Type 0 where
  pub kid : Text
  pub secret : Text

abbrev copied : CapabilitySigningKey → CapabilitySigningKey
copied key = record { kid = key.kid; secret = key.secret }

-- snapshotSigningKeys(keys)
unfoldable pub snapshot_signing_keys : List CapabilitySigningKey → List CapabilitySigningKey
snapshot_signing_keys keys = map copied keys

-- `left.every(…)`, where a key has the one of the same index beside it, if there is one
every_same : List CapabilitySigningKey → List CapabilitySigningKey → Bool
every_same [] right = true
every_same (key ∷ left) [] = false
every_same (key ∷ left) (other ∷ right) =
    key.kid == other.kid && key.secret == other.secret && every_same left right

-- sameCapabilitySigningKeys(left, right)
unfoldable pub same_capability_signing_keys :
    List CapabilitySigningKey → List CapabilitySigningKey → Bool
unfolding every_same
same_capability_signing_keys left right =
    nat_eq (length left) (length right) && every_same left right

every_same_iff :
    (left right : List CapabilitySigningKey)
    → (nat_eq (length left) (length right) && every_same left right ≡ true) ↔ (left ≡ right)
unfolding every_same
every_same_iff [] [] = ground arith
every_same_iff [] (other ∷ right) = ground arith
every_same_iff (key ∷ left) [] = ground arith
every_same_iff (key ∷ left) (other ∷ right) =
    ground
      (arith, eq_iff key.kid other.kid, eq_iff key.secret other.secret, every_same_iff left right)

snapshot_lem : (keys : List CapabilitySigningKey) → snapshot_signing_keys keys ≡ keys
unfolding snapshot_signing_keys
snapshot_lem [] = refl
snapshot_lem (key ∷ keys) = ap (λ rest. key ∷ rest) (snapshot_lem keys)

-- A memo hits exactly where the keys, in their order, are those of which it kept a copy: a rotation and a
-- reorder both miss.
pub same_capability_signing_keys-snapshot_iff :
    (keys kept : List CapabilitySigningKey)
    → (same_capability_signing_keys keys (snapshot_signing_keys kept) ≡ true) ↔ (keys ≡ kept)
unfolding same_capability_signing_keys
same_capability_signing_keys-snapshot_iff keys kept =
    rw (snapshot_lem kept) (every_same_iff keys kept)
