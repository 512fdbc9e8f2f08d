-- ===== src/Shared/JsonSchema/Strings.antt =====
-- Strings inside a document, among which the references of src/shared/json-schema.ts are.
use service_plane.Rest.Uri.{decode_path_segment}
use service_plane.Prelude.{
  ℕ, zero, suc, ◌≡◌, refl, subst, inl, inr, Option, none, some, List, [], ◌∷◌, ◌++◌, arith,
}
use service_plane.Prelude.Tests.{Bool-cases}
use service_plane.Prelude.Text.{Text, ◌==◌, In}
use service_plane.Prelude.Number.{JsNumber, finite, pos, negsuc, nan, infinite}
use service_plane.Prelude.Value.{
  Value, undefined, null, bool, num, str, arr, obj, Values, nil, cons, Fields, end, field, own,
  prop,
}
use service_plane.Shared.JsonSchema.{
  ◌>>=◌, element_at, at_number, pointer_of, local_ref, child, resolve_segments, unescape,
}

-- The strings of a value, which are all that a `$ref` inside it can be.
abbrev mutual
  pub strings : Value → List Text
  strings (str s) = s ∷ []
  strings (arr vs) = strings_of_values vs
  strings (obj fs) = strings_of_fields fs
  strings _ = []

  pub strings_of_values : Values → List Text
  strings_of_values nil = []
  strings_of_values (cons v vs) = strings v ++ strings_of_values vs

  pub strings_of_fields : Fields → List Text
  strings_of_fields end = []
  strings_of_fields (field k v fs) = strings v ++ strings_of_fields fs

-- `xs` has only strings of `ys`.
abbrev pub Within : List Text → List Text → Type 0
Within xs ys = (s : Text) → In s xs → In s ys

In-left : (s : Text) (xs ys : List Text) → In s xs → In s (xs ++ ys)
In-left s [] ys h = absurd h
In-left s (x ∷ xs) ys (inl h) = inl h
In-left s (x ∷ xs) ys (inr h) = inr (In-left s xs ys h)

In-right : (s : Text) (xs ys : List Text) → In s ys → In s (xs ++ ys)
In-right s [] ys h = h
In-right s (x ∷ xs) ys h = inr (In-right s xs ys h)

strings-element_at :
    (n : ℕ) (vs : Values) → Within (strings (element_at n vs)) (strings_of_values vs)
unfolding element_at
strings-element_at n nil s h = h
strings-element_at zero (cons v vs) s h = In-left s (strings v) _ h
strings-element_at (suc n) (cons v vs) s h = In-right s (strings v) _ (strings-element_at n vs s h)

strings-own : (k : Text) (fs : Fields) → Within (strings (own k fs)) (strings_of_fields fs)
unfolding own
strings-own k end s = λ h. h
strings-own k (field j v fs) s = elim (Bool-cases (j == k)) [
  | inl same ↦ rw same (λ h. In-left s (strings v) _ h)
  | inr other ↦ rw other (λ h. In-right s (strings v) _ (strings-own k fs s h))
]

bound-some {ℓ κ} :
    {A : Type ℓ} {B : Type κ} (o : Option A) (next : A → Option B) (b : B)
    → (o >>= next) ≡ some b
    → (a : A) × (o ≡ some a) × (next a ≡ some b)
bound-some (some a) next b h = (a, refl, h)
bound-some none next b h = ground arith

same_ref : {s q r p : Text} → ◌≡◌ {A = Option (Text × Text)} (some (s, q)) (some (r, p)) → s ≡ r
same_ref e = ground arith

module _ (to_number : Text → JsNumber) where
  strings-at_number :
      (x : JsNumber) (vs : Values) → Within (strings (at_number x vs)) (strings_of_values vs)
  unfolding at_number
  strings-at_number (finite (pos n) zero) vs s h = strings-element_at n vs s h
  strings-at_number (finite (pos n) (suc f)) vs s h = absurd h
  strings-at_number (finite (negsuc n) zero) vs s h = absurd h
  strings-at_number (finite (negsuc n) (suc f)) vs s h = absurd h
  strings-at_number nan vs s h = absurd h
  strings-at_number (infinite b) vs s h = absurd h

  strings-child :
      (segment : Text) (v : Value) → Within (strings (child to_number segment v)) (strings v)
  unfolding child
  strings-child segment (arr vs) s h = strings-at_number (to_number segment) vs s h
  strings-child segment (obj fs) s h = strings-own segment fs s h
  strings-child segment undefined s h = h
  strings-child segment null s h = h
  strings-child segment (bool b) s h = absurd h
  strings-child segment (num x) s h = absurd h
  strings-child segment (str t) s h = absurd h

  no_string :
      (raw : Text) (v : Value)
      → (decode_path_segment raw >>= λ _. some undefined) ≡ some v
      → Within (strings v) []
  no_string raw v h s i =
      subst (λ w. In s (strings w))
        (injective v (bound-some (decode_path_segment raw) (λ _. some undefined) v h).2) i
    where
      injective : (w : Value) → some undefined ≡ some w → w ≡ undefined
      injective w e = cc

  same_strings : (current v : Value) → some current ≡ some v → Within (strings v) (strings current)
  same_strings current v h s i = subst (λ w. In s (strings w)) (the_same v h) i
    where
      the_same : (w : Value) → some current ≡ some w → w ≡ current
      the_same w e = cc

  pub strings-resolve_segments :
      (segments : List Text) (current v : Value)
      → resolve_segments to_number segments current ≡ some v
      → Within (strings v) (strings current)
  unfolding resolve_segments
  strings-resolve_segments [] current v h s i = same_strings current v h s i
  strings-resolve_segments (raw ∷ rest) (arr vs) v h s i =
      let step = bound-some (decode_path_segment raw) _ v h in
      strings-child (unescape step.0) (arr vs) s
        (strings-resolve_segments rest (child to_number (unescape step.0) (arr vs)) v step.2 s i)
  strings-resolve_segments (raw ∷ rest) (obj fs) v h s i =
      let step = bound-some (decode_path_segment raw) _ v h in
      strings-child (unescape step.0) (obj fs) s
        (strings-resolve_segments rest (child to_number (unescape step.0) (obj fs)) v step.2 s i)
  strings-resolve_segments (raw ∷ rest) (str t) v h s i = absurd (no_string raw v h s i)
  strings-resolve_segments (raw ∷ rest) (num x) v h s i = no_string raw v h s i
  strings-resolve_segments (raw ∷ rest) (bool b) v h s i = no_string raw v h s i
  strings-resolve_segments (raw ∷ rest) null v h s i = no_string raw v h s i
  strings-resolve_segments (raw ∷ rest) undefined v h s i = no_string raw v h s i

  pub local_ref-In :
      (v : Value) (ref pointer : Text) → local_ref v ≡ some (ref, pointer) → In ref (strings v)
  unfolding local_ref
  local_ref-In (str s) ref pointer h = inl (same_ref (bound-some (pointer_of s) _ _ h).2)
  local_ref-In undefined ref pointer h = ground arith
  local_ref-In null ref pointer h = ground arith
  local_ref-In (bool b) ref pointer h = ground arith
  local_ref-In (num x) ref pointer h = ground arith
  local_ref-In (arr vs) ref pointer h = ground arith
  local_ref-In (obj fs) ref pointer h = ground arith

  -- `$ref` of a value
  pub strings-prop : (k : Text) (v : Value) → Within (strings (prop k v)) (strings v)
  unfolding prop
  strings-prop k (obj fs) s h = strings-own k fs s h
  strings-prop k undefined s h = h
  strings-prop k null s h = h
  strings-prop k (bool b) s h = h
  strings-prop k (num x) s h = h
  strings-prop k (str t) s h = absurd h
  strings-prop k (arr vs) s h = absurd h
