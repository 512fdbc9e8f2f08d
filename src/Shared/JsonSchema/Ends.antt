-- ===== src/Shared/JsonSchema/Ends.antt =====
-- resolveLocalRefTarget of src/shared/json-schema.ts: its loop over the references of a document ends.
use service_plane.Prelude.{
  ℕ, zero, suc, ◌≤◌, ◌<◌, ◌≡◌, ◌⊎◌, refl, subst, ap, ◌∙◌, inl, inr, Bool, true, false, not, Option,
  none, some, List, [], ◌∷◌, arith,
}
use service_plane.Prelude.Tests.{Bool-cases}
use service_plane.Prelude.Lists.{length, filter, is_nil}
use service_plane.Prelude.Text.{Text, text, eq_iff, includes, In, split}
use service_plane.Prelude.Number.{JsNumber}
use service_plane.Prelude.Value.{Value, prop, is_record}
use service_plane.Shared.JsonSchema.{
  Target, Hop, ends, follows, local_ref, resolve_json_pointer, hop_to, hop_at, hop, follow,
  resolve_local_ref_target,
}
use service_plane.Shared.JsonSchema.Strings.{
  strings, Within, strings-prop, strings-resolve_segments, local_ref-In,
}

-- How many of the strings were not followed.
abbrev fresh : List Text → List Text → ℕ
unfolding filter includes
fresh seen xs = length (filter (λ x. not (includes seen x)) xs)

fresh_mono : (r : Text) (seen xs : List Text) → fresh (r ∷ seen) xs ≤ fresh seen xs
unfolding filter includes
fresh_mono r seen [] = omega arith
fresh_mono r seen (x ∷ xs) = ground (arith, fresh_mono r seen xs)

fresh_lt :
    (r : Text) (seen xs : List Text)
    → In r xs
    → includes seen r ≡ false
    → fresh (r ∷ seen) xs < fresh seen xs
unfolding filter includes
fresh_lt r seen [] h new = absurd h
fresh_lt r seen (x ∷ xs) (inl same) new = ground (arith, eq_iff r x, fresh_mono r seen xs)
fresh_lt r seen (x ∷ xs) (inr h) new = ground (arith, fresh_lt r seen xs h new)

ref_followed : Text → Hop → Text
ref_followed r (ends t) = r
ref_followed r (follows s v) = s

schema_followed : Value → Hop → Value
schema_followed w (ends t) = w
schema_followed w (follows s v) = v

pub Hop-cases :
    (x : Hop) → ((t : Target) × (x ≡ ends t)) ⊎ ((r : Text) × (v : Value) × (x ≡ follows r v))
Hop-cases (ends t) = inl (t, refl)
Hop-cases (follows r v) = inr (r, v, refl)

module _ (to_number : Text → JsNumber) where
  -- A reference that a round follows stands in the document, was not followed before, and leads to a
  -- schema of the document.
  pub record IsHop (seen : List Text) (document current : Value) (ref : Text) (v : Value)
      : Type 0 where
    pub pointer : Text
    pub found_ref : local_ref (prop (text "$ref") current) ≡ some (ref, pointer)
    pub found_schema : resolve_json_pointer to_number document pointer ≡ some v
    pub schema : is_record v ≡ true
    pub new : includes seen ref ≡ false

  hop_at-IsHop :
      (seen : List Text) (document current : Value) (o : Option (Text × Text)) (ref : Text)
      (v : Value)
      → local_ref (prop (text "$ref") current) ≡ o
      → hop_at to_number seen document current o ≡ follows ref v
      → IsHop seen document current ref v
  unfolding hop_at hop_to ref_followed schema_followed
  hop_at-IsHop seen document current none ref v e = elim (Bool-cases (is_nil seen)) [
    | inl nothing ↦ λ h. ground arith
    | inr some_followed ↦ λ h. ground arith
  ]
  hop_at-IsHop seen document current (some (r, pointer)) ref v e =
      elim (Bool-cases (includes seen r)) [
        | inl again ↦ rw again (λ h. ground arith)
        | inr new ↦ rw new (λ h.
            let d = found (resolve_json_pointer to_number document pointer) refl h in
            record {
              pointer = pointer;
              found_ref = e ∙ ap (λ x. some (x, pointer)) d.0;
              found_schema = d.1;
              schema = d.2;
              new = subst (λ x. includes seen x ≡ false) d.0 new;
            })
      ]
    where
      record_followed :
          {w : Value} → follows r w ≡ follows ref v → is_record w ≡ true → is_record v ≡ true
      record_followed h yields = subst (λ x. is_record x ≡ true) (ap (schema_followed v) h) yields

      found :
          (o : Option Value)
          → resolve_json_pointer to_number document pointer ≡ o
          → hop_to to_number seen current r o ≡ follows ref v
          → (r ≡ ref) × (o ≡ some v) × (is_record v ≡ true)
      found none f = λ h. ground arith
      found (some w) f = elim (Bool-cases (is_record w)) [
        | inl record_found ↦ rw record_found (λ h. (
          ap (ref_followed r) h,
          ap some (ap (schema_followed w) h),
          record_followed h record_found,
        ))
        | inr other ↦ rw other (λ h. ground arith)
      ]

  pub hop-IsHop :
      (seen : List Text) (document current : Value) (ref : Text) (v : Value)
      → hop to_number seen document current ≡ follows ref v
      → IsHop seen document current ref v
  unfolding hop
  hop-IsHop seen document current ref v h =
      hop_at-IsHop seen document current (local_ref (prop (text "$ref") current)) ref v refl h

  followed_string :
      {seen : List Text} {document current : Value} {ref : Text} {v : Value}
      → IsHop seen document current ref v
      → In ref (strings current)
  followed_string {current = current} {ref = ref} h =
      strings-prop to_number (text "$ref") current ref
        (local_ref-In to_number (prop (text "$ref") current) ref h.pointer h.found_ref)

  followed_strings :
      {seen : List Text} {document current : Value} {ref : Text} {v : Value}
      → IsHop seen document current ref v
      → Within (strings v) (strings document)
  unfolding resolve_json_pointer
  followed_strings {document = document} {v = v} h s i =
      strings-resolve_segments to_number (split b'/' h.pointer) document v h.found_schema s i

  follow-ends :
      (fuel : ℕ) (seen : List Text) (document current : Value)
      → Within (strings current) (strings document)
      → fresh seen (strings document) < fuel
      → (t : Target) × (follow to_number fuel seen document current ≡ some t)
  unfolding follow
  follow-ends zero seen document current w h = ground arith
  follow-ends (suc fuel) seen document current w h =
      elim (Hop-cases (hop to_number seen document current)) [
        | inl (t, e) ↦ rw (e, follow) (t, refl)
        | inr (r, v, e) ↦
            let step = hop-IsHop seen document current r v e in
            rw (e, follow)
              (follow-ends fuel (r ∷ seen) document v (followed_strings step) (
                omega (
                  arith,
                  h,
                  fresh_lt r seen (strings document) (w r (followed_string step)) step.new,
                )))
      ]

length-filter {ℓ} : {A : Type ℓ} (p : A → Bool) (xs : List A) → length (filter p xs) ≤ length xs
unfolding filter
length-filter p [] = omega arith
length-filter p (x ∷ xs) = ground (arith, length-filter p xs)

-- The loop over the references of a schema ends: one round more than the schema has strings is fuel
-- enough, whatever the references are, the ones that lead back included.
pub resolve_local_ref_target-ends :
    (to_number : Text → JsNumber) (schema : Value) (fuel : ℕ)
    → length (strings schema) < fuel
    → (target : Target) × (resolve_local_ref_target to_number fuel schema ≡ some target)
unfolding resolve_local_ref_target fresh
resolve_local_ref_target-ends to_number schema fuel h =
    follow-ends to_number fuel [] schema schema (λ s i. i)
      (omega (arith, h, length-filter (λ x. not (includes [] x)) (strings schema)))
