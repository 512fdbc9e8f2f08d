-- ===== src/Shared/JsonSchema/Resolved.antt =====
-- What resolveLocalRefTarget of src/shared/json-schema.ts finds.
use service_plane.Prelude.{
  ℕ, zero, suc, ◌<◌, ◌≡◌, ◌⊎◌, refl, subst, ap, inl, inr, Bool, true, false, Option, none, some,
  List, [], ◌∷◌, arith,
}
use service_plane.Prelude.Tests.{Bool-cases, if◌then◌else◌}
use service_plane.Prelude.Lists.{length, is_nil}
use service_plane.Prelude.Text.{Text, text, includes}
use service_plane.Prelude.Number.{JsNumber}
use service_plane.Prelude.Value.{Value, prop, is_record}
use service_plane.Shared.JsonSchema.{
  Target, resolved, unresolved, threw, Hop, ends, follows, local_ref, resolve_json_pointer, hop_to,
  hop_at, hop, follow, resolve_local_ref_target,
}
use service_plane.Shared.JsonSchema.Ends.{hop-IsHop, Hop-cases, resolve_local_ref_target-ends}
use service_plane.Shared.JsonSchema.Strings.{strings}

module _ (to_number : Text → JsNumber) (schema : Value) where
  -- The schemas that references lead to from the root, with the references on the way.
  pub data Leads : List Text → Value → Type 0 where
    start : Leads [] schema
    follow_on :
        {seen : List Text} {v w : Value} {ref pointer : Text}
        → Leads seen v
        → local_ref (prop (text "$ref") v) ≡ some (ref, pointer)
        → resolve_json_pointer to_number schema pointer ≡ some w
        → is_record w ≡ true
        → Leads (ref ∷ seen) w

  -- A schema on the way that has a local reference.
  pub record Stop : Type 0 where
    pub seen : List Text
    pub at : Value
    pub ref : Text
    pub pointer : Text
    pub leads : Leads seen at
    pub has_ref : local_ref (prop (text "$ref") at) ≡ some (ref, pointer)

  -- What the result says: a target has no local reference and is not the root; nothing is found where
  -- the root has no local reference, or one on the way was followed before or leads to no schema.
  abbrev pub IsTarget : Target → Type 0
  IsTarget (resolved v) =
      (seen : List Text) × Leads seen v
      × (is_nil seen ≡ false)
      × (local_ref (prop (text "$ref") v) ≡ none)
  IsTarget unresolved =
      (local_ref (prop (text "$ref") schema) ≡ none)
      ⊎ ((stop : Stop) × ((includes stop.seen stop.ref ≡ true)
            ⊎ ((u : Value) × (resolve_json_pointer to_number schema stop.pointer ≡ some u)
                × (is_record u ≡ false))))
  IsTarget threw = (stop : Stop) × (resolve_json_pointer to_number schema stop.pointer ≡ none)

  at_root : {v : Value} → Leads [] v → v ≡ schema
  at_root start = refl

  end_of : Target → Hop → Target
  end_of t (ends u) = u
  end_of t (follows r v) = t

  ended :
      (seen : List Text) (current : Value)
      → Leads seen current
      → local_ref (prop (text "$ref") current) ≡ none
      → (nothing : Bool) → is_nil seen ≡ nothing
      → (t : Target) → (if nothing then ends unresolved else ends (resolved current)) ≡ ends t
      → IsTarget t
  unfolding end_of
  ended [] current l e true n t h =
      subst IsTarget (ap (end_of t) h)
        (inl (subst (λ v. local_ref (prop (text "$ref") v) ≡ none) (at_root l) e))
  ended (s ∷ seen) current l e true n t h = ground arith
  ended seen current l e false n t h = subst IsTarget (ap (end_of t) h) (seen, l, n, e)

  stopped :
      (stop : Stop) (o : Option Value)
      → resolve_json_pointer to_number schema stop.pointer ≡ o
      → (t : Target) → hop_to to_number stop.seen stop.at stop.ref o ≡ ends t
      → IsTarget t
  unfolding hop_to end_of
  stopped stop none e t = λ h. subst IsTarget (ap (end_of t) h) (stop, e)
  stopped stop (some u) e t = elim (Bool-cases (is_record u)) [
    | inl record_found ↦ rw record_found (λ h. ground arith)
    | inr other ↦ rw other (λ h. subst IsTarget (ap (end_of t) h) (inr (stop, inr (u, e, other))))
  ]

  hop_at-ends :
      (seen : List Text) (current : Value)
      → Leads seen current
      → (o : Option (Text × Text)) → local_ref (prop (text "$ref") current) ≡ o
      → (t : Target) → hop_at to_number seen schema current o ≡ ends t
      → IsTarget t
  unfolding hop_at end_of
  hop_at-ends seen current l none e t = λ h. ended seen current l e (is_nil seen) refl t h
  hop_at-ends seen current l (some (ref, pointer)) e t =
      let stop : Stop = record {
        seen = seen;
        at = current;
        ref = ref;
        pointer = pointer;
        leads = l;
        has_ref = e;
      } in
      elim (Bool-cases (includes seen ref)) [
        | inl again ↦ rw again (λ h. subst IsTarget (ap (end_of t) h) (inr (stop, inl again)))
        | inr new ↦ rw new (stopped stop (resolve_json_pointer to_number schema pointer) refl t)
      ]

  some_of : {t u : Target} → some t ≡ some u → t ≡ u
  some_of h = ground arith

  follow-IsTarget :
      (fuel : ℕ) (seen : List Text) (current : Value)
      → Leads seen current
      → (t : Target) → follow to_number fuel seen schema current ≡ some t
      → IsTarget t
  unfolding follow hop
  follow-IsTarget zero seen current l t = λ h. ground arith
  follow-IsTarget (suc fuel) seen current l t =
      elim (Hop-cases (hop to_number seen schema current)) [
        | inl (u, e) ↦
            rw (e, follow)
              (λ h.
                subst IsTarget (some_of h)
                  (hop_at-ends seen current l (local_ref (prop (text "$ref") current)) refl u e))
        | inr (r, v, e) ↦
            let step = hop-IsHop to_number seen schema current r v e in
            rw (e, follow)
              (follow-IsTarget fuel (r ∷ seen) v
                (follow_on l step.found_ref step.found_schema step.schema) t)
      ]

-- With one round more than the schema has strings, the loop finds its result, and the result is right: a
-- target is reached from the root by at least one local reference and has none itself; nothing is found
-- only where the root has no local reference, or where one on the way was followed before or leads to no
-- schema; and an error is thrown only at a reference on the way that cannot be decoded.
pub resolve_local_ref_target-IsTarget :
    (to_number : Text → JsNumber) (schema : Value) (fuel : ℕ)
    → length (strings schema) < fuel
    → (target : Target) × (resolve_local_ref_target to_number fuel schema ≡ some target)
      × IsTarget to_number schema target
unfolding resolve_local_ref_target
resolve_local_ref_target-IsTarget to_number schema fuel h =
    let ended = resolve_local_ref_target-ends to_number schema fuel h in
    (ended.0, ended.1, follow-IsTarget to_number schema fuel [] schema start ended.0 ended.1)
