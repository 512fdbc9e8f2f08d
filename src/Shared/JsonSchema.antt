-- ===== src/Shared/JsonSchema.antt =====
-- src/shared/json-schema.ts: a JSON Schema whose root is a local reference, with the reference put in.
pub mod Ends
pub mod Resolved
pub mod Strings
use service_plane.Rest.Uri.{decode_path_segment}
use service_plane.Prelude.{
  ℕ, zero, suc, Bool, true, false, ◌&&◌, ◌||◌, Option, none, some, List, [], ◌∷◌, map,
}
use service_plane.Prelude.Tests.{nat_eq, if◌then◌else◌}
use service_plane.Prelude.Lists.{is_nil}
use service_plane.Prelude.Text.{Text, text, ◌==◌, includes, split}
use service_plane.Prelude.Number.{JsNumber, finite, pos}
use service_plane.Prelude.Value.{
  Value, undefined, str, arr, obj, Values, nil, cons, Fields, end, field, own, prop, is_record,
}

-- What follows a call that may throw, where the error is not told apart.
infixl 5 ◌>>=◌
abbrev pub ◌>>=◌ {ℓ κ} : {A : Type ℓ} {B : Type κ} → Option A → (A → Option B) → Option B
none >>= next = none
some a >>= next = next a

-- `s.replaceAll('~' + digit, to)`; a `~` is held back until the unit after it is known.
unescape_from : ℕ → ℕ → Bool → Text → Text
unescape_from digit to false [] = []
unescape_from digit to true [] = b'~' ∷ []
unescape_from digit to false (c ∷ s) =
    let rest = unescape_from digit to (nat_eq c b'~') s in if nat_eq c b'~' then rest else c ∷ rest
unescape_from digit to true (c ∷ s) =
    let rest = unescape_from digit to (nat_eq c b'~') s in
    if nat_eq c digit then to ∷ rest else b'~' ∷ (if nat_eq c b'~' then rest else c ∷ rest)

unfoldable pub unescape : Text → Text
unfolding unescape_from
unescape s = unescape_from b'0' b'~' false (unescape_from b'1' b'/' false s)

-- `current[n]`, of an array
unfoldable pub element_at : ℕ → Values → Value
element_at n nil = undefined
element_at zero (cons v vs) = v
element_at (suc n) (cons v vs) = element_at n vs

unfoldable pub at_number : JsNumber → Values → Value
unfolding element_at
at_number (finite (pos n) zero) vs = element_at n vs
at_number _ vs = undefined

-- What the loop of `resolveLocalRefTarget` ends with; `threw` is the URIError of `decodeURIComponent`.
pub data Target : Type 0 where
  resolved : Value → Target
  unresolved threw : Target

-- A round of the loop ends it, or follows a reference to a schema.
pub data Hop : Type 0 where
  ends : Target → Hop
  follows : Text → Value → Hop

-- `typeof current.$ref === 'string' && current.$ref.startsWith('#/')`: what follows the `#/`
unfoldable pub pointer_of : Text → Option Text
pointer_of (c ∷ d ∷ rest) = if nat_eq c b'#' && nat_eq d b'/' then some rest else none
pointer_of _ = none

unfoldable pub local_ref : Value → Option (Text × Text)
unfolding pointer_of
local_ref (str ref) = do pointer ← pointer_of ref; some (ref, pointer)
local_ref _ = none

-- `to_number` is Number(segment), of a text that may be any. An object has no properties but its own.
module _ (to_number : Text → JsNumber) where
  -- one step of `resolveJsonPointer`, of the segment after its `~` sequences
  unfoldable pub child : Text → Value → Value
  unfolding at_number
  child segment (arr vs) = at_number (to_number segment) vs
  child segment (obj fs) = own segment fs
  child segment _ = undefined

  -- resolveJsonPointer(document, pointer), of the segments of the pointer: a segment of a
  -- value that is neither an array nor an object is decoded, and is undefined.
  unfoldable pub resolve_segments : List Text → Value → Option Value
  unfolding child unescape
  resolve_segments [] current = some current
  resolve_segments (raw ∷ rest) (arr vs) = do
    segment ← decode_path_segment raw
    resolve_segments rest (child (unescape segment) (arr vs))
  resolve_segments (raw ∷ rest) (obj fs) = do
    segment ← decode_path_segment raw
    resolve_segments rest (child (unescape segment) (obj fs))
  resolve_segments (raw ∷ rest) current = do segment ← decode_path_segment raw; some undefined

  unfoldable pub resolve_json_pointer : Value → Text → Option Value
  unfolding resolve_segments
  resolve_json_pointer document pointer = resolve_segments (split b'/' pointer) document

  hop_to : List Text → Value → Text → Option Value → Hop
  hop_to seen current ref none = ends threw
  hop_to seen current ref (some v) = if is_record v then follows ref v else ends unresolved

  -- one round of the loop of `resolveLocalRefTarget`, with the references of `seen`: `current === schema`
  -- holds where none was followed
  hop_at : List Text → Value → Value → Option (Text × Text) → Hop
  unfolding hop_to resolve_json_pointer
  hop_at seen document current none =
      if is_nil seen then ends unresolved else ends (resolved current)
  hop_at seen document current (some (ref, pointer)) =
      if includes seen ref
      then ends unresolved
      else hop_to seen current ref (resolve_json_pointer document pointer)

  unfoldable pub hop : List Text → Value → Value → Hop
  unfolding hop_at local_ref
  hop seen document current = hop_at seen document current (local_ref (prop (text "$ref") current))

  -- The loop. It ends with none where the fuel is used up.
  unfoldable pub follow : ℕ → List Text → Value → Value → Option Target
  unfolding hop
  follow zero seen document current = none
  follow (suc fuel) seen document current = elim (hop seen document current) [
    | ends target ↦ some target
    | follows ref v ↦ follow fuel (ref ∷ seen) document v
  ]

  -- resolveLocalRefTarget(schema)
  unfoldable pub resolve_local_ref_target : ℕ → Value → Option Target
  unfolding follow
  resolve_local_ref_target fuel schema = follow fuel [] schema schema

-- `{ ...target, ...extras }`
abbrev pub is_key : Text → Fields → Bool
is_key k end = false
is_key k (field j v fs) = j == k || is_key k fs

without_keys : Fields → Fields → Fields
without_keys end extras = end
without_keys (field k v fs) extras =
    let rest = without_keys fs extras in if is_key k extras then rest else field k v rest

append_fields : Fields → Fields → Fields
append_fields end extras = extras
append_fields (field k v fs) extras = field k v (append_fields fs extras)

unfoldable pub spread : Fields → Fields → Fields
unfolding without_keys append_fields
spread target extras = append_fields (without_keys target extras) extras

-- `const { $ref, ...rest } = fields`
unfoldable pub without_ref : Fields → Fields
without_ref end = end
without_ref (field k v fs) =
    let rest = without_ref fs in if k == text "$ref" then rest else field k v rest

fields_of : Value → Fields
fields_of (obj fs) = fs
fields_of _ = end

-- inlineJsonSchemaRoot(schema), of an object, after the target was resolved: none where that threw
unfoldable pub inline_json_schema_root : Fields → Target → Option Fields
unfolding spread without_ref fields_of
inline_json_schema_root schema (resolved target) =
    some (spread (fields_of target) (without_ref schema))
inline_json_schema_root schema unresolved = some schema
inline_json_schema_root schema threw = none

-- jsonSchemaRootProperties(schema), of the inlined root
unfoldable pub json_schema_root_properties : Fields → Option Fields
json_schema_root_properties inlined = elim (own (text "properties") inlined) [
  | obj fs ↦ some fs
  | _ ↦ none
]
