-- ===== src/Prelude/Value.antt =====
-- Values of unknown type: what `JSON.parse` returns, or what a caller hands to an `unknown` parameter.
use service_plane.Prelude.{Bool, true, false, List, [], ◌∷◌, Option, none, some}
use service_plane.Prelude.Tests.{if◌then◌else◌}
use service_plane.Prelude.Text.{Text, ◌==◌}
use service_plane.Prelude.Number.{JsNumber}

mutual
  pub data Value : Type 0 where
    undefined null : Value
    bool : Bool → Value
    num : JsNumber → Value
    str : Text → Value
    arr : Values → Value
    obj : Fields → Value

  pub data Values : Type 0 where
    nil : Values
    cons : Value → Values → Values

  pub data Fields : Type 0 where
    end : Fields
    field : Text → Value → Fields → Fields

abbrev pub elements : Values → List Value
elements nil = []
elements (cons v vs) = v ∷ elements vs

-- `Object.entries(fields)`
abbrev pub entries : Fields → List (Text × Value)
entries end = []
entries (field k v fs) = (k, v) ∷ entries fs

unfoldable pub own : Text → Fields → Value
own k end = undefined
own k (field j v fs) = if j == k then v else own k fs

-- `value.k`, of an object; an array and a primitive have none of the names that the program reads.
unfoldable pub prop : Text → Value → Value
unfolding own
prop k (obj fs) = own k fs
prop k _ = undefined

-- `typeof v === 'object' && v !== null`
unfoldable pub is_object : Value → Bool
is_object (obj fs) = true
is_object (arr vs) = true
is_object _ = false

-- the same, and not an array
unfoldable pub is_record : Value → Bool
is_record (obj fs) = true
is_record _ = false

unfoldable pub is_undefined : Value → Bool
is_undefined undefined = true
is_undefined _ = false

unfoldable pub is_string : Value → Bool
is_string (str s) = true
is_string _ = false

-- The string that a value is, and the number, and the elements of an array.
unfoldable pub as_string : Value → Option Text
as_string (str s) = some s
as_string _ = none

unfoldable pub as_number : Value → Option JsNumber
as_number (num x) = some x
as_number _ = none

unfoldable pub as_array : Value → Option (List Value)
as_array (arr vs) = some (elements vs)
as_array _ = none

-- A `number | undefined` as a value.
abbrev pub number_value : Option JsNumber → Value
number_value none = undefined
number_value (some x) = num x
