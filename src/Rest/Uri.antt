-- ===== src/Rest/Uri.antt =====
-- decodeURIComponent, as ECMAScript defines it: percent triplets are bytes of UTF-8, and what they
-- encode is written in UTF-16.
use service_plane.Prelude.{
  ℕ, zero, suc, ◌+◌, ◌-◌, ◌*◌, ◌/◌, ◌%◌, Bool, true, false, ◌&&◌, not, Option, none, some, [], ◌∷◌,
  ◌++◌,
}
use service_plane.Prelude.Tests.{leb, ltb, nat_eq, if◌then◌else◌}
use service_plane.Prelude.Text.{Text}

unfoldable pub hex_digit : ℕ → Option ℕ
hex_digit c =
    if leb b'0' c && leb c b'9'
    then some (c - b'0')
    else if leb b'A' c && leb c b'F'
    then some (c - b'A' + 10)
    else if leb b'a' c && leb c b'f'
    then some (c - b'a' + 10)
    else none

-- Where in a triplet the decoder is.
pub data Position : Type 0 where
  outside after_percent : Position
  after_digit : ℕ → Position

-- `need` bytes of a sequence are missing, the bits so far are `bits`, and a code point below `least`
-- would be an overlong form.
pub record Decoder : Type 0 where
  pub position : Position
  pub need : ℕ
  pub bits : ℕ
  pub least : ℕ

abbrev pub idle : Decoder
idle = record { position = outside; need = 0; bits = 0; least = 0 }

utf16 : ℕ → Text
utf16 point =
    if ltb point 0x10000
    then point ∷ []
    else (0xd800 + (point - 0x10000) / 0x400) ∷ (0xdc00 + (point - 0x10000) % 0x400) ∷ []

is_scalar : ℕ → ℕ → Bool
is_scalar least point =
    leb least point && leb point 0x10ffff && not (leb 0xd800 point && leb point 0xdfff)

abbrev pub sequence : ℕ → ℕ → ℕ → Option (Decoder × Text)
sequence need bits least =
    some (record { position = outside; need = need; bits = bits; least = least }, [])

first_byte : ℕ → Option (Decoder × Text)
first_byte byte =
    if ltb byte 0x80
    then some (idle, byte ∷ [])
    else if leb 0xc0 byte && ltb byte 0xe0
    then sequence 1 (byte - 0xc0) 0x80
    else if leb 0xe0 byte && ltb byte 0xf0
    then sequence 2 (byte - 0xe0) 0x800
    else if leb 0xf0 byte && ltb byte 0xf8
    then sequence 3 (byte - 0xf0) 0x10000
    else none

next_byte : ℕ → ℕ → ℕ → ℕ → Option (Decoder × Text)
unfolding utf16 is_scalar
next_byte missing bits least byte =
    let point = bits * 64 + (byte - 0x80) in
    if not (leb 0x80 byte && ltb byte 0xc0)
    then none
    else if ltb 0 missing
    then sequence missing point least
    else if is_scalar least point
    then some (idle, utf16 point)
    else none

take_byte : Decoder → ℕ → Option (Decoder × Text)
unfolding first_byte next_byte
take_byte d byte = elim d.need [
  | zero ↦ first_byte byte
  | suc missing ↦ next_byte missing d.bits d.least byte
]

decode_unit : Decoder → ℕ → Option (Decoder × Text)
unfolding take_byte hex_digit
decode_unit d c = elim d.position [
  | outside ↦
      if nat_eq c b'%'
      then some (record d { position = after_percent }, [])
      else if nat_eq d.need 0
      then some (idle, c ∷ [])
      else none
  | after_percent ↦ elim (hex_digit c) [
    | none ↦ none
    | some high ↦ some (record d { position = after_digit high }, [])
  ]
  | after_digit high ↦ elim (hex_digit c) [ none ↦ none | some low ↦ take_byte d (high * 16 + low) ]
]

is_idle : Position → ℕ → Bool
is_idle outside zero = true
is_idle _ _ = false

decode_from : Decoder → Text → Option Text
unfolding decode_unit is_idle
decode_from d [] = if is_idle d.position d.need then some [] else none
decode_from d (c ∷ s) = elim (decode_unit d c) [
  | none ↦ none
  | some (next, out) ↦ elim (decode_from next s) [ none ↦ none | some rest ↦ some (out ++ rest) ]
]

-- decodePathSegment(segment)
unfoldable pub decode_path_segment : Text → Option Text
unfolding decode_from
decode_path_segment = decode_from idle
