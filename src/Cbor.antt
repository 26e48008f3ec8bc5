-- ===== src/Cbor.antt =====
-- crates/cofferwire-codec/src/cbor.rs and error.rs: the subset of CBOR that frames are written in. An error
-- ends a decode, so it keeps no decoder; the names of fields in its messages are left out.
pub mod Arguments
pub mod Canonical
pub mod Consumed
use cofferwire.Base.{
  ℕ, zero, suc, ◌+◌, ◌*◌, ◌/◌, ◌%◌, Bool, List, [], ◌∷◌, ◌++◌, ltb, leb, ◌==◌, ◌!=◌, nat_same,
  Option, none, some, if◌then◌else◌, Bytes, length, Result, ok, err,
}
use cofferwire.Base.BigEndian.{to_be, from_be}
use cofferwire.Types.{RequestId}

pub data DecodeError : Type 0 where
  frame_too_large : (actual : ℕ) → DecodeError
  truncated : (offset : ℕ) → DecodeError
  reserved_version : DecodeError
  unsupported_version : (version : ℕ) → RequestId → DecodeError
  non_canonical_argument : (offset : ℕ) → DecodeError
  unexpected_type : (offset : ℕ) → DecodeError
  wrong_array_length : (expected actual : ℕ) → DecodeError
  wrong_byte_string_length : (expected actual : ℕ) → DecodeError
  byte_string_too_large : (max actual : ℕ) → DecodeError
  invalid_value : (value : ℕ) → DecodeError
  trailing_bytes : (offset : ℕ) → DecodeError
  invalid_protocol_value : DecodeError

-- Decoder: the bytes from its offset on, and the offset.
pub record Decoder : Type 0 where
  pub rest : Bytes
  pub offset : ℕ

abbrev pub Decoded : Type 0 → Type 0
Decoded A = Result DecodeError (A × Decoder)

-- The `?` operator.
abbrev pub and_then : {A B : Type 0} → Decoded A → (A → Decoder → Decoded B) → Decoded B
and_then (ok (a, d)) k = k a d
and_then (err x) k = err x

abbrev pub byte_of : Bytes → ℕ → Decoded ℕ
byte_of [] offset = err (truncated offset)
byte_of (value ∷ rest) offset = ok (value, record { rest = rest; offset = suc offset })

-- Decoder::byte
abbrev pub byte : Decoder → Decoded ℕ
byte d = byte_of d.rest d.offset

-- The bytes of a wider argument, each read by `byte`.
unfoldable pub argument_bytes : ℕ → Decoder → Decoded Bytes
argument_bytes zero d = ok ([], d)
argument_bytes (suc k) d =
    and_then (byte d) (λ b d'. and_then (argument_bytes k d') (λ bs d''. ok (b ∷ bs, d'')))

-- An argument in k bytes, which has to be minimum at least.
abbrev pub wide_argument : ℕ → ℕ → ℕ → Decoder → Decoded ℕ
wide_argument start k minimum d = and_then (argument_bytes k d) (λ bs d'.
    if ltb (from_be bs) minimum then err (non_canonical_argument start) else ok (from_be bs, d'))

abbrev pub additional_argument : ℕ → ℕ → Decoder → Decoded ℕ
additional_argument start additional d =
    if leb additional 23
    then ok (additional, d)
    else if additional == 24
    then wide_argument start 1 24 d
    else if additional == 25
    then wide_argument start 2 256 d
    else if additional == 26
    then wide_argument start 4 65536 d
    else if additional == 27
    then wide_argument start 8 4294967296 d
    else err (unexpected_type start)

-- Decoder::argument; the major type is the high three bits of a byte.
unfoldable pub argument : ℕ → Decoder → Decoded ℕ
argument expected_major d = and_then (byte d) (λ initial d'.
    if initial / 32 != expected_major
    then err (unexpected_type d.offset)
    else additional_argument d.offset (initial % 32) d')

abbrev pub unsigned : Decoder → Decoded ℕ
unsigned d = argument 0 d

abbrev pub array_length : Decoder → Decoded ℕ
array_length d = argument 4 d

unfoldable pub array : ℕ → Decoder → Decoded (Unit {0})
array expected d = and_then (array_length d) (λ actual d'.
    if actual != expected then err (wrong_array_length expected actual) else ok (tt, d'))

-- The first k bytes and those after them, if there are k.
unfoldable pub split_at : ℕ → Bytes → Option (Bytes × Bytes)
split_at zero rest = some ([], rest)
split_at (suc k) [] = none
split_at (suc k) (b ∷ rest) = elim (split_at k rest) [
  | none ↦ none
  | some (front, back) ↦ some (b ∷ front, back)
]

-- A slice fits in memory, so the sum of its length and the offset stays below 2 ^ 64.
abbrev pub slice : Option (Bytes × Bytes) → ℕ → ℕ → Decoded Bytes
slice none offset taken = err (truncated offset)
slice (some (front, back)) offset taken =
    ok (front, record { rest = back; offset = offset + taken })

-- Decoder::bytes
unfoldable pub byte_string : ℕ → Decoder → Decoded Bytes
byte_string max d = and_then (argument 2 d) (λ taken d'.
    if ltb max taken
    then err (byte_string_too_large max taken)
    else slice (split_at taken d'.rest) d'.offset taken)

unfoldable pub encode_argument : ℕ → ℕ → Bytes
encode_argument major value =
    if leb value 23
    then (major * 32 + value) ∷ []
    else if leb value 255
    then (major * 32 + 24) ∷ to_be 1 value
    else if leb value 65535
    then (major * 32 + 25) ∷ to_be 2 value
    else if leb value 4294967295
    then (major * 32 + 26) ∷ to_be 4 value
    else (major * 32 + 27) ∷ to_be 8 value

abbrev pub encode_unsigned : ℕ → Bytes
encode_unsigned value = encode_argument 0 value

abbrev pub encode_array : ℕ → Bytes
encode_array length = encode_argument 4 length

unfoldable pub encode_bytes : Bytes → Bytes
encode_bytes bytes = encode_argument 2 (length bytes) ++ bytes
