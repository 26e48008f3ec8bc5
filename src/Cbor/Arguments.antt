-- ===== src/Cbor/Arguments.antt =====
-- What is encoded is decoded, and only what is encoded so.
use cofferwire.Base.{
  ℕ, suc, ◌+◌, ◌*◌, ◌/◌, ◌%◌, ◌^◌, ◌<◌, ◌≤◌, ◌≡◌, refl, false, [], ◌∷◌, ◌++◌, ltb, leb, ◌!=◌,
  nat_same, Bytes, length, ok, arith, some, ap, ◌∙◌, length-append, Bool-cases, inl, inr,
}
use mathlib.Core.List.{append_assoc}
use cofferwire.Base.BigEndian.{to_be, from_be-to_be, length-to_be}
use cofferwire.Types.{u64_mod}
use cofferwire.Cbor.{
  Decoder, argument_bytes, wide_argument, additional_argument, argument, split_at, byte_string,
  encode_argument, encode_bytes,
}

-- A decoder whose next bytes are these.
abbrev pub before : Bytes → Bytes → ℕ → Decoder
before bytes rest offset = record { rest = bytes ++ rest; offset = offset }

-- The decoder after them.
abbrev pub after : Bytes → Bytes → ℕ → Decoder
after bytes rest offset = record { rest = rest; offset = offset + length bytes }

argument_bytes_lem :
    (bytes rest : Bytes) (offset : ℕ)
    → argument_bytes (length bytes) (before bytes rest offset) ≡ ok (bytes, after bytes rest offset)
unfolding argument_bytes
argument_bytes_lem [] rest offset = ground arith
argument_bytes_lem (b ∷ bytes) rest offset =
    rw (argument_bytes_lem bytes rest (suc offset)) (ground arith)

wide_argument_lem :
    (start k minimum value : ℕ) (rest : Bytes) (offset : ℕ)
    → minimum ≤ value
    → value < 256 ^ k
    → wide_argument start k minimum (before (to_be k value) rest offset)
      ≡ ok (value, after (to_be k value) rest offset)
wide_argument_lem start k minimum value rest offset h u =
    let read = rw (length-to_be k value) at (argument_bytes_lem (to_be k value) rest offset) in
    let large : ltb value minimum ≡ false = ground arith in
    rw (read, from_be-to_be k value u, large, length-to_be k value) refl

after-cons :
    (b : ℕ) (bytes rest : Bytes) (offset : ℕ)
    → after bytes rest (suc offset) ≡ after (b ∷ bytes) rest offset
after-cons b bytes rest offset = ground arith

-- An argument from its initial byte and those that follow it.
initial-Decoded :
    (major value additional : ℕ) (bytes rest : Bytes) (offset : ℕ)
    → additional < 32
    → additional_argument offset additional (before bytes rest (suc offset))
      ≡ ok (value, after bytes rest (suc offset))
    → argument major (before ((major * 32 + additional) ∷ bytes) rest offset)
      ≡ ok (value, after ((major * 32 + additional) ∷ bytes) rest offset)
unfolding argument
initial-Decoded major value additional bytes rest offset u read =
    let high : (major * 32 + additional) / 32 ≡ major = omega arith in
    let low : (major * 32 + additional) % 32 ≡ additional = omega arith in
    let same : major != major ≡ false = ground arith in
    rw (high, low, same)
      (read ∙ ap (λ d. ok (value, d)) (after-cons (major * 32 + additional) bytes rest offset))

-- An argument below 2 ^ 64 is decoded from its encoding, whatever follows it.
pub argument-encode_argument :
    (major value : ℕ) (rest : Bytes) (offset : ℕ)
    → value < u64_mod
    → argument major (before (encode_argument major value) rest offset)
      ≡ ok (value, after (encode_argument major value) rest offset)
unfolding encode_argument
argument-encode_argument major value rest offset u = elim (Bool-cases (leb value 23)) [
  | inl h ↦ rw h (
      initial-Decoded major value value [] rest offset (ground arith)
        (rw h (ap (λ o. ok (value, record { rest = rest; offset = o })) (omega arith))))
  | inr h23 ↦ elim (Bool-cases (leb value 255)) [
    | inl h ↦
        rw (h23, h)
          (initial-Decoded major value 24 (to_be 1 value) rest offset (omega arith)
            (wide_argument_lem offset 1 24 value rest (suc offset) (ground arith) (ground arith)))
    | inr h255 ↦ elim (Bool-cases (leb value 65535)) [
      | inl h ↦
          rw (h23, h255, h)
            (initial-Decoded major value 25 (to_be 2 value) rest offset (omega arith) (
              wide_argument_lem offset 2 256 value rest (suc offset) (ground arith) (ground arith)))
      | inr h65535 ↦ elim (Bool-cases (leb value 4294967295)) [
        | inl h ↦
            rw (h23, h255, h65535, h)
              (initial-Decoded major value 26 (to_be 4 value) rest offset (omega arith) (
                wide_argument_lem offset 4 65536 value rest (suc offset) (ground arith)
                  (ground arith)))
        | inr h ↦
            rw (h23, h255, h65535, h)
              (initial-Decoded major value 27 (to_be 8 value) rest offset (omega arith) (
                wide_argument_lem offset 8 4294967296 value rest (suc offset) (ground arith)
                  (ground arith)))
      ]
    ]
  ]
]

pub split_at_lem :
    (bytes rest : Bytes) → split_at (length bytes) (bytes ++ rest) ≡ some (bytes, rest)
unfolding split_at
split_at_lem [] rest = refl
split_at_lem (b ∷ bytes) rest = rw (split_at_lem bytes rest) refl

-- A string of bytes that is no longer than the bound is decoded from its encoding, whatever
-- follows it.
pub byte_string-encode_bytes :
    (max : ℕ) (bytes rest : Bytes) (offset : ℕ)
    → length bytes ≤ max
    → max < u64_mod
    → byte_string max (before (encode_bytes bytes) rest offset)
      ≡ ok (bytes, after (encode_bytes bytes) rest offset)
unfolding byte_string encode_bytes
byte_string-encode_bytes max bytes rest offset h u =
    let read = argument-encode_argument 2 (length bytes) (bytes ++ rest) offset (omega arith) in
    let fits : ltb max (length bytes) ≡ false = ground arith in
    rw
      (
        append_assoc (encode_argument 2 (length bytes)) bytes rest,
        read,
        fits,
        split_at_lem bytes rest,
      )
      (ground (arith, length-append (encode_argument 2 (length bytes)) bytes))
