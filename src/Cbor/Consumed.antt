-- ===== src/Cbor/Consumed.antt =====
-- What a step of a decoder takes from its bytes.
use cofferwire.Base.{
  ℕ, zero, suc, ◌+◌, ◌≡◌, Option, some, [], ◌∷◌, ◌++◌, ltb, ◌!=◌, nat_same, ◌/◌, ◌%◌, Bytes, length,
  length-append, ok, arith, ap, sym, ◌∙◌, Each, Bool-cases, inl, inr, Option-cases,
}
use mathlib.Core.List.{append_assoc}
use cofferwire.Base.BigEndian.{from_be, IsByte}
use cofferwire.Cbor.{
  Decoder, argument_bytes, wide_argument, additional_argument, argument, split_at, byte_string,
  encode_argument, encode_bytes,
}
use cofferwire.Cbor.Canonical.{steps, ok-parts, argument-canonical}

-- The bytes that a decoder has passed and those that it has before it.
abbrev total : Decoder → ℕ
total d = d.offset + length d.rest

argument_bytes-total :
    (k : ℕ) (rest : Bytes) (offset : ℕ) (bs : Bytes) (d' : Decoder)
    → argument_bytes k (record { rest = rest; offset = offset }) ≡ ok (bs, d')
    → total d' ≡ offset + length rest
unfolding argument_bytes
argument_bytes-total zero rest offset bs d' h =
    ap total (sym (ok-parts [] bs (record { rest = rest; offset = offset }) d' h).1)
argument_bytes-total (suc k) [] offset bs d' h = absurd (ground (arith, h))
argument_bytes-total (suc k) (b ∷ rest) offset bs d' h =
    let s = steps (argument_bytes k (record { rest = rest; offset = suc offset })) _ bs d' h in
    let (read, same) = ok-parts (b ∷ s.value) bs s.decoder d' s.next in
    omega (arith, ap total same, argument_bytes-total k rest (suc offset) s.value s.decoder s.first)

wide_argument-total :
    (start k minimum : ℕ) (rest : Bytes) (offset value : ℕ) (d' : Decoder)
    → wide_argument start k minimum (record { rest = rest; offset = offset }) ≡ ok (value, d')
    → total d' ≡ offset + length rest
wide_argument-total start k minimum rest offset value d' h =
    let s = steps (argument_bytes k (record { rest = rest; offset = offset })) _ value d' h in
    elim (Bool-cases (ltb (from_be s.value) minimum)) [
      | inl low ↦ absurd (let refused = rw low at s.next in ground (arith, refused))
      | inr fits ↦
          let (read, left) = ok-parts (from_be s.value) value s.decoder d' (rw fits at s.next) in
          omega (arith, ap total left, argument_bytes-total k rest offset s.value s.decoder s.first)
    ]

additional-total :
    (start additional : ℕ) (rest : Bytes) (offset value : ℕ) (d' : Decoder)
    → additional_argument start additional (record { rest = rest; offset = offset })
      ≡ ok (value, d')
    → total d' ≡ offset + length rest
additional-total start additional rest offset value d' h = ground (
  arith,
  wide_argument-total start 1 24 rest offset value d',
  wide_argument-total start 2 256 rest offset value d',
  wide_argument-total start 4 65536 rest offset value d',
  wide_argument-total start 8 4294967296 rest offset value d',
)

argument-total :
    (major : ℕ) (d : Decoder) (value : ℕ) (d' : Decoder)
    → argument major d ≡ ok (value, d')
    → total d' ≡ total d
unfolding argument
argument-total major d value d' h = argument-total_of d.rest d.offset h
  where
    argument-total_of :
        (rest : Bytes) (offset : ℕ)
        → argument major (record { rest = rest; offset = offset }) ≡ ok (value, d')
        → total d' ≡ offset + length rest
    argument-total_of [] offset h = absurd (ground (arith, h))
    argument-total_of (initial ∷ more) offset h = elim (Bool-cases (initial / 32 != major)) [
      | inl other ↦ absurd (let refused = rw other at h in ground (arith, refused))
      | inr same ↦
          omega (
            arith,
            additional-total offset (initial % 32) more (suc offset) value d' (rw same at h),
          )
    ]

-- Some bytes have been taken, and no others.
pub record Took (d d' : Decoder) (bytes : Bytes) : Type 0 where
  pub whole : d.rest ≡ bytes ++ d'.rest
  pub even : total d' ≡ total d

pub argument-Took :
    (major : ℕ) (d : Decoder) (value : ℕ) (d' : Decoder)
    → Each IsByte d.rest
    → argument major d ≡ ok (value, d')
    → Took d d' (encode_argument major value)
argument-Took major d value d' e h = record {
  whole = argument-canonical major d.rest d.offset value d' e h;
  even = argument-total major d value d' h;
}

pub split_at-inverse :
    (k : ℕ) (rest front back : Bytes)
    → split_at k rest ≡ some (front, back)
    → (rest ≡ front ++ back) × (length front ≡ k)
unfolding split_at
split_at-inverse zero rest front back h = (ground (arith, h), ground (arith, h))
split_at-inverse (suc k) [] front back h = absurd (ground (arith, h))
split_at-inverse (suc k) (b ∷ rest) front back h = elim (Option-cases (split_at k rest)) [
  | inl gone ↦ absurd (let refused = rw (gone, split_at) at h in ground (arith, refused))
  | inr ((front', back'), found) ↦
      let (whole, measure) = split_at-inverse k rest front' back' found in
      let made : ◌≡◌ {A = Option (Bytes × Bytes)} (some (b ∷ front', back')) (some (front, back)) =
        rw (found, split_at) at h in
      let here : front ≡ b ∷ front' = ground (arith, made) in
      let there : back ≡ back' = ground (arith, made) in
      (rw (here, there) (ap (λ x. b ∷ x) whole), rw here (omega (arith, measure)))
]

pub byte_string-Took :
    (max : ℕ) (d : Decoder) (bytes : Bytes) (d' : Decoder)
    → Each IsByte d.rest
    → byte_string max d ≡ ok (bytes, d')
    → Took d d' (encode_bytes bytes)
unfolding byte_string encode_bytes
byte_string-Took max d bytes d' e h =
    let s = steps (argument 2 d) _ bytes d' h in
    let head = argument-Took 2 d s.value s.decoder e s.first in
    elim (Bool-cases (ltb max s.value)) [
      | inl large ↦ absurd (let refused = rw large at s.next in ground (arith, refused))
      | inr fits ↦ elim (Option-cases (split_at s.value s.decoder.rest)) [
        | inl gone ↦ absurd (let refused = rw (fits, gone) at s.next in ground (arith, refused))
        | inr ((front, back), found) ↦
            let (cut, measure) = split_at-inverse s.value s.decoder.rest front back found in
            let (read, left) =
              ok-parts front bytes (record { rest = back; offset = s.decoder.offset + s.value }) d'
                (rw (fits, found) at s.next) in
            let joined =
              head.whole
              ∙ (ap (λ x. encode_argument 2 s.value ++ x) cut
                  ∙ sym (append_assoc (encode_argument 2 s.value) front back)) in
            record {
              whole = rw (← read, ← left, measure) joined;
              even = omega (
                arith,
                ap total left,
                head.even,
                ap (λ x. length x) cut,
                length-append front back,
                measure,
              );
            }
      ]
    ]
