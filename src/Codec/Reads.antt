-- ===== src/Codec/Reads.antt =====
-- What a parser reads, and how that composes.
use cofferwire.Base.{
  ℕ, ◌+◌, ◌≡◌, ◌≤◌, ◌<◌, refl, true, false, some, Option, ◌++◌, ltb, ◌==◌, ◌!=◌, nat_same, Bytes,
  length, length-append, ok, arith, ap,
}
use mathlib.Core.List.{append_assoc}
use cofferwire.Types.{u64_mod}
use cofferwire.Cbor.{
  Decoder, unsigned, array, byte_string, encode_unsigned, encode_array, encode_bytes,
}
use cofferwire.Cbor.Arguments.{before, after, argument-encode_argument, byte_string-encode_bytes}
use cofferwire.Wire.{
  Command, create_queue_command, send_command, fetch_command, ack_command, delete_queue_command,
  command_code, command_from,
}
use cofferwire.Codec.{Parse, ◌>>=◌, protocol_value, id, fixed_bytes, expect_value, decode_command}

-- The parser makes the value of these bytes, and no more than these, whatever follows them.
pub record Reads {A : Type 0} (p : Parse A) (a : A) (bytes : Bytes) : Type 0 where
  pub reads :
      (rest : Bytes) (offset : ℕ) → p (before bytes rest offset) ≡ ok (a, after bytes rest offset)

pub Reads-bind :
    {A B : Type 0} (p : Parse A) (k : A → Parse B) (a : A) (b : B) (x y : Bytes)
    → Reads p a x
    → Reads (k a) b y
    → Reads (p >>= k) b (x ++ y)
Reads-bind p k a b x y first next = record {
  reads = λ rest offset.
      rw
        (
          append_assoc x y rest,
          first.reads (y ++ rest) offset,
          next.reads rest (offset + length x),
          length-append x y,
        )
        (ap (λ o. ok (b, record { rest = rest; offset = o })) (omega arith));
}

-- A last step that reads nothing.
pub Reads-last :
    {A B : Type 0} (p : Parse A) (k : A → Parse B) (a : A) (b : B) (x : Bytes)
    → Reads p a x
    → ((d : Decoder) → k a d ≡ ok (b, d))
    → Reads (p >>= k) b x
Reads-last p k a b x first last = record {
  reads = λ rest offset. rw (first.reads rest offset) (last (after x rest offset));
}

pub Reads-unsigned : (value : ℕ) → value < u64_mod → Reads unsigned value (encode_unsigned value)
Reads-unsigned value u = record {
  reads = λ rest offset. argument-encode_argument 0 value rest offset u;
}

pub Reads-array : (n : ℕ) → n < u64_mod → Reads (array n) tt (encode_array n)
unfolding array
Reads-array n u = record {
  reads = λ rest offset.
      let same : n != n ≡ false = ground arith in
      rw (argument-encode_argument 4 n rest offset u, same) refl;
}

pub Reads-bytes :
    (max : ℕ) (bytes : Bytes)
    → length bytes ≤ max
    → max < u64_mod
    → Reads (byte_string max) bytes (encode_bytes bytes)
Reads-bytes max bytes h u = record {
  reads = λ rest offset. byte_string-encode_bytes max bytes rest offset h u;
}

pub Reads-id : (bytes : Bytes) → length bytes ≡ 32 → Reads id bytes (encode_bytes bytes)
unfolding fixed_bytes
Reads-id bytes h = record {
  reads = λ rest offset.
      let same : length bytes != 32 ≡ false = ground arith in
      rw (byte_string-encode_bytes 32 bytes rest offset (omega arith) (omega arith), same) refl;
}

pub Reads-expect : (n : ℕ) → n < u64_mod → Reads (expect_value n) tt (encode_unsigned n)
unfolding expect_value
Reads-expect n u = record {
  reads = λ rest offset.
      let same : n == n ≡ true = ground arith in
      rw (argument-encode_argument 0 n rest offset u, same) refl;
}

pub command_from-command_code : (c : Command) → command_from (command_code c) ≡ some c
command_from-command_code create_queue_command = refl
command_from-command_code send_command = refl
command_from-command_code fetch_command = refl
command_from-command_code ack_command = refl
command_from-command_code delete_queue_command = refl

pub command_code-small : (c : Command) → command_code c < 6
command_code-small create_queue_command = omega arith
command_code-small send_command = omega arith
command_code-small fetch_command = omega arith
command_code-small ack_command = omega arith
command_code-small delete_queue_command = omega arith

pub command_code-pos : (c : Command) → 0 < command_code c
command_code-pos create_queue_command = omega arith
command_code-pos _ = omega arith

pub Reads-command : (c : Command) → Reads decode_command c (encode_unsigned (command_code c))
unfolding decode_command
Reads-command c = record {
  reads = λ rest offset.
      let small : ltb 255 (command_code c) ≡ false = ground (arith, command_code-small c) in
      rw
        (
          argument-encode_argument 0 (command_code c) rest offset
              (omega (arith, command_code-small c)),
          small,
          command_from-command_code c,
        )
        refl;
}

pub array_then :
    {B : Type 0} (n : ℕ) (k : Unit {0} → Parse B) (b : B) (y : Bytes)
    → n < u64_mod
    → Reads (k tt) b y
    → Reads (array n >>= k) b (encode_array n ++ y)
array_then n k b y u next = Reads-bind (array n) k tt b (encode_array n) y (Reads-array n u) next

pub id_then :
    {B : Type 0} (bytes : Bytes) (k : Bytes → Parse B) (b : B) (y : Bytes)
    → length bytes ≡ 32
    → Reads (k bytes) b y
    → Reads (id >>= k) b (encode_bytes bytes ++ y)
id_then bytes k b y h next = Reads-bind id k bytes b (encode_bytes bytes) y (Reads-id bytes h) next

pub id_last :
    {B : Type 0} (bytes : Bytes) (k : Bytes → Parse B) (b : B)
    → length bytes ≡ 32
    → ((d : Decoder) → k bytes d ≡ ok (b, d))
    → Reads (id >>= k) b (encode_bytes bytes)
id_last bytes k b h last = Reads-last id k bytes b (encode_bytes bytes) (Reads-id bytes h) last

pub expect_then :
    {B : Type 0} (n : ℕ) (k : Unit {0} → Parse B) (b : B) (y : Bytes)
    → n < u64_mod
    → Reads (k tt) b y
    → Reads (expect_value n >>= k) b (encode_unsigned n ++ y)
expect_then n k b y u next =
    Reads-bind (expect_value n) k tt b (encode_unsigned n) y (Reads-expect n u) next

pub unsigned_then :
    {B : Type 0} (n : ℕ) (k : ℕ → Parse B) (b : B) (y : Bytes)
    → n < u64_mod
    → Reads (k n) b y
    → Reads (unsigned >>= k) b (encode_unsigned n ++ y)
unsigned_then n k b y u next =
    Reads-bind unsigned k n b (encode_unsigned n) y (Reads-unsigned n u) next

pub unsigned_last :
    {B : Type 0} (n : ℕ) (k : ℕ → Parse B) (b : B)
    → n < u64_mod
    → ((d : Decoder) → k n d ≡ ok (b, d))
    → Reads (unsigned >>= k) b (encode_unsigned n)
unsigned_last n k b u last = Reads-last unsigned k n b (encode_unsigned n) (Reads-unsigned n u) last

pub bytes_then :
    {B : Type 0} (max : ℕ) (bytes : Bytes) (k : Bytes → Parse B) (b : B) (y : Bytes)
    → length bytes ≤ max
    → max < u64_mod
    → Reads (k bytes) b y
    → Reads (byte_string max >>= k) b (encode_bytes bytes ++ y)
bytes_then max bytes k b y h u next =
    Reads-bind (byte_string max) k bytes b (encode_bytes bytes) y (Reads-bytes max bytes h u) next

-- A checked value reads nothing.
pub value_then :
    {A B : Type 0} (o : Option A) (k : A → Parse B) (a : A) (b : B) (y : Bytes)
    → o ≡ some a
    → Reads (k a) b y
    → Reads (protocol_value o >>= k) b y
value_then o k a b y h next = record { reads = λ rest offset. rw h (next.reads rest offset) }
