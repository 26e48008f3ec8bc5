-- ===== src/Codec.antt =====
-- crates/cofferwire-codec/src/lib.rs: the frames of requests.
pub mod Reads
pub mod Bodies
pub mod Sizes
pub mod Frames
pub mod Written
pub mod Unique
pub mod Responses
mod Tests
use cofferwire.Base.{
  ℕ, zero, suc, ◌+◌, Option, none, some, List, [], ◌∷◌, ◌++◌, ltb, ◌==◌, ◌!=◌, nat_same,
  if◌then◌else◌, Bytes, length, Result, ok, err,
}
use cofferwire.Types.{RequestId, Principal, QueueId, MessageId}
use cofferwire.Cbor.{
  DecodeError, frame_too_large, truncated, reserved_version, unsupported_version,
  wrong_byte_string_length, invalid_value, trailing_bytes, invalid_protocol_value, Decoder, Decoded,
  and_then, unsigned, array, split_at, byte_string, encode_unsigned, encode_array, encode_bytes,
}
use cofferwire.Wire.{
  WireRequest, create_queue, send, fetch, ack, delete_queue, Command, create_queue_command,
  send_command, fetch_command, ack_command, delete_queue_command, command_code, command_from,
  request_command, new_wire_limits, new_auth, new_payload, max_message_bytes_limit, max_auth_bytes,
  max_frame_bytes,
}

pub record RequestFrame : Type 0 where
  pub request_id : RequestId
  pub request : WireRequest
  pub auth : Bytes

pub record DecodedRequest : Type 0 where
  pub frame : RequestFrame
  pub authenticated_bytes : Bytes

abbrev pub Parse : Type 0 → Type 0
Parse A = Decoder → Decoded A

-- encode_preamble
abbrev pub encode_preamble : RequestId → Bytes
encode_preamble request_id = 1 ∷ request_id

-- encode_request_payload, its body apart.
unfoldable pub encode_body : WireRequest → Bytes
encode_body (create_queue value) =
    encode_array 5
    ++ (encode_bytes value.queue_id
        ++ (encode_bytes value.sender
            ++ (encode_bytes value.recipient
                ++ (encode_unsigned value.limits.max_messages
                    ++ encode_unsigned value.limits.max_message_bytes))))
encode_body (send value) =
    encode_array 5
    ++ (encode_bytes value.queue_id
        ++ (encode_bytes value.sender
            ++ (encode_bytes value.message_id
                ++ (encode_bytes value.payload ++ encode_unsigned value.ttl))))
encode_body (fetch value) =
    encode_array 2 ++ (encode_bytes value.queue_id ++ encode_bytes value.recipient)
encode_body (ack value) =
    encode_array 3
    ++ (encode_bytes value.queue_id
        ++ (encode_bytes value.recipient ++ encode_bytes value.message_id))
encode_body (delete_queue value) =
    encode_array 2 ++ (encode_bytes value.queue_id ++ encode_bytes value.recipient)

unfoldable pub encode_request_payload : WireRequest → Bytes
encode_request_payload request =
    encode_array 3
    ++ (encode_unsigned 0
        ++ (encode_unsigned (command_code (request_command request)) ++ encode_body request))

abbrev pub encode_authenticated_request : RequestId → WireRequest → Bytes
encode_authenticated_request request_id request =
    encode_preamble request_id ++ encode_request_payload request

unfoldable pub encode_request : RequestFrame → Bytes
encode_request frame =
    encode_authenticated_request frame.request_id frame.request ++ encode_bytes frame.auth

-- The `?` operator on an Option of the types crate.
abbrev pub protocol_value : {A : Type 0} → Option A → Parse A
protocol_value none d = err invalid_protocol_value
protocol_value (some a) d = ok (a, d)

abbrev pub versioned : ℕ → RequestId → Decoder → Decoded RequestId
versioned version request_id d =
    if version == 0
    then err reserved_version
    else if version != 1
    then err (unsupported_version version request_id)
    else ok (request_id, d)

abbrev pub split_preamble : Option (Bytes × Bytes) → ℕ → Decoded RequestId
split_preamble (some (version ∷ request_id, rest)) n =
    versioned version request_id (record { rest = rest; offset = 17 })
split_preamble _ n = err (truncated n)

-- decode_preamble, and the decoder that stands after the preamble.
unfoldable pub decode_preamble : Bytes → Decoded RequestId
decode_preamble bytes =
    if ltb max_frame_bytes (length bytes)
    then err (frame_too_large (length bytes))
    else split_preamble (split_at 17 bytes) (length bytes)

unfoldable pub expect_value : ℕ → Parse (Unit {0})
expect_value expected d =
    and_then (unsigned d)
      (λ value d'. if value == expected then ok (tt, d') else err (invalid_value value))

-- command_from_u64; the conversion to u8 fails before the command is looked up.
abbrev pub command_from_u64 : ℕ → Parse Command
command_from_u64 value d =
    if ltb 255 value then err (invalid_value value) else protocol_value (command_from value) d

unfoldable pub decode_command : Parse Command
decode_command d = and_then (unsigned d) command_from_u64

-- fixed_bytes
unfoldable pub fixed_bytes : ℕ → Parse Bytes
fixed_bytes n d = and_then (byte_string n d) (λ bytes d'.
    if length bytes != n then err (wrong_byte_string_length n (length bytes)) else ok (bytes, d'))

abbrev pub id : Parse Bytes
id = fixed_bytes 32

infixl 5 ◌>>=◌ ◌>>◌
abbrev pub ◌>>=◌ : {A B : Type 0} → Parse A → (A → Parse B) → Parse B
(p >>= k) d = and_then (p d) k

abbrev pub ◌>>◌ : {B : Type 0} → Parse (Unit {0}) → Parse B → Parse B
p >> q = p >>= λ _. q

abbrev pub give : {A : Type 0} → A → Parse A
give a d = ok (a, d)

unfoldable pub decode_request_body : Command → Parse WireRequest
decode_request_body create_queue_command = do
  array 5
  queue ← id
  sender ← id
  recipient ← id
  max_messages ← unsigned
  max_message_bytes ← unsigned
  limits ← protocol_value (new_wire_limits max_messages max_message_bytes)
  give (
      create_queue
        (record { queue_id = queue; sender = sender; recipient = recipient; limits = limits }))
decode_request_body send_command = do
  array 5
  queue ← id
  sender ← id
  message ← id
  bytes ← byte_string max_message_bytes_limit
  payload ← protocol_value (new_payload bytes)
  ttl ← unsigned
  give (
      send (record {
        queue_id = queue;
        sender = sender;
        message_id = message;
        payload = payload;
        ttl = ttl;
      }))
decode_request_body fetch_command = do
  array 2
  queue ← id
  recipient ← id
  give (fetch (record { queue_id = queue; recipient = recipient }))
decode_request_body ack_command = do
  array 3
  queue ← id
  recipient ← id
  message ← id
  give (ack (record { queue_id = queue; recipient = recipient; message_id = message }))
decode_request_body delete_queue_command = do
  array 2
  queue ← id
  recipient ← id
  give (delete_queue (record { queue_id = queue; recipient = recipient }))

-- The payload of a request.
unfoldable pub decode_request_payload : Parse WireRequest
decode_request_payload = do
  array 3
  expect_value 0
  command ← decode_command
  decode_request_body command

-- The first k bytes.
unfoldable pub take_bytes : ℕ → Bytes → Bytes
take_bytes zero bytes = []
take_bytes (suc k) [] = []
take_bytes (suc k) (b ∷ bytes) = b ∷ take_bytes k bytes

abbrev pub finish : {A : Type 0} → Bytes → A → Decoder → Result DecodeError A
finish bytes decoded d =
    if d.offset == length bytes then ok decoded else err (trailing_bytes d.offset)

abbrev pub decode_auth : Parse Bytes
decode_auth = do auth ← byte_string max_auth_bytes; protocol_value (new_auth auth)

abbrev pub finished : {A : Type 0} → Bytes → Decoded A → Result DecodeError A
finished bytes (ok (decoded, d)) = finish bytes decoded d
finished bytes (err x) = err x

unfoldable pub decode_request : Bytes → Result DecodeError DecodedRequest
decode_request bytes = finished bytes (
    and_then (decode_preamble bytes) (λ request_id d.
      and_then (decode_request_payload d) (λ request d'. and_then (decode_auth d') (λ auth d''. ok (
        record {
          frame = record { request_id = request_id; request = request; auth = auth };
          authenticated_bytes = take_bytes d'.offset bytes;
        },
        d'',
      )))))
