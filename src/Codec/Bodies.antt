-- ===== src/Codec/Bodies.antt =====
-- The payload of a request is read from its encoding.
use cofferwire.Base.{◌≡◌, ◌≤◌, ◌<◌, refl, some, nat_same, Bytes, length, arith}
use cofferwire.Types.{u64_mod}
use cofferwire.Cbor.{unsigned, byte_string, encode_unsigned, encode_bytes}
use cofferwire.Wire.{
  WireRequest, create_queue, send, fetch, ack, delete_queue, command_code, request_command,
  new_wire_limits, new_auth, new_payload, max_message_bytes_limit, max_auth_bytes, WireLimits,
}
use cofferwire.Codec.{
  expect_value, decode_command, encode_body, decode_request_body, decode_request_payload,
  encode_request_payload, decode_auth,
}
use cofferwire.Codec.Reads.{
  Reads, Reads-bind, Reads-last, Reads-unsigned, Reads-bytes, Reads-expect, Reads-command,
  array_then, id_then, id_last,
}

-- The values of a request are in range.
abbrev pub IsWireRequest : WireRequest → Type 0
IsWireRequest (create_queue r) =
    (length r.queue_id ≡ 32)
    × (length r.sender ≡ 32)
    × (length r.recipient ≡ 32)
    × (r.limits.max_messages < u64_mod)
    × (new_wire_limits r.limits.max_messages r.limits.max_message_bytes ≡ some r.limits)
IsWireRequest (send r) =
    (length r.queue_id ≡ 32)
    × (length r.sender ≡ 32)
    × (length r.message_id ≡ 32)
    × (length r.payload ≤ max_message_bytes_limit)
    × (r.ttl < u64_mod)
IsWireRequest (fetch r) = (length r.queue_id ≡ 32) × (length r.recipient ≡ 32)
IsWireRequest (ack r) =
    (length r.queue_id ≡ 32) × (length r.recipient ≡ 32) × (length r.message_id ≡ 32)
IsWireRequest (delete_queue r) = (length r.queue_id ≡ 32) × (length r.recipient ≡ 32)

limits-small :
    (l : WireLimits)
    → new_wire_limits l.max_messages l.max_message_bytes ≡ some l
    → l.max_message_bytes < u64_mod
limits-small l h = ground arith

pub Reads-body :
    (r : WireRequest)
    → IsWireRequest r
    → Reads (decode_request_body (request_command r)) r (encode_body r)
unfolding decode_request_body encode_body
Reads-body (create_queue r) (q, s, p, m, l) = array_then 5 _ _ _ (omega arith) (
    id_then r.queue_id _ _ _ q (
      id_then r.sender _ _ _ s (
        id_then r.recipient _ _ _ p (
          Reads-bind unsigned _ r.limits.max_messages _ (encode_unsigned r.limits.max_messages) _
            (Reads-unsigned r.limits.max_messages m)
            (Reads-last unsigned _ r.limits.max_message_bytes _
              (encode_unsigned r.limits.max_message_bytes)
              (Reads-unsigned r.limits.max_message_bytes (limits-small r.limits l))
              (λ d. rw l refl))))))
Reads-body (send r) (q, s, m, p, t) =
    let fits : new_payload r.payload ≡ some r.payload = ground arith in
    array_then 5 _ _ _ (omega arith) (
      id_then r.queue_id _ _ _ q (
        id_then r.sender _ _ _ s (
          id_then r.message_id _ _ _ m (
            Reads-bind (byte_string max_message_bytes_limit) _ r.payload _ (encode_bytes r.payload)
              _ (Reads-bytes max_message_bytes_limit r.payload p (omega arith))
              (record {
                reads = λ rest offset. rw (fits, (Reads-unsigned r.ttl t).reads rest offset) refl;
              })))))
Reads-body (fetch r) (q, p) =
    array_then 2 _ _ _ (omega arith)
      (id_then r.queue_id _ _ _ q (id_last r.recipient _ _ p (λ d. refl)))
Reads-body (ack r) (q, p, m) = array_then 3 _ _ _ (omega arith) (
    id_then r.queue_id _ _ _ q
      (id_then r.recipient _ _ _ p (id_last r.message_id _ _ m (λ d. refl))))
Reads-body (delete_queue r) (q, p) =
    array_then 2 _ _ _ (omega arith)
      (id_then r.queue_id _ _ _ q (id_last r.recipient _ _ p (λ d. refl)))

-- The payload of a request is read from its encoding, whatever follows it.
pub Reads-request_payload :
    (r : WireRequest) → IsWireRequest r → Reads decode_request_payload r (encode_request_payload r)
unfolding decode_request_payload encode_request_payload
Reads-request_payload r h = array_then 3 _ _ _ (omega arith) (
    Reads-bind (expect_value 0) _ tt _ (encode_unsigned 0) _ (Reads-expect 0 (omega arith)) (
      Reads-bind decode_command decode_request_body (request_command r) r
        (encode_unsigned (command_code (request_command r))) (encode_body r)
        (Reads-command (request_command r)) (Reads-body r h)))

pub Reads-auth :
    (auth : Bytes) → length auth ≤ max_auth_bytes → Reads decode_auth auth (encode_bytes auth)
Reads-auth auth h =
    let fits : new_auth auth ≡ some auth = ground arith in
    Reads-last (byte_string max_auth_bytes) _ auth _ (encode_bytes auth)
      (Reads-bytes max_auth_bytes auth h (omega arith)) (λ d. rw fits refl)
