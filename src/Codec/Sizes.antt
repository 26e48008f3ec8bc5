-- ===== src/Codec/Sizes.antt =====
-- The length of an encoded frame: the bounds of its fields keep it within the bound of a frame.
use cofferwire.Base.{
  ℕ, ◌+◌, ◌≡◌, ◌≤◌, ◌<◌, ◌∷◌, ◌++◌, leb, Bytes, length, length-append, arith, if◌then◌else◌,
}
use cofferwire.Base.BigEndian.{length-to_be}
use cofferwire.Cbor.{encode_argument, encode_unsigned, encode_array, encode_bytes}
use cofferwire.Wire.{
  WireRequest, create_queue, send, fetch, ack, delete_queue, command_code, request_command,
  max_auth_bytes, max_frame_bytes,
}
use cofferwire.Codec.{
  RequestFrame, encode_body, encode_request_payload, encode_request, encode_authenticated_request,
}
use cofferwire.Codec.Bodies.{IsWireRequest}
use cofferwire.Codec.Reads.{command_code-small}

-- The length of an encoded argument.
abbrev width : ℕ → ℕ
width value =
    if leb value 23
    then 1
    else if leb value 255
    then 2
    else if leb value 65535
    then 3
    else if leb value 4294967295
    then 5
    else 9

length-encode_argument : (major value : ℕ) → length (encode_argument major value) ≡ width value
unfolding encode_argument
length-encode_argument major value =
    ground (
      arith,
      length-to_be 1 value,
      length-to_be 2 value,
      length-to_be 4 value,
      length-to_be 8 value,
    )

width-le : (value : ℕ) → width value ≤ 9
width-le value = ground arith

length-encode_bytes :
    (bytes : Bytes) → length (encode_bytes bytes) ≡ width (length bytes) + length bytes
unfolding encode_bytes
length-encode_bytes bytes = omega (
  arith,
  length-append (encode_argument 2 (length bytes)) bytes,
  length-encode_argument 2 (length bytes),
)

encode_id-length : (bytes : Bytes) → length bytes ≡ 32 → length (encode_bytes bytes) ≡ 34
encode_id-length bytes h =
    let w : width (length bytes) ≡ 2 = ground arith in omega (arith, length-encode_bytes bytes, w)

pub encode_bytes-le :
    (bytes : Bytes) (max : ℕ)
    → length bytes ≤ max
    → max ≤ 65535
    → length (encode_bytes bytes) ≤ 3 + max
encode_bytes-le bytes max h u =
    let w : width (length bytes) ≤ 3 = ground arith in omega (arith, length-encode_bytes bytes, w)

pub encode_unsigned-le : (value : ℕ) → length (encode_unsigned value) ≤ 9
encode_unsigned-le value = omega (arith, length-encode_argument 0 value, width-le value)

pub encode_array-length : (n : ℕ) → n < 24 → length (encode_array n) ≡ 1
encode_array-length n h =
    let w : width n ≡ 1 = ground arith in omega (arith, length-encode_argument 4 n, w)

pub append-le :
    (xs ys : Bytes) (m n : ℕ) → length xs ≤ m → length ys ≤ n → length (xs ++ ys) ≤ m + n
append-le xs ys m n h u = omega (arith, length-append xs ys)

pub id_then-le :
    (bytes ys : Bytes) (n : ℕ)
    → length bytes ≡ 32
    → length ys ≤ n
    → length (encode_bytes bytes ++ ys) ≤ 34 + n
id_then-le bytes ys n h u =
    append-le (encode_bytes bytes) ys 34 n (omega (arith, encode_id-length bytes h)) u

pub array_then-le :
    (k : ℕ) (ys : Bytes) (n : ℕ) → k < 24 → length ys ≤ n → length (encode_array k ++ ys) ≤ 1 + n
array_then-le k ys n h u =
    append-le (encode_array k) ys 1 n (omega (arith, encode_array-length k h)) u

id_last-le : (bytes : Bytes) → length bytes ≡ 32 → length (encode_bytes bytes) ≤ 34
id_last-le bytes h = omega (arith, encode_id-length bytes h)

two_ids-le :
    (one two : Bytes)
    → length one ≡ 32
    → length two ≡ 32
    → length (encode_array 2 ++ (encode_bytes one ++ encode_bytes two)) ≤ 64489
two_ids-le one two h u =
    omega (arith, array_then-le 2 _ 68 (omega arith) (id_then-le one _ 34 h (id_last-le two u)))

encode_body-le : (r : WireRequest) → IsWireRequest r → length (encode_body r) ≤ 64489
unfolding encode_body
encode_body-le (create_queue r) (q, s, p, m, l) = omega (
  arith,
  array_then-le 5 _ 120 (omega arith) (
      id_then-le r.queue_id _ 86 q (
        id_then-le r.sender _ 52 s (
          id_then-le r.recipient _ 18 p (
            append-le (encode_unsigned r.limits.max_messages) _ 9 9
              (encode_unsigned-le r.limits.max_messages)
              (encode_unsigned-le r.limits.max_message_bytes))))),
)
encode_body-le (send r) (q, s, m, p, t) = array_then-le 5 _ 64488 (omega arith) (
    id_then-le r.queue_id _ 64454 q (
      id_then-le r.sender _ 64420 s (
        id_then-le r.message_id _ 64386 m (
          append-le (encode_bytes r.payload) _ 64377 9
            (encode_bytes-le r.payload 64374 p (omega arith)) (encode_unsigned-le r.ttl)))))
encode_body-le (fetch r) (q, p) = two_ids-le r.queue_id r.recipient q p
encode_body-le (ack r) (q, p, m) = omega (
  arith,
  array_then-le 3 _ 102 (omega arith)
      (id_then-le r.queue_id _ 68 q (id_then-le r.recipient _ 34 p (id_last-le r.message_id m))),
)
encode_body-le (delete_queue r) (q, p) = two_ids-le r.queue_id r.recipient q p

pub small_unsigned-le : (n : ℕ) → n < 24 → length (encode_unsigned n) ≤ 1
small_unsigned-le n h =
    let w : width n ≡ 1 = ground arith in omega (arith, length-encode_argument 0 n, w)

encode_request_payload-le :
    (r : WireRequest) → IsWireRequest r → length (encode_request_payload r) ≤ 64492
unfolding encode_request_payload
encode_request_payload-le r h = array_then-le 3 _ 64491 (omega arith) (
    append-le (encode_unsigned 0) _ 1 64490 (small_unsigned-le 0 (omega arith)) (
      append-le (encode_unsigned (command_code (request_command r))) (encode_body r) 1 64489
        (small_unsigned-le (command_code (request_command r))
          (omega (arith, command_code-small (request_command r))))
        (encode_body-le r h)))

-- The values of a frame are in range.
abbrev pub IsRequestFrame : RequestFrame → Type 0
IsRequestFrame f =
    (length f.request_id ≡ 16) × IsWireRequest f.request × (length f.auth ≤ max_auth_bytes)

-- A frame whose values are in range is encoded within the bound of a frame.
pub encode_request-bound :
    (f : RequestFrame) → IsRequestFrame f → length (encode_request f) ≤ max_frame_bytes
unfolding encode_request
encode_request-bound f (i, r, a) =
    append-le (encode_authenticated_request f.request_id f.request) (encode_bytes f.auth) 64509 1027
      (append-le (1 ∷ f.request_id) (encode_request_payload f.request) 17 64492 (omega arith)
        (encode_request_payload-le f.request r))
      (encode_bytes-le f.auth 1024 a (omega arith))
