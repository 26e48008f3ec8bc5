-- ===== src/Codec/Responses/Sizes.antt =====
-- The length of an encoded response.
use cofferwire.Base.{◌≡◌, ◌≤◌, ◌<◌, false, none, some, ◌∷◌, length, arith}
use cofferwire.Types.{u64_mod}
use cofferwire.Cbor.{encode_unsigned, encode_bytes}
use cofferwire.Wire.{
  ResponseBody, create_queue_response, send_response, fetch_response, ack_response,
  delete_queue_response, max_message_bytes_limit, max_frame_bytes,
}
use cofferwire.Status.{
  status_code, is_ok, Response, success, failure, response_command, response_status,
  create_outcome_code, send_outcome_code,
}
use cofferwire.Codec.Sizes.{
  append-le, id_then-le, array_then-le, encode_bytes-le, encode_unsigned-le, small_unsigned-le,
  encode_array-length,
}
use cofferwire.Codec.Responses.{
  ResponseFrame, optional_command_code, encode_success_body, encode_response_body,
  encode_response_payload, encode_response,
}

-- The values of a response are in range.
abbrev pub IsBody : ResponseBody → Type 0
IsBody (fetch_response (some d)) =
    (length d.message_id ≡ 32)
    × (length d.payload ≤ max_message_bytes_limit)
    × (d.expires_at < u64_mod)
IsBody _ = Unit

abbrev pub IsResponse : Response → Type 0
IsResponse (success body) = IsBody body
IsResponse (failure error) = is_ok error.status ≡ false

encode_success_body-le : (b : ResponseBody) → IsBody b → length (encode_success_body b) ≤ 64422
unfolding encode_success_body
encode_success_body-le (create_queue_response o) h =
    omega (arith, array_then-le 1 _ 9 (omega arith) (encode_unsigned-le (create_outcome_code o)))
encode_success_body-le (send_response o) h =
    omega (arith, array_then-le 1 _ 9 (omega arith) (encode_unsigned-le (send_outcome_code o)))
encode_success_body-le (fetch_response none) h =
    omega (arith, array_then-le 1 _ 9 (omega arith) (encode_unsigned-le 0))
encode_success_body-le (fetch_response (some d)) (m, p, t) = array_then-le 4 _ 64421 (omega arith) (
    append-le (encode_unsigned 1) _ 1 64420 (small_unsigned-le 1 (omega arith)) (
      id_then-le d.message_id _ 64386 m (
        append-le (encode_bytes d.payload) _ 64377 9
          (encode_bytes-le d.payload 64374 p (omega arith)) (encode_unsigned-le d.expires_at))))
encode_success_body-le ack_response h = omega (arith, encode_array-length 0 (omega arith))
encode_success_body-le delete_queue_response h = omega (arith, encode_array-length 0 (omega arith))

encode_response_body-le : (r : Response) → IsResponse r → length (encode_response_body r) ≤ 64422
encode_response_body-le (success b) h = encode_success_body-le b h
encode_response_body-le (failure e) h = omega (arith, encode_array-length 0 (omega arith))

-- A response whose values are in range is encoded within the bound of a frame.
pub encode_response-bound :
    (f : ResponseFrame)
    → length f.request_id ≡ 16
    → IsResponse f.response
    → length (encode_response f) ≤ max_frame_bytes
unfolding encode_response encode_response_payload
encode_response-bound f i r = omega (
  arith,
  append-le (1 ∷ f.request_id) (encode_response_payload f.response) 17 64442 (omega arith) (
      array_then-le 4 _ 64441 (omega arith) (
        append-le (encode_unsigned 1) _ 1 64440 (small_unsigned-le 1 (omega arith)) (
          append-le (encode_unsigned (optional_command_code (response_command f.response))) _ 9
            64431 (encode_unsigned-le (optional_command_code (response_command f.response)))
            (append-le (encode_unsigned (status_code (response_status f.response))) _ 9 64422
              (encode_unsigned-le (status_code (response_status f.response)))
              (encode_response_body-le f.response r))))),
)
