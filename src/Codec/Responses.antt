-- ===== src/Codec/Responses.antt =====
-- crates/cofferwire-codec/src/lib.rs: the frames of responses.
pub mod Frames
pub mod Sizes
pub mod Unique
mod Tests
use cofferwire.Base.{
  ℕ, Bool, true, false, Option, none, some, List, [], ◌∷◌, ◌++◌, ltb, ◌==◌, nat_same, if◌then◌else◌,
  Bytes, Result, ok, err,
}
use cofferwire.Types.{RequestId}
use cofferwire.Cbor.{
  DecodeError, invalid_value, Decoder, Decoded, and_then, unsigned, array, array_length,
  byte_string, encode_unsigned, encode_array, encode_bytes,
}
use cofferwire.Wire.{
  Command, create_queue_command, send_command, fetch_command, ack_command, delete_queue_command,
  command_code, ResponseBody, create_queue_response, send_response, fetch_response, ack_response,
  delete_queue_response, WireDelivery, new_payload, max_message_bytes_limit,
}
use cofferwire.Status.{
  Status, status_code, status_from, is_ok, create_outcome_code, create_outcome_from,
  send_outcome_code, send_outcome_from, ErrorResponse, new_error_response, Response, success,
  failure, response_command, response_status,
}
use cofferwire.Codec.{
  Parse, ◌>>=◌, ◌>>◌, give, protocol_value, id, expect_value, command_from_u64, encode_preamble,
  decode_preamble, finished,
}

pub record ResponseFrame : Type 0 where
  pub request_id : RequestId
  pub response : Response

-- The code 0 stands for no command.
abbrev pub optional_command_code : Option Command → ℕ
optional_command_code none = 0
optional_command_code (some command) = command_code command

unfoldable pub encode_success_body : ResponseBody → Bytes
encode_success_body (create_queue_response outcome) =
    encode_array 1 ++ encode_unsigned (create_outcome_code outcome)
encode_success_body (send_response outcome) =
    encode_array 1 ++ encode_unsigned (send_outcome_code outcome)
encode_success_body (fetch_response none) = encode_array 1 ++ encode_unsigned 0
encode_success_body (fetch_response (some delivery)) =
    encode_array 4
    ++ (encode_unsigned 1
        ++ (encode_bytes delivery.message_id
            ++ (encode_bytes delivery.payload ++ encode_unsigned delivery.expires_at)))
encode_success_body ack_response = encode_array 0
encode_success_body delete_queue_response = encode_array 0

abbrev pub encode_response_body : Response → Bytes
encode_response_body (success body) = encode_success_body body
encode_response_body (failure _) = encode_array 0

unfoldable pub encode_response_payload : Response → Bytes
encode_response_payload response =
    encode_array 4
    ++ (encode_unsigned 1
        ++ (encode_unsigned (optional_command_code (response_command response))
            ++ (encode_unsigned (status_code (response_status response))
                ++ encode_response_body response)))

unfoldable pub encode_response : ResponseFrame → Bytes
encode_response frame = encode_preamble frame.request_id ++ encode_response_payload frame.response

unfoldable pub small_u8 : Parse ℕ
small_u8 d =
    and_then (unsigned d)
      (λ value d'. if ltb 255 value then err (invalid_value value) else ok (value, d'))

unfoldable pub decode_status : Parse Status
decode_status = do value ← small_u8; protocol_value (status_from value)

-- A value that is not allowed here.
abbrev pub invalid : {A : Type 0} → ℕ → Parse A
invalid value d = err (invalid_value value)

unfoldable pub decode_letter : Parse ResponseBody
decode_letter = do
  expect_value 1
  message ← id
  bytes ← byte_string max_message_bytes_limit
  payload ← protocol_value (new_payload bytes)
  expires_at ← unsigned
  give (
      fetch_response
        (some (record { message_id = message; payload = payload; expires_at = expires_at })))

-- The body of a fetch, by its number of elements.
abbrev pub decode_fetched : ℕ → Parse ResponseBody
decode_fetched actual =
    if actual == 1
    then expect_value 0 >> give (fetch_response none)
    else if actual == 4
    then decode_letter
    else invalid actual

unfoldable pub decode_response_body : Command → Parse ResponseBody
decode_response_body create_queue_command = do
  array 1
  value ← small_u8
  outcome ← protocol_value (create_outcome_from value)
  give (create_queue_response outcome)
decode_response_body send_command = do
  array 1
  value ← small_u8
  outcome ← protocol_value (send_outcome_from value)
  give (send_response outcome)
decode_response_body fetch_command = do actual ← array_length; decode_fetched actual
decode_response_body ack_command = array 0 >> give ack_response
decode_response_body delete_queue_command = array 0 >> give delete_queue_response

unfoldable pub some_command : ℕ → Parse (Option Command)
some_command code = do command ← command_from_u64 code; give (some command)

abbrev pub optional_command : ℕ → Parse (Option Command)
optional_command code = if code == 0 then give none else some_command code

unfoldable pub decode_success : ℕ → Parse Response
decode_success code = do
  command ← command_from_u64 code
  body ← decode_response_body command
  give (success body)

unfoldable pub decode_failure : ℕ → Status → Parse Response
decode_failure code status = do
  array 0
  command ← optional_command code
  error ← protocol_value (new_error_response command status)
  give (failure error)

abbrev pub decode_outcome : ℕ → Status → Parse Response
decode_outcome code status =
    if is_ok status then decode_success code else decode_failure code status

unfoldable pub decode_response_payload : Parse Response
decode_response_payload = do
  array 4
  expect_value 1
  code ← unsigned
  status ← decode_status
  decode_outcome code status

unfoldable pub decode_response : Bytes → Result DecodeError ResponseFrame
decode_response bytes = finished bytes (
    and_then (decode_preamble bytes) (λ request_id d.
      and_then (decode_response_payload d)
        (λ response d'. ok (record { request_id = request_id; response = response }, d'))))
