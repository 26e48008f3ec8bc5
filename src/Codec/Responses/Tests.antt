-- ===== src/Codec/Responses/Tests.antt =====
-- Frames of responses, their bytes, and the theorems at them.
use cofferwire.Base.{◌≡◌, ◌≤◌, refl, some, [], ◌∷◌, ◌++◌, length, ok, arith}
use cofferwire.Base.BigEndian.{from_be, Each-all_bytes}
use cofferwire.Cbor.{array, argument, argument_bytes, encode_argument, split_at}
use cofferwire.Wire.{max_frame_bytes, fetch_response, send_response, send_command}
use cofferwire.Policy.{duplicate}
use cofferwire.Status.{success, failure, queue_full_status, status_from}
use cofferwire.Codec.{decode_preamble, expect_value}
use cofferwire.Codec.Responses.{
  ResponseFrame, encode_response, decode_response, encode_response_payload, small_u8, decode_status,
  decode_success, decode_response_payload, decode_response_body,
}
use cofferwire.Codec.Responses.Sizes.{encode_response-bound}
use cofferwire.Codec.Responses.Frames.{decode_response-encode_response}
use cofferwire.Codec.Responses.Unique.{decode_response_unique}
use cofferwire.Crypto.Sample.{filled}

abbrev delivering : ResponseFrame
delivering = record {
  request_id = filled 16 7;
  response = success (
      fetch_response
        (some (record { message_id = filled 32 5; payload = 9 ∷ 8 ∷ []; expires_at = 3600 })));
}

abbrev told_twice : ResponseFrame
told_twice = record { request_id = filled 16 7; response = success (send_response duplicate) }

abbrev full_queue : ResponseFrame
full_queue = record {
  request_id = filled 16 7;
  response = failure (record { command = some send_command; status = queue_full_status });
}

full_queue_bytes : encode_response full_queue ≡ 1 ∷ filled 16 7 ++ 132 ∷ 1 ∷ 2 ∷ 10 ∷ 128 ∷ []
unfolding encode_response encode_response_payload encode_argument
full_queue_bytes = refl

encode_response-bound_example : length (encode_response delivering) ≤ max_frame_bytes
encode_response-bound_example =
    encode_response-bound delivering refl (refl, omega arith, omega arith)

decode_response-encode_response_example :
    decode_response (encode_response delivering) ≡ ok delivering
decode_response-encode_response_example =
    decode_response-encode_response delivering refl (refl, omega arith, omega arith)

decode_response_unique_example :
    encode_response told_twice ≡ 1 ∷ filled 16 7 ++ 132 ∷ 1 ∷ 2 ∷ 0 ∷ 129 ∷ 1 ∷ []
unfolding argument argument_bytes from_be split_at decode_preamble expect_value small_u8
    decode_status decode_success decode_response_payload decode_response_body decode_response
    status_from array
decode_response_unique_example =
    decode_response_unique (1 ∷ filled 16 7 ++ 132 ∷ 1 ∷ 2 ∷ 0 ∷ 129 ∷ 1 ∷ []) told_twice
      (Each-all_bytes (1 ∷ filled 16 7 ++ 132 ∷ 1 ∷ 2 ∷ 0 ∷ 129 ∷ 1 ∷ []) refl) refl
