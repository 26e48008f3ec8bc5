-- ===== src/Codec/Tests.antt =====
-- A frame of a send, its bytes, and the theorems at it.
use cofferwire.Base.{ℕ, zero, suc, ◌≡◌, ◌≤◌, refl, [], ◌∷◌, ◌++◌, Bytes, length, ok, err, arith}
use cofferwire.Base.BigEndian.{to_be, from_be, Each-all_bytes}
use cofferwire.Cbor.{
  array, byte_string, argument, argument_bytes, encode_argument, split_at, non_canonical_argument,
}
use cofferwire.Cbor.Arguments.{before, after, argument-encode_argument}
use cofferwire.Cbor.Canonical.{argument-canonical}
use cofferwire.Wire.{send, fetch, max_frame_bytes}
use cofferwire.Codec.{
  RequestFrame, encode_request, encode_authenticated_request, decode_request, decode_preamble,
  expect_value, decode_command, fixed_bytes, decode_request_body, decode_request_payload,
  take_bytes,
}
use cofferwire.Codec.Unique.{decode_request_unique}
use cofferwire.Codec.Sizes.{encode_request-bound}
use cofferwire.Codec.Frames.{decode_request-encode_request}

abbrev filled : ℕ → ℕ → Bytes
filled zero b = []
filled (suc k) b = b ∷ filled k b

abbrev sending : RequestFrame
sending = record {
  request_id = filled 16 7;
  request = send (record {
    queue_id = filled 32 1;
    sender = filled 32 2;
    message_id = filled 32 5;
    payload = 9 ∷ 8 ∷ [];
    ttl = 3600;
  });
  auth = filled 68 4;
}

-- 500 takes three bytes, and is refused in five.
encoded_argument : encode_argument 0 500 ≡ 25 ∷ 1 ∷ 244 ∷ []
unfolding encode_argument to_be
encoded_argument = refl

wider_argument :
    argument 0 (record { rest = 26 ∷ 0 ∷ 0 ∷ 1 ∷ 244 ∷ []; offset = 17 })
    ≡ err (non_canonical_argument 17)
unfolding argument argument_bytes from_be
wider_argument = refl

argument-encode_argument_example :
    argument 2 (before (encode_argument 2 500) (3 ∷ []) 17)
    ≡ ok (500, after (encode_argument 2 500) (3 ∷ []) 17)
argument-encode_argument_example = argument-encode_argument 2 500 (3 ∷ []) 17 (omega arith)

encode_request-bound_example : length (encode_request sending) ≤ max_frame_bytes
encode_request-bound_example =
    encode_request-bound sending (refl, (refl, refl, refl, omega arith, omega arith), omega arith)

decode_request-encode_request_example :
    decode_request (encode_request sending)
    ≡ ok (record {
      frame = sending;
      authenticated_bytes = encode_authenticated_request sending.request_id sending.request;
    })
decode_request-encode_request_example =
    decode_request-encode_request sending
      (refl, (refl, refl, refl, omega arith, omega arith), omega arith)

argument-canonical_example : 25 ∷ 1 ∷ 244 ∷ 9 ∷ [] ≡ encode_argument 0 500 ++ 9 ∷ []
unfolding argument argument_bytes from_be
argument-canonical_example =
    argument-canonical 0 (25 ∷ 1 ∷ 244 ∷ 9 ∷ []) 17 500 (record { rest = 9 ∷ []; offset = 20 })
      (omega arith) refl

-- A fetch, written out.
abbrev fetching : RequestFrame
fetching = record {
  request_id = filled 16 7;
  request = fetch (record { queue_id = filled 32 1; recipient = filled 32 3 });
  auth = 4 ∷ 4 ∷ [];
}

abbrev fetching_front : Bytes
fetching_front =
    1 ∷ filled 16 7 ++ (131 ∷ 0 ∷ 3 ∷ 130 ∷ 88 ∷ 32 ∷ filled 32 1 ++ (88 ∷ 32 ∷ filled 32 3))

decode_request_unique_example :
    (encode_request fetching ≡ fetching_front ++ 66 ∷ 4 ∷ 4 ∷ [])
    × (fetching_front ≡ encode_authenticated_request fetching.request_id fetching.request)
unfolding argument argument_bytes from_be split_at decode_preamble expect_value decode_command
    fixed_bytes decode_request_body decode_request_payload decode_request take_bytes array
    byte_string
decode_request_unique_example =
    decode_request_unique (fetching_front ++ 66 ∷ 4 ∷ 4 ∷ [])
      (record { frame = fetching; authenticated_bytes = fetching_front })
      (Each-all_bytes (fetching_front ++ 66 ∷ 4 ∷ 4 ∷ []) refl) refl
