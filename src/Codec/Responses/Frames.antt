-- ===== src/Codec/Responses/Frames.antt =====
-- A response is decoded from its encoding.
use cofferwire.Base.{
  ℕ, ◌+◌, ◌≡◌, ◌<◌, refl, true, false, Option, none, some, [], ◌++◌, ltb, ◌==◌, nat_same, length,
  length-append, ok, arith,
}
use mathlib.Core.List.{append-nil}
use cofferwire.Types.{u64_mod}
use cofferwire.Cbor.{Decoder, array, array_length, encode_unsigned, encode_array, encode_bytes}
use cofferwire.Cbor.Arguments.{after, argument-encode_argument}
use cofferwire.Wire.{
  Command, command_code, ResponseBody, create_queue_response, send_response, fetch_response,
  ack_response, delete_queue_response, WireDelivery, new_payload, max_message_bytes_limit,
}
use cofferwire.Policy.{created, already_exists, accepted, duplicate}
use cofferwire.Status.{
  Status, status_code, Response, success, failure, response_command, response_status, body_command,
}
use cofferwire.Status.Codes.{status_from-status_code, status_code-small}
use cofferwire.Codec.Frames.{decode_preamble_lem}
use cofferwire.Codec.Responses.Sizes.{encode_response-bound, IsBody, IsResponse}
use cofferwire.Codec.{encode_preamble, Parse, ◌>>=◌, ◌>>◌, command_from_u64}
use cofferwire.Codec.Reads.{
  Reads, Reads-bind, Reads-last, Reads-array, Reads-expect, array_then, id_then, expect_then,
  unsigned_then, unsigned_last, bytes_then, value_then, command_code-small, command_code-pos,
  command_from-command_code,
}
use cofferwire.Codec.Responses.{
  ResponseFrame, optional_command_code, encode_success_body, encode_response_body,
  encode_response_payload, small_u8, decode_status, decode_letter, decode_fetched,
  decode_response_body, some_command, optional_command, decode_success, decode_failure,
  decode_outcome, decode_response_payload, encode_response, decode_response,
}

Reads-small_u8 : (n : ℕ) → n < 256 → Reads small_u8 n (encode_unsigned n)
unfolding small_u8
Reads-small_u8 n h = record {
  reads = λ rest offset.
      let small : ltb 255 n ≡ false = ground arith in
      rw (argument-encode_argument 0 n rest offset (omega arith), small) refl;
}

Reads-status : (s : Status) → Reads decode_status s (encode_unsigned (status_code s))
unfolding decode_status
Reads-status s =
    Reads-last small_u8 _ (status_code s) s (encode_unsigned (status_code s))
      (Reads-small_u8 (status_code s) (omega (arith, status_code-small s)))
      (λ d. rw (status_from-status_code s) refl)

Reads-letter :
    (d : WireDelivery)
    → IsBody (fetch_response (some d))
    → Reads decode_letter (fetch_response (some d)) (
        encode_unsigned 1
        ++ (encode_bytes d.message_id ++ (encode_bytes d.payload ++ encode_unsigned d.expires_at)))
unfolding decode_letter
Reads-letter d (m, p, t) =
    let fits : new_payload d.payload ≡ some d.payload = ground arith in
    expect_then 1 _ _ _ (omega arith) (
      id_then d.message_id _ _ _ m (
        bytes_then max_message_bytes_limit d.payload _ _ _ p (omega arith) (
          value_then (new_payload d.payload) _ d.payload _ _ fits
            (unsigned_last d.expires_at _ _ t (λ c. refl)))))

Reads-array_length : (n : ℕ) → n < u64_mod → Reads array_length n (encode_array n)
Reads-array_length n u = record {
  reads = λ rest offset. argument-encode_argument 4 n rest offset u;
}

-- The code of an outcome.
code_then :
    (n : ℕ) (k : ℕ → Parse ResponseBody) (b : ResponseBody)
    → n < 256
    → ((d : Decoder) → k n d ≡ ok (b, d))
    → Reads (array 1 >> (small_u8 >>= k)) b (encode_array 1 ++ encode_unsigned n)
code_then n k b u last =
    array_then 1 _ _ _ (omega arith)
      (Reads-last small_u8 k n b (encode_unsigned n) (Reads-small_u8 n u) last)

Reads-body :
    (b : ResponseBody)
    → IsBody b
    → Reads (decode_response_body (body_command b)) b (encode_success_body b)
unfolding decode_response_body encode_success_body
Reads-body (create_queue_response created) h = code_then 0 _ _ (omega arith) (λ d. refl)
Reads-body (create_queue_response already_exists) h = code_then 1 _ _ (omega arith) (λ d. refl)
Reads-body (send_response accepted) h = code_then 0 _ _ (omega arith) (λ d. refl)
Reads-body (send_response duplicate) h = code_then 1 _ _ (omega arith) (λ d. refl)
Reads-body (fetch_response none) h =
    Reads-bind array_length decode_fetched 1 _ (encode_array 1) (encode_unsigned 0)
      (Reads-array_length 1 (omega arith))
      (Reads-last _ _ tt _ _ (Reads-expect 0 (omega arith)) (λ d. refl))
Reads-body (fetch_response (some d)) h =
    Reads-bind array_length decode_fetched 4 _ (encode_array 4) _
      (Reads-array_length 4 (omega arith)) (Reads-letter d h)
Reads-body ack_response h = Reads-last (array 0) _ tt _ _ (Reads-array 0 (omega arith)) (λ d. refl)
Reads-body delete_queue_response h =
    Reads-last (array 0) _ tt _ _ (Reads-array 0 (omega arith)) (λ d. refl)

-- A command is found again from its code.
command_of_code : (c : Command) (d : Decoder) → command_from_u64 (command_code c) d ≡ ok (c, d)
command_of_code c d =
    let small : ltb 255 (command_code c) ≡ false = ground (arith, command_code-small c) in
    rw (small, command_from-command_code c) refl

optional_code-small : (c : Option Command) → optional_command_code c < u64_mod
optional_code-small none = omega arith
optional_code-small (some c) = omega (arith, command_code-small c)

optional_command_lem :
    (c : Option Command) (d : Decoder) → optional_command (optional_command_code c) d ≡ ok (c, d)
unfolding some_command
optional_command_lem none d = refl
optional_command_lem (some c) d =
    let named : command_code c == 0 ≡ false = ground (arith, command_code-pos c) in
    rw (named, command_of_code c d) refl

Reads-outcome :
    (r : Response)
    → IsResponse r
    → Reads
        (decode_outcome (optional_command_code (response_command r)) (response_status r))
        r
        (encode_response_body r)
unfolding decode_success decode_failure
Reads-outcome (success body) h = record {
  reads = λ rest offset.
      rw (command_of_code (body_command body), (Reads-body body h).reads rest offset) refl;
}
Reads-outcome (failure error) h = record {
  reads = λ rest offset.
      rw
        (
          h,
          (Reads-array 0 (omega arith)).reads rest offset,
          optional_command_lem error.command (after (encode_array 0) rest offset),
        )
        refl;
}

pub Reads-response_payload :
    (r : Response) → IsResponse r → Reads decode_response_payload r (encode_response_payload r)
unfolding decode_response_payload encode_response_payload
Reads-response_payload r h = array_then 4 _ _ _ (omega arith) (
    expect_then 1 _ _ _ (omega arith) (
      unsigned_then (optional_command_code (response_command r)) _ _ _
        (optional_code-small (response_command r))
        (Reads-bind decode_status _ (response_status r) r
          (encode_unsigned (status_code (response_status r))) (encode_response_body r)
          (Reads-status (response_status r)) (Reads-outcome r h))))

-- A response whose values are in range is decoded from its encoding.
pub decode_response-encode_response :
    (f : ResponseFrame)
    → length f.request_id ≡ 16
    → IsResponse f.response
    → decode_response (encode_response f) ≡ ok f
unfolding decode_response encode_response
decode_response-encode_response f i r =
    let payload = encode_response_payload f.response in
    let start = decode_preamble_lem f.request_id payload i (encode_response-bound f i r) in
    let read = rw (append-nil payload) at ((Reads-response_payload f.response r).reads [] 17) in
    let ended : (17 + length payload == length (encode_preamble f.request_id ++ payload)) ≡ true =
      ground (arith, length-append (encode_preamble f.request_id) payload) in
    rw (start, read, ended) refl
