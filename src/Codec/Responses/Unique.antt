-- ===== src/Codec/Responses/Unique.antt =====
-- A response that is accepted is the one encoding of its frame.
use cofferwire.Base.{
  ℕ, ◌≡◌, refl, true, Option, none, some, [], ◌++◌, ltb, ◌==◌, nat_same, Bytes, length,
  length-append, ok, arith, ap, sym, ◌∙◌, Each, Bool-cases, inl, inr,
}
use mathlib.Core.List.{append-nil}
use mathlib.Core.Path.{subst}
use cofferwire.Base.BigEndian.{IsByte}
use cofferwire.Cbor.{
  invalid_value, Decoder, unsigned, array, array_length, byte_string, encode_unsigned, encode_array,
}
use cofferwire.Cbor.Canonical.{steps, ok-parts}
use cofferwire.Cbor.Consumed.{Took, argument-Took}
use cofferwire.Policy.{CreateQueueOutcome, SendOutcome}
use cofferwire.Wire.{
  Command, create_queue_command, send_command, fetch_command, ack_command, delete_queue_command,
  command_code, ResponseBody, new_payload, max_message_bytes_limit,
}
use cofferwire.Status.{
  Status, ok_status, status_code, status_from, is_ok, ErrorResponse, new_error_response, Response,
  response_command, response_status, body_command, create_outcome_code, create_outcome_from,
  send_outcome_code, send_outcome_from,
}
use cofferwire.Status.Codes.{status_code-status_from}
use cofferwire.Codec.{id, expect_value, command_from_u64, encode_preamble, decode_preamble}
use cofferwire.Codec.Unique.{
  command_value, new_payload_same, decode_preamble-inverse, finished-inverse, rest_empty,
}
use cofferwire.Codec.Written.{
  Written, Parses, then_Parses, value_Parses, give_Parses, weaken_Parses, part_Parses, pure_Parses,
  last_Parses, if_Parses, Written-array, Written-array_length, Written-id, Written-unsigned,
  Written-expect, Written-bytes, Each-back, refused,
}
use cofferwire.Codec.Responses.{
  ResponseFrame, optional_command_code, encode_success_body, encode_response_body, encode_response,
  decode_response, encode_response_payload, small_u8, decode_status, decode_letter, decode_fetched,
  invalid, decode_response_body, some_command, optional_command, decode_success, decode_failure,
  decode_outcome, decode_response_payload,
}

Written-small_u8 : Written small_u8 encode_unsigned
unfolding small_u8
Written-small_u8 = record {
  took = λ d a d' e h.
      let s = steps (unsigned d) _ a d' h in
      let (_, same, left) =
        refused (ltb 255 s.value) (invalid_value s.value) s.value a s.decoder d' s.next in
      subst (λ x. Took d x (encode_unsigned a)) left
        (subst (λ v. Took d s.decoder (encode_unsigned v)) same
          (argument-Took 0 d s.value s.decoder e s.first));
}

Parses-status : Parses decode_status (λ s y. y ≡ encode_unsigned (status_code s))
unfolding decode_status
Parses-status = then_Parses small_u8 encode_unsigned _ _ Written-small_u8 (λ v.
    last_Parses (status_from v) _
      (λ s found. rw (status_code-status_from v s found, append-nil (encode_unsigned v)) refl))

create_outcome_same :
    (v : ℕ) (o : CreateQueueOutcome) → create_outcome_from v ≡ some o → create_outcome_code o ≡ v
create_outcome_same v o h = ground arith

send_outcome_same :
    (v : ℕ) (o : SendOutcome) → send_outcome_from v ≡ some o → send_outcome_code o ≡ v
send_outcome_same v o h = ground arith

-- A body that is accepted for a command is one of that command, and is so written.
abbrev FormsBody : Command → ResponseBody → Bytes → Type 0
FormsBody c b y = (body_command b ≡ c) × (y ≡ encode_success_body b)

letter_Parses : Parses decode_letter (λ b y. FormsBody fetch_command b (encode_array 4 ++ y))
unfolding decode_letter encode_success_body
letter_Parses = then_Parses (expect_value 1) _ _ _ (Written-expect 1) (λ _.
    then_Parses id _ _ _ Written-id (λ m.
      then_Parses (byte_string max_message_bytes_limit) _ _ _
        (Written-bytes max_message_bytes_limit)
        (λ b. value_Parses (new_payload b) _ _ (λ p found.
          then_Parses unsigned _ _ _ Written-unsigned (λ t.
            give_Parses _ _
              (refl, rw (new_payload_same b p found, append-nil (encode_unsigned t)) refl))))))

invalid_Parses : {B : Type 0} (v : ℕ) (F : B → Bytes → Type 0) → Parses (invalid v) F
invalid_Parses v F = record { formed = λ d b d' e h. absurd (ground (arith, h)) }

fetched_Parses :
    (n : ℕ) → Parses (decode_fetched n) (λ b y. FormsBody fetch_command b (encode_array n ++ y))
unfolding encode_success_body
fetched_Parses n =
    if_Parses (n == 1) _ _ _
      (λ one.
        let it : n ≡ 1 = ground (arith, one) in
        then_Parses (expect_value 0) _ _ _ (Written-expect 0)
          (λ _. give_Parses _ _ (refl, rw (it, append-nil (encode_unsigned 0)) refl)))
      (λ _.
        if_Parses (n == 4) _ _ _
          (λ four.
            let it : n ≡ 4 = ground (arith, four) in
            subst
              (λ k. Parses decode_letter (λ b y. FormsBody fetch_command b (encode_array k ++ y)))
              (sym it) letter_Parses)
          (λ _. invalid_Parses n _))

body_Parses : (c : Command) → Parses (decode_response_body c) (FormsBody c)
unfolding decode_response_body encode_success_body
body_Parses create_queue_command = then_Parses (array 1) _ _ _ (Written-array 1) (λ _.
    then_Parses small_u8 encode_unsigned _ _ Written-small_u8 (λ v.
      value_Parses (create_outcome_from v) _ _ (λ o found.
        give_Parses _ _
          (refl, rw (create_outcome_same v o found, append-nil (encode_unsigned v)) refl))))
body_Parses send_command = then_Parses (array 1) _ _ _ (Written-array 1) (λ _.
    then_Parses small_u8 encode_unsigned _ _ Written-small_u8 (λ v.
      value_Parses (send_outcome_from v) _ _ (λ o found.
        give_Parses _ _
          (refl, rw (send_outcome_same v o found, append-nil (encode_unsigned v)) refl))))
body_Parses fetch_command =
    then_Parses array_length encode_array _ _ Written-array_length fetched_Parses
body_Parses ack_command =
    then_Parses (array 0) _ _ _ (Written-array 0)
      (λ _. give_Parses _ _ (refl, append-nil (encode_array 0)))
body_Parses delete_queue_command =
    then_Parses (array 0) _ _ _ (Written-array 0)
      (λ _. give_Parses _ _ (refl, append-nil (encode_array 0)))

-- What follows a code and a status.
abbrev FormsOutcome : ℕ → Status → Response → Bytes → Type 0
FormsOutcome code status r y =
    (optional_command_code (response_command r) ≡ code)
    × (response_status r ≡ status)
    × (y ≡ encode_response_body r)

ok_status_of : (s : Status) → is_ok s ≡ true → ok_status ≡ s
ok_status_of s h = ground arith

success_Parses :
    (code : ℕ) (s : Status) → is_ok s ≡ true → Parses (decode_success code) (FormsOutcome code s)
unfolding decode_success
success_Parses code s h =
    pure_Parses (command_from_u64 code) (λ c. command_code c ≡ code) _ _
      (λ d c d' made. command_value code c d d' made)
      (λ c named. part_Parses (decode_response_body c) (FormsBody c) _ _ (body_Parses c) (λ b x f.
        give_Parses _ _ (ap command_code f.0 ∙ named, ok_status_of s h, append-nil x ∙ f.1)))

some_value :
    (code : ℕ) (d : Decoder) (c : Option Command) (d' : Decoder)
    → some_command code d ≡ ok (c, d')
    → (optional_command_code c ≡ code) × (d ≡ d')
unfolding some_command
some_value code d c d' h =
    let s = steps (command_from_u64 code d) _ c d' h in
    let (named, left) = command_value code s.value d s.decoder s.first in
    let (same, left') = ok-parts (some s.value) c s.decoder d' s.next in
    (ap optional_command_code (sym same) ∙ named, left ∙ left')

optional_value :
    (code : ℕ) (d : Decoder) (c : Option Command) (d' : Decoder)
    → optional_command code d ≡ ok (c, d')
    → (optional_command_code c ≡ code) × (d ≡ d')
optional_value code d c d' h = elim (Bool-cases (code == 0)) [
  | inl zero_code ↦
      let (same, left) = ok-parts none c d d' (rw zero_code at h) in
      (ap optional_command_code (sym same) ∙ sym (ground (arith, zero_code)), left)
  | inr other ↦ some_value code d c d' (rw other at h)
]

error_parts :
    (c : Option Command) (s : Status) (e : ErrorResponse)
    → new_error_response c s ≡ some e
    → (e.command ≡ c) × (e.status ≡ s)
error_parts c s e h = (ground arith, ground arith)

failure_Parses : (code : ℕ) (s : Status) → Parses (decode_failure code s) (FormsOutcome code s)
unfolding decode_failure
failure_Parses code s = then_Parses (array 0) _ _ _ (Written-array 0) (λ _.
    pure_Parses (optional_command code) (λ c. optional_command_code c ≡ code) _ _
      (optional_value code)
      (λ c named. value_Parses (new_error_response c s) _ _ (λ e found.
        let (command, status) = error_parts c s e found in
        give_Parses _ _
          (ap optional_command_code command ∙ named, status, append-nil (encode_array 0)))))

outcome_Parses : (code : ℕ) (s : Status) → Parses (decode_outcome code s) (FormsOutcome code s)
outcome_Parses code s =
    if_Parses (is_ok s) _ _ _ (success_Parses code s) (λ _. failure_Parses code s)

payload_Parses : Parses decode_response_payload (λ r y. y ≡ encode_response_payload r)
unfolding decode_response_payload encode_response_payload
payload_Parses = then_Parses (array 4) _ _ _ (Written-array 4) (λ _.
    then_Parses (expect_value 1) _ _ _ (Written-expect 1) (λ _.
      then_Parses unsigned _ _ _ Written-unsigned (λ code.
        part_Parses decode_status (λ s y. y ≡ encode_unsigned (status_code s)) _ _ Parses-status
          (λ s x f.
            weaken_Parses (decode_outcome code s) (FormsOutcome code s) _ (outcome_Parses code s)
              (λ r y g. rw (f, g.0, g.1, g.2) refl)))))

-- Of bytes: a response that is accepted is the encoding of the frame that is made of it.
pub decode_response_unique :
    (bytes : Bytes) (f : ResponseFrame)
    → Each IsByte bytes
    → decode_response bytes ≡ ok f
    → encode_response f ≡ bytes
unfolding decode_response encode_response
decode_response_unique bytes f e h =
    let (last, made, ended) = finished-inverse bytes _ f h in
    let one = steps (decode_preamble bytes) _ f last made in
    let two = steps (decode_response_payload one.decoder) _ f last one.next in
    let (start, place, measure) = decode_preamble-inverse bytes one.value one.decoder one.first in
    let bytes_left =
      Each-back (encode_preamble one.value) one.decoder.rest (subst (λ b. Each IsByte b) start e) in
    let payload = payload_Parses.formed one.decoder two.value two.decoder bytes_left two.first in
    let (same, left) =
      ok-parts (record { request_id = one.value; response = two.value }) f two.decoder last
        two.next in
    let ended' : two.decoder.offset ≡ length bytes = ap (λ (d : Decoder). d.offset) left ∙ ended in
    let all_read : two.decoder.rest ≡ [] = rest_empty two.decoder.rest (
      omega (
        arith,
        ended',
        ap (λ x. length x) start,
        length-append (encode_preamble one.value) one.decoder.rest,
        place,
        measure,
        payload.took.even,
      )) in
    rw (← same) (
      ap (λ z. encode_preamble one.value ++ z)
        (sym payload.form
          ∙ (sym (append-nil payload.bytes)
              ∙ (ap (λ z. payload.bytes ++ z) (sym all_read) ∙ sym payload.took.whole)))
      ∙ sym start)
