-- ===== src/Client/Sender/Completion.antt =====
-- What completes a send.
use cofferwire.Base.{
  ◌≡◌, ◌↔◌, refl, ◌==◌, nat_same, bytes_same, bytes_beq_iff, bytes_eq_refl, Bytes, length, Result,
  ok, err, arith, sym, Each, inl, inr, Bool-cases,
}
use cofferwire.Types.{RequestId}
use cofferwire.Cbor.{DecodeError}
use cofferwire.Base.BigEndian.{IsByte}
use cofferwire.Policy.{SendOutcome, accepted, duplicate}
use cofferwire.Wire.{
  Command, send_response, send_command, create_queue_response, fetch_response, ack_response,
  delete_queue_response,
}
use cofferwire.Status.{Response, success, failure, response_command}
use cofferwire.Codec.Responses.{ResponseFrame, encode_response, decode_response}
use cofferwire.Codec.Responses.Frames.{decode_response-encode_response}
use cofferwire.Codec.Responses.Unique.{decode_response_unique}
use cofferwire.Client.{
  Outside, bound, give, checked_response, checked_frame, from_decode, is_command, ClientError,
}
use cofferwire.Client.Sender.{
  PreparedSend, SendCompletion, send_accepted, send_duplicate, sent, send_prepared,
}

abbrev pub completion_outcome : SendCompletion → SendOutcome
completion_outcome send_accepted = accepted
completion_outcome send_duplicate = duplicate

-- The frame that tells of the completion of a send.
abbrev pub completing : RequestId → SendCompletion → ResponseFrame
completing request_id completion = record {
  request_id = request_id;
  response = success (send_response (completion_outcome completion));
}

sent-inverse :
    (r : Response) (c : SendCompletion)
    → sent r ≡ ok c
    → r ≡ success (send_response (completion_outcome c))
sent-inverse (success (send_response accepted)) send_accepted h = refl
sent-inverse (success (send_response accepted)) send_duplicate h = absurd (ground (arith, h))
sent-inverse (success (send_response duplicate)) send_accepted h = absurd (ground (arith, h))
sent-inverse (success (send_response duplicate)) send_duplicate h = refl
sent-inverse (failure e) c h = absurd (ground (arith, h))
sent-inverse (success (create_queue_response o)) c h = absurd (ground (arith, h))
sent-inverse (success (fetch_response o)) c h = absurd (ground (arith, h))
sent-inverse (success ack_response) c h = absurd (ground (arith, h))
sent-inverse (success delete_queue_response) c h = absurd (ground (arith, h))

sent_lem : (c : SendCompletion) → sent (success (send_response (completion_outcome c))) ≡ ok c
sent_lem send_accepted = refl
sent_lem send_duplicate = refl

checked_frame-inverse :
    (i : RequestId) (c : Command) (d : Result DecodeError ResponseFrame) (r : Response)
    → checked_frame i c (from_decode d) ≡ ok r
    → d ≡ ok (record { request_id = i; response = r })
checked_frame-inverse i c (err x) r h = absurd (ground (arith, h))
checked_frame-inverse i c (ok f) r h = elim (Bool-cases (f.request_id == i)) [
  | inr other ↦ absurd (let refused = rw other at h in ground (arith, refused))
  | inl same ↦ elim (Bool-cases (is_command (response_command f.response) c)) [
    | inr other ↦ absurd (let refused = rw (same, other) at h in ground (arith, refused))
    | inl right ↦
        let made = rw (same, right) at h in
        let body : f.response ≡ r = ground (arith, made) in
        let id : f.request_id ≡ i = (bytes_beq_iff f.request_id i).0 same in rw (id, body) refl
  ]
]

-- A response that a client takes answers its request.
pub checked_response-inverse :
    (bytes : Bytes) (i : RequestId) (c : Command) (r : Response)
    → checked_response bytes i c ≡ ok r
    → decode_response bytes ≡ ok (record { request_id = i; response = r })
unfolding checked_response
checked_response-inverse bytes i c r h = checked_frame-inverse i c (decode_response bytes) r h

taken :
    {W : Type 0} (r : Result ClientError Response) (w : W) (c : SendCompletion)
    → (bound (r, w) (λ x. give (sent x))).0 ≡ ok c
    → (x : Response) × (r ≡ ok x) × (sent x ≡ ok c)
taken (ok x) w c h = (x, refl, h)
taken (err x) w c h = absurd (ground (arith, h))

-- When the transport gives bytes in answer to the frame of a prepared send, the send completes as
-- accepted or as a duplicate if and only if those bytes are the encoding of the response that says
-- so, with the identifier of the prepared send.
pub send_prepared-completes :
    {W : Type 0} (o : Outside W) (it : PreparedSend) (w : W) (answer : Bytes) (c : SendCompletion)
    → (o.exchange it.frame w).0 ≡ ok answer
    → Each IsByte answer
    → length it.request_id ≡ 16
    → ((send_prepared o it w).0 ≡ ok c) ↔ (answer ≡ encode_response (completing it.request_id c))
unfolding send_prepared checked_response
send_prepared-completes o it w answer c answered read_bytes size =
    let w' = (o.exchange it.frame w).1 in
    (
      λ h.
          let (r, checked, end) =
            taken (checked_response answer it.request_id send_command) w' c (rw answered at h) in
          let read = checked_response-inverse answer it.request_id send_command r checked in
          sym (rw (sent-inverse r c end) at (decode_response_unique answer _ read_bytes read)),
      λ same.
          let read = decode_response-encode_response (completing it.request_id c) size tt in
          rw (answered, same, read, bytes_eq_refl it.request_id, sent_lem c) refl,
    )
