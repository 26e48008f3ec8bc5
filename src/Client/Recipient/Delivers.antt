-- ===== src/Client/Recipient/Delivers.antt =====
-- A message reaches its recipient.
use cofferwire.Base.{
  ℕ, ◌≡◌, ◌<◌, refl, true, some, ◌==◌, nat_same, bytes_same, bytes_eq_refl, Bytes, length, ok,
  arith,
}
use cofferwire.Types.{RequestId, u64_mod}
use cofferwire.Wire.{command_code, WireDelivery, ResponseBody, fetch_response, ack_response}
use cofferwire.Status.{success, body_command}
use cofferwire.Codec.Responses.{ResponseFrame, encode_response}
use cofferwire.Codec.Responses.Sizes.{IsBody}
use cofferwire.Codec.Responses.Frames.{decode_response-encode_response}
use cofferwire.Crypto.{seal_message}
use cofferwire.Crypto.Suite.{Primitives, HpkeLaws}
use cofferwire.Crypto.Envelopes.{open_message-seal_message}
use cofferwire.Client.{Outside, CommitOutcome, checked_response}
use cofferwire.Client.Recipient.{Recipient, polled, fetch_frame, ack_frame, poll, poll_delivery}

-- The frame of a response to a request.
abbrev pub answering : RequestId → ResponseBody → ResponseFrame
answering id body = record { request_id = id; response = success body }

nat_self : (n : ℕ) → (n == n) ≡ true
nat_self n = ground arith

checked_answering :
    (id : RequestId) (body : ResponseBody)
    → length id ≡ 16
    → IsBody body
    → checked_response (encode_response (answering id body)) id (body_command body)
      ≡ ok (success body)
unfolding checked_response
checked_answering id body size valid =
    let read = decode_response-encode_response (answering id body) size valid in
    rw (read, bytes_eq_refl id, nat_self (command_code (body_command body))) refl

module _ (p : Primitives) (encryption : HpkeLaws p) (r : Recipient p) (s : p.SecretKey) where
  -- The relay's side, the store's and the identifiers', in a poll that goes well.
  pub record Exchanges {W : Type 0} (o : Outside W) (w : W) (d : WireDelivery) (plaintext : Bytes)
      (c : CommitOutcome) (end : W) : Type 0 where
    pub i : RequestId
    pub j : RequestId
    pub one : W
    pub two : W
    pub three : W
    pub four : W
    pub fetch_id : o.next_request_id w ≡ (i, one)
    pub fetch_id-length : length i ≡ 16
    pub delivery :
        o.exchange (fetch_frame p r i) one
        ≡ (ok (encode_response (answering i (fetch_response (some d)))), two)
    pub commit : o.commit d.message_id plaintext two ≡ (ok c, three)
    pub ack_id : o.next_request_id three ≡ (j, four)
    pub ack_id-length : length j ≡ 16
    pub confirmation :
        o.exchange (ack_frame p r j d.message_id) four
        ≡ (ok (encode_response (answering j ack_response)), end)

  -- When a sender has sealed a plaintext for the recipient's key, the relay answers the fetch with
  -- a delivery of that payload and confirms the acknowledgement, and the store commits the plaintext
  -- that was sealed, then the poll succeeds, with the outcome of the commit.
  pub poll-delivers :
      {W : Type 0} (o : Outside W) (w : W) (d : WireDelivery) (plaintext : Bytes)
      (c : CommitOutcome) (end : W) (draw : p.Randomness)
      → r.sender_encryption_key ≡ p.public_key s
      → seal_message p s
          (p.public_key r.encryption_key)
          (record {
            queue_id = r.queue_id;
            sender = r.sender;
            recipient = r.recipient;
            message_id = d.message_id;
          })
          plaintext
          draw
        ≡ ok d.payload
      → length d.message_id ≡ 32
      → d.expires_at < u64_mod
      → Exchanges o w d plaintext c end
      → poll p r o w ≡ (ok (polled d.message_id c), end)
  unfolding poll poll_delivery
  poll-delivers o w d plaintext c end draw paired sealed size time e =
      let (opened, fits) =
        open_message-seal_message p encryption s r.encryption_key
          (record {
            queue_id = r.queue_id;
            sender = r.sender;
            recipient = r.recipient;
            message_id = d.message_id;
          })
          plaintext d.payload draw sealed in
      let fetched =
        checked_answering e.i (fetch_response (some d)) e.fetch_id-length (size, fits, time) in
      let confirmed = checked_answering e.j ack_response e.ack_id-length tt in
      rw
        (
          e.fetch_id, e.delivery, fetched, paired, opened, e.commit, e.ack_id, e.confirmation,
          confirmed,
        )
        refl
