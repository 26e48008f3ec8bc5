-- ===== src/Client/Sender/Restore.antt =====
-- A send is restored from the bytes that were kept of it.
use cofferwire.Base.{
  Result-cases, ℕ, ◌≡◌, ◌≤◌, ◌<◌, refl, bytes_same, bytes_eq_refl, Bytes, length, ok, arith, ap,
  sym, ◌∙◌, inl, inr,
}
use mathlib.Core.Path.{subst}
use cofferwire.Types.{RequestId, MessageId, u64_mod}
use cofferwire.Wire.{send, max_message_bytes_limit}
use cofferwire.Codec.{encode_authenticated_request}
use cofferwire.Codec.Frames.{decode_request-encode_request}
use cofferwire.Crypto.{key_principal, seal_message, sign_request}
use cofferwire.Crypto.Suite.{Primitives, SignatureLaws, HpkeLaws}
use cofferwire.Crypto.Proofs.{sign_request-length, verify_request-sign_request}
use cofferwire.Crypto.Envelopes.{seal_message-Sealed}
use cofferwire.Client.{signed_frame}
use cofferwire.Client.Sender.{Sender, PreparedSend, prepare, restore, send_context}

module _ (p : Primitives) (signatures : SignatureLaws p) (encryption : HpkeLaws p) where
  -- A sender as Sender::new makes one, of a queue whose identifier has its size.
  pub record IsSender (s : Sender p) : Type 0 where
    pub owned : key_principal p s.signing_key ≡ s.sender
    pub queue_id-length : length s.queue_id ≡ 32

  sender-length : (s : Sender p) → IsSender s → length s.sender ≡ 32
  sender-length s i =
      ap (λ x. length x) (sym i.owned) ∙ signatures.verifying_key-length s.signing_key

  -- The frame of a send is restored with the identifiers it has.
  abbrev pub sending : Sender p → RequestId → MessageId → Bytes → ℕ → PreparedSend
  sending s request_id message_id payload ttl = record {
    request_id = request_id;
    message_id = message_id;
    frame = signed_frame p s.signing_key request_id (
        send (record {
          queue_id = s.queue_id;
          sender = s.sender;
          message_id = message_id;
          payload = payload;
          ttl = ttl;
        }));
  }

  restore-sending :
      (s : Sender p) (request_id : RequestId) (message_id : MessageId) (payload : Bytes) (ttl : ℕ)
      → IsSender s
      → length request_id ≡ 16
      → length message_id ≡ 32
      → length payload ≤ max_message_bytes_limit
      → ttl < u64_mod
      → restore p s (sending s request_id message_id payload ttl).frame
        ≡ ok (sending s request_id message_id payload ttl)
  unfolding restore signed_frame
  restore-sending s request_id message_id payload ttl i a b c d =
      let request = send (record {
        queue_id = s.queue_id;
        sender = s.sender;
        message_id = message_id;
        payload = payload;
        ttl = ttl;
      }) in
      let covered = encode_authenticated_request request_id request in
      let auth = sign_request p s.signing_key covered in
      let read =
        decode_request-encode_request
          (record { request_id = request_id; request = request; auth = auth })
          (
            a,
            (i.queue_id-length, sender-length s i, b, c, d),
            omega (arith, sign_request-length p signatures s.signing_key covered),
          ) in
      let verified =
        rw i.owned at ((verify_request-sign_request p signatures s.signing_key covered).1) in
      rw (read, verified, bytes_eq_refl s.queue_id, bytes_eq_refl s.sender) refl

  -- For a sender as it is constructed, with libraries that keep their contracts: what it prepares
  -- is restored from its bytes, with the same identifiers and the same bytes.
  pub restore-prepare :
      (s : Sender p) (request_id : RequestId) (message_id : MessageId) (plaintext : Bytes) (ttl : ℕ)
      (draw : p.Randomness) (it : PreparedSend)
      → IsSender s
      → length request_id ≡ 16
      → length message_id ≡ 32
      → ttl < u64_mod
      → prepare p s request_id message_id plaintext ttl draw ≡ ok it
      → restore p s it.frame ≡ ok it
  unfolding prepare
  restore-prepare s request_id message_id plaintext ttl draw it i a b u h =
      elim (Result-cases (
        seal_message p s.encryption_key s.recipient_encryption_key (send_context p s message_id)
          plaintext draw)) [
            | inl (payload, sealed) ↦
                let e =
                  seal_message-Sealed p encryption s.encryption_key s.recipient_encryption_key _
                    plaintext payload draw sealed in
                let made = rw sealed at h in
                let same : sending s request_id message_id payload ttl ≡ it =
                  ground (arith, made) in
                subst (λ x. restore p s x.frame ≡ ok x) same
                  (restore-sending s request_id message_id payload ttl i a b e.fits u)
            | inr (x, refused) ↦ absurd (let failed = rw refused at h in ground (arith, failed))
          ]
