-- ===== src/Offline/Bundles.antt =====
-- Bundles from seal_bundle to open_bundle.
use cofferwire.Base.{
  ◌≡◌, ◌≤◌, refl, false, [], ◌∷◌, ◌++◌, ltb, nat_same, bytes_same, bytes_beq, Bytes, length,
  length-append, ok, arith, Result-cases, inl, inr,
}
use mathlib.Core.List.{append_assoc}
use cofferwire.Wire.{max_message_bytes_limit}
use cofferwire.Cbor.{split_at}
use cofferwire.Codec.{take_bytes}
use cofferwire.Crypto.{MessageContext, seal_message, open_message}
use cofferwire.Crypto.Suite.{Primitives, HpkeLaws}
use cofferwire.Crypto.Envelopes.{open_message-seal_message}
use cofferwire.Offline.{
  cursor_bytes, identifiers, magic, version, BundleFields, encode_fields, decode_fields,
  seal_bundle, open_bundle, sealed_fields,
}
use cofferwire.Offline.Fields.{
  Takes, Takes-bind, Takes-give, Takes-bytes, IsFields, decode_fields-encode_fields,
}

Takes-identifiers :
    (p : Primitives) (queue_id message_id : Bytes)
    → length queue_id ≡ 32
    → length message_id ≡ 32
    → Takes (identifiers p) (queue_id, message_id) (queue_id ++ message_id)
Takes-identifiers p queue_id message_id q m =
    Takes-bind (cursor_bytes 32) _ queue_id (queue_id, message_id) queue_id message_id
      (Takes-bytes queue_id 32 q)
      (Takes-give (cursor_bytes 32) (λ id. (queue_id, id)) message_id message_id
        (Takes-bytes message_id 32 m))

module _ (p : Primitives) (laws : HpkeLaws p) where
  open p use {SecretKey, Randomness, public_key}

  bundle : MessageContext → Bytes → Bytes
  bundle c payload = magic ++ ((version ∷ []) ++ (c.queue_id ++ (c.message_id ++ payload)))

  -- An envelope is opened as far as its sealed message.
  open_bundle-bundle :
      (s t : SecretKey) (c : MessageContext) (fields : BundleFields) (plaintext payload : Bytes)
      → length c.queue_id ≡ 32
      → length c.message_id ≡ 32
      → length payload ≤ max_message_bytes_limit
      → open_message p t (public_key s) c payload ≡ ok plaintext
      → decode_fields p plaintext ≡ ok fields
      → open_bundle p t c.recipient c.sender
          (public_key s)
          (magic ++ ((version ∷ []) ++ (c.queue_id ++ (c.message_id ++ payload))))
        ≡ ok (c.queue_id, c.message_id, fields)
  unfolding open_bundle split_at take_bytes bytes_beq
  open_bundle-bundle s t c fields plaintext payload q m fits opens decodes =
      let header : ltb
            (length (magic ++ ((version ∷ []) ++ (c.queue_id ++ (c.message_id ++ payload))))) 69
          ≡ false =
        ground (
          arith,
          length-append c.queue_id (c.message_id ++ payload),
          length-append c.message_id payload,
        ) in
      let read =
        rw (append_assoc c.queue_id c.message_id payload) at
          ((Takes-identifiers p c.queue_id c.message_id q m).takes payload) in
      let small : ltb max_message_bytes_limit (length payload) ≡ false = ground arith in
      rw (header, read, small, opens, decodes) refl

  sealed_fields-parts :
      (s : SecretKey) (public : Bytes) (c : MessageContext) (draw : Randomness) (plaintext : Bytes)
      (envelope : Bytes)
      → sealed_fields p s public c draw (ok plaintext) ≡ ok envelope
      → (payload : Bytes) × (seal_message p s public c plaintext draw ≡ ok payload)
        × (envelope ≡ magic ++ ((version ∷ []) ++ (c.queue_id ++ (c.message_id ++ payload))))
  sealed_fields-parts s public c draw plaintext envelope h =
      elim (Result-cases (seal_message p s public c plaintext draw)) [
        | inr (x, failed) ↦ absurd (let refused = rw failed at h in ground (arith, refused))
        | inl (payload, sealed) ↦
            let made = rw sealed at h in (payload, sealed, ground (arith, made))
      ]

  -- A bundle that is sealed, with identifiers of 32 bytes and fields within the bounds of their types,
  -- is opened by the device that it is for, which expects its exporter, as the same queue, bundle and
  -- fields.
  pub open_bundle-seal_bundle :
      (s t : SecretKey) (c : MessageContext) (fields : BundleFields) (draw : Randomness)
      (envelope : Bytes)
      → length c.queue_id ≡ 32
      → length c.message_id ≡ 32
      → IsFields p fields
      → seal_bundle p c s (public_key t) fields draw ≡ ok envelope
      → open_bundle p t c.recipient c.sender (public_key s) envelope
        ≡ ok (c.queue_id, c.message_id, fields)
  unfolding seal_bundle
  open_bundle-seal_bundle s t c fields draw envelope q m valid h =
      elim (Result-cases (encode_fields fields)) [
        | inr (x, failed) ↦ absurd (let refused = rw failed at h in ground (arith, refused))
        | inl (plaintext, encoded) ↦
            let (payload, sealed, whole) =
              sealed_fields-parts s (public_key t) c draw plaintext envelope (rw encoded at h) in
            let (opens, fits) =
              open_message-seal_message p laws s t c plaintext payload draw sealed in
            rw whole (
              open_bundle-bundle s t c fields plaintext payload q m fits opens
                (decode_fields-encode_fields p fields plaintext valid encoded))
      ]
