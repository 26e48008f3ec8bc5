-- ===== src/Receipt/Verified.antt =====
-- What is proved of receipts.
use cofferwire.Base.{
  ℕ, ◌+◌, ◌≡◌, ◌≢◌, ◌<◌, refl, true, false, some, ◌++◌, ◌==◌, ◌!=◌, nat_same, bytes_same, bytes_beq,
  bytes_beq_iff, Bytes, length, length-append, ok, err, arith, Bool-cases, inl, inr, Option,
}
use mathlib.Core.List.{append_assoc}
use cofferwire.Base.BigEndian.{to_be, length-to_be, from_be-to_be}
use cofferwire.Types.{u64_mod}
use cofferwire.Cbor.{split_at}
use cofferwire.Cbor.Arguments.{split_at_lem}
use cofferwire.Codec.{take_bytes}
use cofferwire.Codec.Frames.{take_bytes_lem}
use cofferwire.Crypto.{between}
use cofferwire.Crypto.Suite.{Primitives, SignatureLaws}
use cofferwire.Receipt.{
  read32, read_receipt, ConfirmedObject, signed_fields, verify_applied_receipt,
  build_applied_receipt, sign_receipt, signed_len, receipt_len, same_object, ReceiptStore,
  verify_and_record_applied_receipt, receipt_recorded, object_mismatch, content_mismatch,
}

-- The sizes of identifiers, which are arrays of 32 bytes in the source.
pub record IsObject (c : ConfirmedObject) : Type 0 where
  pub queue_id_sized : length c.queue_id ≡ 32
  pub sender_sized : length c.sender ≡ 32
  pub recipient_sized : length c.recipient ≡ 32
  pub message_id_sized : length c.message_id ≡ 32

read32_lem : (value rest : Bytes) → length value ≡ 32 → read32 (value ++ rest) ≡ (value, rest)
unfolding read32
read32_lem value rest h = let cut = rw h at (split_at_lem value rest) in rw (cut, read32) refl

first_eight : (bytes rest : Bytes) → length bytes ≡ 8 → between 0 8 (bytes ++ rest) ≡ bytes
unfolding split_at
first_eight bytes rest h = take_bytes_lem bytes rest 8 h

-- The bytes behind the type of a receipt.
abbrev object_bytes : ConfirmedObject → Bytes → Bytes
object_bytes c last = c.queue_id ++ (c.sender ++ (c.recipient ++ (c.message_id ++ last)))

object_bytes-append :
    (c : ConfirmedObject) (last rest : Bytes)
    → object_bytes c last ++ rest ≡ object_bytes c (last ++ rest)
object_bytes-append c last rest =
    rw
      (
        append_assoc c.queue_id (c.sender ++ (c.recipient ++ (c.message_id ++ last))) rest,
        append_assoc c.sender (c.recipient ++ (c.message_id ++ last)) rest,
        append_assoc c.recipient (c.message_id ++ last) rest,
        append_assoc c.message_id last rest,
      )
      refl

read_receipt_lem :
    (c : ConfirmedObject) (applied : Bytes) (at : ℕ) (rest : Bytes)
    → IsObject c
    → length applied ≡ 32
    → at < u64_mod
    → read_receipt (object_bytes c (applied ++ (to_be 8 at ++ rest)))
      ≡ record { confirmed = c; applied_content_digest = applied; applied_at_secs = at }
unfolding read_receipt
read_receipt_lem c applied at rest sized size fits =
    rw
      (
        read32_lem c.queue_id _ sized.queue_id_sized,
        read32_lem c.sender _ sized.sender_sized,
        read32_lem c.recipient _ sized.recipient_sized,
        read32_lem c.message_id _ sized.message_id_sized,
        read32_lem applied _ size,
        first_eight (to_be 8 at) rest (length-to_be 8 at),
        from_be-to_be 8 at fits,
      )
      refl

length-object_bytes :
    (c : ConfirmedObject) (last : Bytes)
    → IsObject c
    → length (object_bytes c last) ≡ 128 + length last
length-object_bytes c last sized = omega (
  arith,
  length-append c.queue_id (c.sender ++ (c.recipient ++ (c.message_id ++ last))),
  length-append c.sender (c.recipient ++ (c.message_id ++ last)),
  length-append c.recipient (c.message_id ++ last),
  length-append c.message_id last,
  sized.queue_id_sized,
  sized.sender_sized,
  sized.recipient_sized,
  sized.message_id_sized,
)

length-signed_fields :
    (c : ConfirmedObject) (applied : Bytes) (at : ℕ)
    → IsObject c
    → length applied ≡ 32
    → length (signed_fields c applied at) ≡ signed_len
length-signed_fields c applied at sized size = omega (
  arith,
  length-object_bytes c (applied ++ to_be 8 at) sized,
  length-append applied (to_be 8 at),
  length-to_be 8 at,
  size,
)

same_object_self : (c : ConfirmedObject) → same_object c c ≡ true
unfolding same_object
same_object_self c = ground (
  arith,
  bytes_beq_iff c.queue_id c.queue_id,
  bytes_beq_iff c.sender c.sender,
  bytes_beq_iff c.recipient c.recipient,
  bytes_beq_iff c.message_id c.message_id,
)

same_object_eq : (c d : ConfirmedObject) → same_object c d ≡ true → c ≡ d
unfolding same_object
same_object_eq c d h =
    let queue_id : c.queue_id ≡ d.queue_id =
      ground (arith, h, bytes_beq_iff c.queue_id d.queue_id) in
    let sender : c.sender ≡ d.sender = ground (arith, h, bytes_beq_iff c.sender d.sender) in
    let recipient : c.recipient ≡ d.recipient =
      ground (arith, h, bytes_beq_iff c.recipient d.recipient) in
    let message_id : c.message_id ≡ d.message_id =
      ground (arith, h, bytes_beq_iff c.message_id d.message_id) in
    λ i. record {
      queue_id = queue_id i;
      sender = sender i;
      recipient = recipient i;
      message_id = message_id i;
    }

same_object_other : (c d : ConfirmedObject) → c ≢ d → same_object c d ≡ false
same_object_other c d h = elim (Bool-cases (same_object c d)) [
  | inl same ↦ absurd (h (same_object_eq c d same))
  | inr other ↦ other
]

receipt_length :
    (fields signature : Bytes)
    → length fields ≡ signed_len
    → length signature ≡ 64
    → length (fields ++ signature) != receipt_len ≡ false
receipt_length fields signature h k = ground (arith, length-append fields signature)

module _ (p : Primitives) (laws : SignatureLaws p) (digest : Bytes → Bytes)
    (digest-length : (content : Bytes) → length (digest content) ≡ 32) where
  open p use {SigningKey, verifying_key, sign}

  -- A receipt that a key signs verifies for the principal of the key, with all its fields.
  pub verify_applied_receipt-build_applied_receipt :
      (key : SigningKey) (c : ConfirmedObject) (content : Bytes) (at : ℕ)
      → IsObject c
      → at < u64_mod
      → verify_applied_receipt p
          (verifying_key key)
          (build_applied_receipt p digest key c content at)
        ≡ ok (record {
          confirmed = c;
          applied_content_digest = digest content;
          applied_at_secs = at;
        })
  unfolding verify_applied_receipt build_applied_receipt split_at take_bytes bytes_beq
  verify_applied_receipt-build_applied_receipt key c content at sized fits =
      let fields = signed_fields c (digest content) at in
      let signature = sign_receipt p key fields in
      let measured = length-signed_fields c (digest content) at sized (digest-length content) in
      let whole = receipt_length fields signature measured (laws.sign-length key _) in
      let cut = rw measured at (split_at_lem fields signature) in
      let body =
        rw (append_assoc (digest content) (to_be 8 at) signature) at
          (object_bytes-append c (digest content ++ to_be 8 at) signature) in
      rw
        (
          whole,
          cut,
          laws.verifying_key-is_verifying_key key,
          laws.sign-is_signature key _,
          laws.verify_strict-sign key _,
          body,
          read_receipt_lem c (digest content) at signature sized (digest-length content) fits,
        )
        refl

  -- A receipt that a key signs for an object of identifiers of 32 bytes, at a time below 2 ^ 64, is
  -- recorded for a client that expects the principal of the key, the object and the content, with
  -- the outcome of its store. One that expects another object, or content with another digest, gets
  -- the error of that, and its store stays as it is.
  pub verify_and_record_applied_receipt-build_applied_receipt :
      {W : Type 0} (record_receipt : ReceiptStore W) (key : SigningKey)
      (c expected : ConfirmedObject) (content other : Bytes) (held : Option Bytes) (at : ℕ) (w : W)
      → IsObject c
      → at < u64_mod
      → c ≢ expected
      → digest content ≢ digest other
      → (verify_and_record_applied_receipt p digest record_receipt
            (verifying_key key)
            c
            (some content)
            (build_applied_receipt p digest key c content at)
            w
          ≡ receipt_recorded p digest record_receipt
              (record {
                confirmed = c;
                applied_content_digest = digest content;
                applied_at_secs = at;
              })
              (record_receipt c w))
        × (verify_and_record_applied_receipt p digest record_receipt
              (verifying_key key)
              expected
              held
              (build_applied_receipt p digest key c content at)
              w
            ≡ (err object_mismatch, w))
        × (verify_and_record_applied_receipt p digest record_receipt
              (verifying_key key)
              c
              (some other)
              (build_applied_receipt p digest key c content at)
              w
            ≡ (err content_mismatch, w))
  unfolding verify_and_record_applied_receipt
  verify_and_record_applied_receipt-build_applied_receipt record_receipt key c expected content
        other held at w sized fits elsewhere differs =
      let verified = verify_applied_receipt-build_applied_receipt key c content at sized fits in
      let itself = same_object_self c in
      let matches : digest content == digest content ≡ true =
        ground (arith, bytes_beq_iff (digest content) (digest content)) in
      let unlike : digest content == digest other ≡ false =
        ground (arith, differs, bytes_beq_iff (digest content) (digest other)) in
      (
        rw (verified, itself, matches) refl,
        rw (verified, same_object_other c expected elsewhere) refl,
        rw (verified, itself, unlike) refl,
      )
