-- ===== src/Receipt.antt =====
-- crates/cofferwire-crypto/src/receipt.rs and crates/cofferwire-client/src/receipt.rs: signed receipts
-- of applied messages. SHA-256 is the parameter `digest`, and the trait ReceiptStore is the function
-- `record_receipt` over the state of what implements it.
pub mod Verified
mod Tests
use cofferwire.Base.{
  ℕ, true, Bool, Option, none, some, [], ◌∷◌, ◌++◌, ◌==◌, ◌!=◌, ◌&&◌, ◌||◌, nat_same, bytes_same,
  if◌then◌else◌, Bytes, length, Result, ok, err,
}
use cofferwire.Base.BigEndian.{to_be, from_be}
use cofferwire.Types.{QueueId, Principal, MessageId}
use cofferwire.Cbor.{split_at}
use cofferwire.Crypto.{between}
use cofferwire.Crypto.Suite.{Primitives}
use cofferwire.Client.{StoreError}

-- "cofferwire receipt v1\0"
abbrev pub receipt_domain : Bytes
receipt_domain =
    99 ∷ 111 ∷ 102 ∷ 102 ∷ 101 ∷ 114 ∷ 119 ∷ 105 ∷ 114 ∷ 101 ∷ 32 ∷ 114 ∷ 101 ∷ 99 ∷ 101 ∷ 105 ∷ 112
    ∷ 116 ∷ 32 ∷ 118 ∷ 49 ∷ 0 ∷ []

-- "CWR1"
abbrev pub receipt_magic : Bytes
receipt_magic = 67 ∷ 87 ∷ 82 ∷ 49 ∷ []

abbrev pub applied_type : ℕ
applied_type = 1

abbrev pub signed_len : ℕ
signed_len = 173

abbrev pub receipt_len : ℕ
receipt_len = 237

pub data ReceiptError : Type 0 where
  receipt_malformed receipt_authentication_failed : ReceiptError

pub record ConfirmedObject : Type 0 where
  pub queue_id : QueueId
  pub sender : Principal
  pub recipient : Principal
  pub message_id : MessageId

pub record AppliedReceipt : Type 0 where
  pub confirmed : ConfirmedObject
  pub applied_content_digest : Bytes
  pub applied_at_secs : ℕ

-- read32, on the bytes from the offset on. The length that is checked first keeps it in bounds.
unfoldable pub read32 : Bytes → Bytes × Bytes
read32 bytes = elim (split_at 32 bytes) [ none ↦ ([], []) | some (value, rest) ↦ (value, rest) ]

-- The fields of a receipt, from the bytes behind its type.
unfoldable pub read_receipt : Bytes → AppliedReceipt
read_receipt bytes =
    let (queue_id, after_queue) = read32 bytes in
    let (sender, after_sender) = read32 after_queue in
    let (recipient, after_recipient) = read32 after_sender in
    let (message_id, after_message) = read32 after_recipient in
    let (applied_digest, after_digest) = read32 after_message in
    record {
      confirmed = record {
        queue_id = queue_id;
        sender = sender;
        recipient = recipient;
        message_id = message_id;
      };
      applied_content_digest = applied_digest;
      applied_at_secs = from_be (between 0 8 after_digest);
    }

abbrev pub behind_type : Option (Bytes × Bytes) → Bytes
behind_type none = []
behind_type (some (_, rest)) = rest

abbrev pub signed_fields : ConfirmedObject → Bytes → ℕ → Bytes
signed_fields confirmed applied_digest applied_at_secs =
    receipt_magic
    ++ ((applied_type ∷ [])
        ++ (confirmed.queue_id
            ++ (confirmed.sender
                ++ (confirmed.recipient
                    ++ (confirmed.message_id ++ (applied_digest ++ to_be 8 applied_at_secs))))))

module _ (p : Primitives) where
  open p use {SigningKey, sign, is_verifying_key, is_signature, verify_strict}

  -- sign
  abbrev pub sign_receipt : SigningKey → Bytes → Bytes
  sign_receipt key fields = sign key (receipt_domain ++ fields)

  abbrev pub verify_signed :
      Principal → Bytes → Option (Bytes × Bytes) → Result ReceiptError AppliedReceipt
  verify_signed expected_signer plaintext none = err receipt_malformed
  verify_signed expected_signer plaintext (some (signed, signature)) =
      if is_verifying_key expected_signer
      then if is_signature signature
        then if verify_strict expected_signer (receipt_domain ++ signed) signature
          then ok (read_receipt (behind_type (split_at 5 plaintext)))
          else err receipt_authentication_failed
        else err receipt_authentication_failed
      else err receipt_authentication_failed

  unfoldable pub verify_applied_receipt : Principal → Bytes → Result ReceiptError AppliedReceipt
  verify_applied_receipt expected_signer plaintext =
      if length plaintext != receipt_len
      then err receipt_malformed
      else if between 0 4 plaintext != receipt_magic || between 4 5 plaintext != applied_type ∷ []
      then err receipt_malformed
      else verify_signed expected_signer plaintext (split_at signed_len plaintext)

pub data ReceiptOutcome : Type 0 where
  newly_recorded already_recorded : ReceiptOutcome

pub data ReceiptVerificationError : Type 0 where
  receipt_crypto : ReceiptError → ReceiptVerificationError
  object_mismatch content_mismatch : ReceiptVerificationError
  receipt_store : StoreError → ReceiptVerificationError

-- ReceiptStore::record
abbrev pub ReceiptStore : Type 0 → Type 0
ReceiptStore W = ConfirmedObject → W → Result StoreError ReceiptOutcome × W

-- The equality that ConfirmedObject derives.
unfoldable pub same_object : ConfirmedObject → ConfirmedObject → Bool
same_object c d =
    c.queue_id == d.queue_id
    && (c.sender == d.sender && (c.recipient == d.recipient && c.message_id == d.message_id))

module _ (p : Primitives) (digest : Bytes → Bytes) where
  unfoldable pub build_applied_receipt : p.SigningKey → ConfirmedObject → Bytes → ℕ → Bytes
  build_applied_receipt key confirmed applied_plaintext applied_at_secs =
      let message = signed_fields confirmed (digest applied_plaintext) applied_at_secs in
      message ++ sign_receipt p key message

  abbrev pub content_matches : Option Bytes → AppliedReceipt → Bool
  content_matches none receipt = true
  content_matches (some content) receipt = receipt.applied_content_digest == digest content

  module _ {W : Type 0} (record_receipt : ReceiptStore W) where
    abbrev pub receipt_recorded :
        AppliedReceipt
        → Result StoreError ReceiptOutcome × W
        → Result ReceiptVerificationError (AppliedReceipt × ReceiptOutcome) × W
    receipt_recorded receipt (ok outcome, w) = (ok (receipt, outcome), w)
    receipt_recorded receipt (err x, w) = (err (receipt_store x), w)

    abbrev pub checked_receipt :
        ConfirmedObject
        → Option Bytes
        → Result ReceiptError AppliedReceipt
        → W
        → Result ReceiptVerificationError (AppliedReceipt × ReceiptOutcome) × W
    checked_receipt expected content (err x) w = (err (receipt_crypto x), w)
    checked_receipt expected content (ok receipt) w =
        if same_object receipt.confirmed expected
        then if content_matches content receipt
          then receipt_recorded receipt (record_receipt expected w)
          else (err content_mismatch, w)
        else (err object_mismatch, w)

    unfoldable pub verify_and_record_applied_receipt :
        Principal
        → ConfirmedObject
        → Option Bytes
        → Bytes
        → W
        → Result ReceiptVerificationError (AppliedReceipt × ReceiptOutcome) × W
    verify_and_record_applied_receipt expected_signer expected content plaintext =
        checked_receipt expected content (verify_applied_receipt p expected_signer plaintext)
