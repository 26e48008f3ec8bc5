-- ===== src/Offline.antt =====
-- crates/cofferwire-client/src/offline.rs: bundles that are exported and imported without a relay. The
-- trait BundleStore is the function `record_bundle` over the state of what implements it, and a key is
-- its bytes, read at each use.
pub mod Fields
pub mod Bundles
pub mod Imports
pub mod Peers
mod Tests
use cofferwire.Base.{
  ℕ, zero, suc, Bool, true, false, Option, none, some, List, [], ◌∷◌, ◌++◌, ltb, ◌==◌, ◌!=◌, ◌&&◌,
  ◌||◌, nat_same, bytes_same, if◌then◌else◌, Bytes, length, Result, ok, err,
}
use cofferwire.Base.BigEndian.{to_be, from_be}
use cofferwire.Types.{QueueId, Principal, MessageId}
use cofferwire.Cbor.{split_at}
use cofferwire.Wire.{new_payload}
use cofferwire.Crypto.{CryptoError, MessageContext, seal_message, open_message, between}
use cofferwire.Crypto.Suite.{Primitives}
use cofferwire.Client.{StoreError}

abbrev pub max_relay_hints : ℕ
max_relay_hints = 8

abbrev pub max_relay_hint_bytes : ℕ
max_relay_hint_bytes = 256

-- "CWOB"
abbrev pub magic : Bytes
magic = 67 ∷ 87 ∷ 79 ∷ 66 ∷ []

abbrev pub version : ℕ
version = 1

abbrev pub envelope_header_len : ℕ
envelope_header_len = 69

abbrev pub invitation_type : ℕ
invitation_type = 1

abbrev pub recovery_type : ℕ
recovery_type = 2

pub data Role : Type 0 where
  sender_role recipient_role : Role

pub record OwnIdentitySeed : Type 0 where
  pub signing_seed : Bytes
  pub encryption_ikm : Bytes

pub record BundleFields : Type 0 where
  pub role : Role
  pub peer_principal : Principal
  pub peer_encryption_public_key : Bytes
  pub created_at_secs : ℕ
  pub own_identity : Option OwnIdentitySeed
  pub relay_hints : List Bytes

pub data BundleError : Type 0 where
  bad_relay_hints malformed unsupported_version : BundleError
  bundle_crypto : CryptoError → BundleError

-- The two checks before anything is written.
abbrev pub hints_fit : List Bytes → Bool
hints_fit [] = true
hints_fit (hint ∷ hints) = if ltb max_relay_hint_bytes (length hint) then false else hints_fit hints

abbrev pub bundle_type : Option OwnIdentitySeed → ℕ
bundle_type none = invitation_type
bundle_type (some _) = recovery_type

abbrev pub role_code : Role → ℕ
role_code sender_role = 0
role_code recipient_role = 1

abbrev pub identity_bytes : Option OwnIdentitySeed → Bytes
identity_bytes none = []
identity_bytes (some seed) = seed.signing_seed ++ seed.encryption_ikm

abbrev pub hints_bytes : List Bytes → Bytes
hints_bytes [] = []
hints_bytes (hint ∷ hints) = to_be 2 (length hint) ++ (hint ++ hints_bytes hints)

unfoldable pub encode_fields : BundleFields → Result BundleError Bytes
encode_fields fields =
    if ltb max_relay_hints (length fields.relay_hints)
    then err bad_relay_hints
    else if hints_fit fields.relay_hints
    then ok (
        (bundle_type fields.own_identity ∷ [])
        ++ ((role_code fields.role ∷ [])
            ++ (fields.peer_principal
                ++ (fields.peer_encryption_public_key
                    ++ (to_be 8 fields.created_at_secs
                        ++ (identity_bytes fields.own_identity
                            ++ ((length fields.relay_hints ∷ [])
                                ++ hints_bytes fields.relay_hints)))))))
    else err bad_relay_hints

-- Cursor: the bytes that are left; a method reads some of them.
abbrev pub Cursor : Type 0 → Type 0
Cursor A = Bytes → Result BundleError (A × Bytes)

abbrev pub cursor_split : Option (Bytes × Bytes) → Result BundleError (Bytes × Bytes)
cursor_split none = err malformed
cursor_split (some (head, tail)) = ok (head, tail)

-- Cursor::bytes, which fails where split_at has too few bytes. Also array2, array8 and array32, whose
-- conversions of a slice of that length succeed.
unfoldable pub cursor_bytes : ℕ → Cursor Bytes
cursor_bytes taken bytes = cursor_split (split_at taken bytes)

abbrev pub first_byte : Bytes → ℕ
first_byte [] = 0
first_byte (b ∷ _) = b

module _ {A B : Type 0} where
  abbrev pub then_with :
      Result BundleError (A × Bytes) → (A → Cursor B) → Result BundleError (B × Bytes)
  then_with (ok (a, rest)) k = k a rest
  then_with (err x) k = err x

  infixl 5 ◌>>=◌
  abbrev pub ◌>>=◌ : Cursor A → (A → Cursor B) → Cursor B
  (p >>= k) bytes = then_with (p bytes) k

abbrev pub give : {A : Type 0} → A → Cursor A
give a rest = ok (a, rest)

abbrev pub fail : {A : Type 0} → Cursor A
fail rest = err malformed

-- Cursor::byte, which takes one byte, so that the index is in range.
unfoldable pub cursor_byte : Cursor ℕ
cursor_byte = cursor_bytes 1 >>= λ bytes. give (first_byte bytes)

abbrev pub role_from : ℕ → Cursor Role
role_from code =
    if code == 0 then give sender_role else if code == 1 then give recipient_role else fail

abbrev pub decode_seed : Cursor (Option OwnIdentitySeed)
decode_seed = cursor_bytes 32 >>= λ seed.
    cursor_bytes 32 >>= λ ikm. give (some (record { signing_seed = seed; encryption_ikm = ikm }))

unfoldable pub decode_identity : ℕ → Cursor (Option OwnIdentitySeed)
decode_identity kind = if kind == recovery_type then decode_seed else give none

abbrev pub decode_hint : Cursor Bytes
decode_hint = cursor_bytes 2 >>= λ bytes.
    if ltb max_relay_hint_bytes (from_be bytes) then fail else cursor_bytes (from_be bytes)

unfoldable pub decode_hints : ℕ → Cursor (List Bytes)
decode_hints zero = give []
decode_hints (suc k) = decode_hint >>= λ hint. decode_hints k >>= λ hints. give (hint ∷ hints)

unfoldable pub decode_counted_hints : Cursor (List Bytes)
decode_counted_hints =
    cursor_byte >>= λ count. if ltb max_relay_hints count then fail else decode_hints count

-- Cursor::finish
abbrev pub cursor_finish : {A : Type 0} → Result BundleError (A × Bytes) → Result BundleError A
cursor_finish (ok (a, [])) = ok a
cursor_finish (ok (a, _ ∷ _)) = err malformed
cursor_finish (err x) = err x

abbrev pub bundle_result : {A : Type 0} → Result CryptoError A → Result BundleError A
bundle_result (ok a) = ok a
bundle_result (err x) = err (bundle_crypto x)

-- The range of a slice from an index to its end.
abbrev pub from_index : ℕ → Bytes → Bytes
from_index from bytes = elim (split_at from bytes) [ none ↦ [] | some (_, rest) ↦ rest ]

module _ (p : Primitives) where
  open p use {SecretKey, is_public_key, Randomness}

  -- EncryptionPublicKey::from_bytes
  abbrev pub decode_public_key : Cursor Bytes
  decode_public_key = cursor_bytes 32 >>= λ key. if is_public_key key then give key else fail

  unfoldable pub decode_kind : ℕ → Cursor BundleFields
  decode_kind kind =
      if kind != invitation_type && kind != recovery_type
      then fail
      else (cursor_byte >>= role_from) >>= λ role. cursor_bytes 32 >>= λ principal.
          decode_public_key >>= λ key. cursor_bytes 8 >>= λ created.
          decode_identity kind >>= λ identity. decode_counted_hints >>= λ hints. give (record {
            role = role;
            peer_principal = principal;
            peer_encryption_public_key = key;
            created_at_secs = from_be created;
            own_identity = identity;
            relay_hints = hints;
          })

  abbrev pub decode_fields : Bytes → Result BundleError BundleFields
  decode_fields plaintext = cursor_finish ((cursor_byte >>= decode_kind) plaintext)

  abbrev pub bundle_envelope : MessageContext → Result BundleError Bytes → Result BundleError Bytes
  bundle_envelope context (ok sealed) =
      ok (magic ++ ((version ∷ []) ++ (context.queue_id ++ (context.message_id ++ sealed))))
  bundle_envelope context (err x) = err x

  abbrev pub sealed_fields :
      SecretKey
      → Bytes
      → MessageContext
      → Randomness
      → Result BundleError Bytes
      → Result BundleError Bytes
  sealed_fields exporting importing context draw (ok plaintext) =
      bundle_envelope context
        (bundle_result (seal_message p exporting importing context plaintext draw))
  sealed_fields exporting importing context draw (err x) = err x

  unfoldable pub seal_bundle :
      MessageContext → SecretKey → Bytes → BundleFields → Randomness → Result BundleError Bytes
  seal_bundle context exporting importing fields draw =
      sealed_fields exporting importing context draw (encode_fields fields)

  abbrev pub Opened : Type 0
  Opened = QueueId × MessageId × BundleFields

  abbrev pub opened_plaintext :
      QueueId → MessageId → Result BundleError BundleFields → Result BundleError Opened
  opened_plaintext queue_id bundle_id (ok fields) = ok (queue_id, bundle_id, fields)
  opened_plaintext queue_id bundle_id (err x) = err x

  abbrev pub opened_seal :
      QueueId → MessageId → Result BundleError Bytes → Result BundleError Opened
  opened_seal queue_id bundle_id (ok plaintext) =
      opened_plaintext queue_id bundle_id (decode_fields plaintext)
  opened_seal queue_id bundle_id (err x) = err x

  abbrev pub open_sealed :
      SecretKey → Bytes → MessageContext → Option Bytes → Result BundleError Opened
  open_sealed importing exporter_key context none = err malformed
  open_sealed importing exporter_key context (some sealed) =
      opened_seal context.queue_id context.message_id
        (bundle_result (open_message p importing exporter_key context sealed))

  abbrev pub open_identified :
      SecretKey
      → Principal
      → Principal
      → Bytes
      → Result BundleError ((QueueId × MessageId) × Bytes)
      → Result BundleError Opened
  open_identified importing importer exporter exporter_key (ok ((queue_id, bundle_id), rest)) =
      open_sealed importing exporter_key
        (record {
          queue_id = queue_id;
          sender = exporter;
          recipient = importer;
          message_id = bundle_id;
        })
        (new_payload rest)
  open_identified importing importer exporter exporter_key (err x) = err x

  abbrev pub identifiers : Cursor (QueueId × MessageId)
  identifiers =
      cursor_bytes 32 >>= λ queue_id. cursor_bytes 32 >>= λ bundle_id. give (queue_id, bundle_id)

  unfoldable pub open_bundle :
      SecretKey → Principal → Principal → Bytes → Bytes → Result BundleError Opened
  open_bundle importing importer exporter exporter_key bytes =
      if ltb (length bytes) envelope_header_len || between 0 4 bytes != magic
      then err malformed
      else if between 4 5 bytes != version ∷ []
      then err unsupported_version
      else open_identified importing importer exporter exporter_key
          (identifiers (from_index 5 bytes))

pub data ImportOutcome : Type 0 where
  imported already_imported : ImportOutcome

pub data BundleStoreError : Type 0 where
  store_conflict : BundleStoreError
  store_failure : StoreError → BundleStoreError

pub data ImportError : Type 0 where
  bundle_rejected : BundleError → ImportError
  conflicting_identity : ImportError
  import_store : StoreError → ImportError

-- BundleStore::record
abbrev pub BundleStore : Type 0 → Type 0
BundleStore W =
    QueueId → Role → Principal → MessageId → W → Result BundleStoreError ImportOutcome × W

module _ {W : Type 0} where
  abbrev pub recorded :
      QueueId
      → BundleFields
      → Result BundleStoreError ImportOutcome × W
      → Result ImportError (QueueId × BundleFields × ImportOutcome) × W
  recorded queue_id fields (ok outcome, w) = (ok (queue_id, fields, outcome), w)
  recorded queue_id fields (err store_conflict, w) = (err conflicting_identity, w)
  recorded queue_id fields (err (store_failure x), w) = (err (import_store x), w)

  abbrev pub record_opened :
      BundleStore W
      → Result BundleError (QueueId × MessageId × BundleFields)
      → W
      → Result ImportError (QueueId × BundleFields × ImportOutcome) × W
  record_opened record_bundle (ok (queue_id, bundle_id, fields)) w =
      recorded queue_id fields
        (record_bundle queue_id fields.role fields.peer_principal bundle_id w)
  record_opened record_bundle (err x) w = (err (bundle_rejected x), w)

module _ (p : Primitives) {W : Type 0} (record_bundle : BundleStore W) where
  unfoldable pub open_and_record_bundle :
      p.SecretKey
      → Principal
      → Principal
      → Bytes
      → Bytes
      → W
      → Result ImportError (QueueId × BundleFields × ImportOutcome) × W
  open_and_record_bundle importing importer exporter exporter_key bytes =
      record_opened record_bundle (open_bundle p importing importer exporter exporter_key bytes)
