-- ===== src/Crypto.antt =====
-- crates/cofferwire-crypto/src/lib.rs: the proofs of requests and the envelopes of messages. The
-- signatures (ed25519-dalek) and the encryption (hpke) are parameters.
pub mod Suite
pub mod Context
pub mod Proofs
pub mod Envelopes
pub mod Sample
mod Tests
use cofferwire.Base.{
  ℕ, ◌-◌, Bool, true, false, Option, none, some, [], ◌∷◌, ◌++◌, ltb, ◌==◌, ◌!=◌, ◌||◌, nat_same,
  bytes_same, if◌then◌else◌, Bytes, length, Result, ok, err,
}
use cofferwire.Types.{QueueId, Principal, MessageId}
use cofferwire.Cbor.{split_at}
use cofferwire.Wire.{new_payload, max_message_bytes_limit}
use cofferwire.Codec.{take_bytes}
use cofferwire.Crypto.Suite.{Primitives}

-- CryptoError
pub data CryptoError : Type 0 where
  invalid_key authentication_failed invalid_envelope decryption_failed : CryptoError
  plaintext_too_large : ℕ → CryptoError
  encryption_failed : CryptoError

abbrev pub profile_id : Bytes
profile_id = 0 ∷ 1 ∷ []

abbrev pub ed25519_id : Bytes
ed25519_id = 0 ∷ 1 ∷ []

abbrev pub kem_id : Bytes
kem_id = 0 ∷ 32 ∷ []

abbrev pub kdf_id : Bytes
kdf_id = 0 ∷ 1 ∷ []

abbrev pub aead_id : Bytes
aead_id = 0 ∷ 3 ∷ []

-- "cofferwire relay request v1\0"
abbrev pub relay_auth_domain : Bytes
relay_auth_domain =
    99 ∷ 111 ∷ 102 ∷ 102 ∷ 101 ∷ 114 ∷ 119 ∷ 105 ∷ 114 ∷ 101 ∷ 32 ∷ 114 ∷ 101 ∷ 108 ∷ 97 ∷ 121 ∷ 32
    ∷ 114 ∷ 101 ∷ 113 ∷ 117 ∷ 101 ∷ 115 ∷ 116 ∷ 32 ∷ 118 ∷ 49 ∷ 0 ∷ []

-- "cofferwire hpke info v1\0"
abbrev pub hpke_info_domain : Bytes
hpke_info_domain =
    99 ∷ 111 ∷ 102 ∷ 102 ∷ 101 ∷ 114 ∷ 119 ∷ 105 ∷ 114 ∷ 101 ∷ 32 ∷ 104 ∷ 112 ∷ 107 ∷ 101 ∷ 32 ∷ 105
    ∷ 110 ∷ 102 ∷ 111 ∷ 32 ∷ 118 ∷ 49 ∷ 0 ∷ []

-- "cofferwire hpke aad v1\0"
abbrev pub hpke_aad_domain : Bytes
hpke_aad_domain =
    99 ∷ 111 ∷ 102 ∷ 102 ∷ 101 ∷ 114 ∷ 119 ∷ 105 ∷ 114 ∷ 101 ∷ 32 ∷ 104 ∷ 112 ∷ 107 ∷ 101 ∷ 32 ∷ 97
    ∷ 97 ∷ 100 ∷ 32 ∷ 118 ∷ 49 ∷ 0 ∷ []

-- MAX_PLAINTEXT_BYTES: a message less its header, its encapsulated key and its tag.
abbrev pub max_plaintext_bytes : ℕ
max_plaintext_bytes = max_message_bytes_limit - 8 - 32 - 16

pub record MessageContext : Type 0 where
  pub queue_id : QueueId
  pub sender : Principal
  pub recipient : Principal
  pub message_id : MessageId

abbrev pub context_bytes : Bytes → MessageContext → Bytes
context_bytes domain context =
    domain
    ++ (profile_id
        ++ (kem_id
            ++ (kdf_id
                ++ (aead_id
                    ++ (context.queue_id
                        ++ (context.sender ++ (context.recipient ++ context.message_id)))))))

-- The range of a slice from one index to another.
abbrev pub between : ℕ → ℕ → Bytes → Bytes
between from to bytes = elim (split_at from bytes) [
  | none ↦ []
  | some (_, rest) ↦ take_bytes (to - from) rest
]

module _ (p : Primitives) where
  open p use {
    SigningKey, verifying_key, sign, is_verifying_key, is_signature, verify_strict, SecretKey,
    is_public_key, is_encapped_key, Randomness, hpke_seal, hpke_open,
  }

  -- RelaySigningKey::principal
  abbrev pub key_principal : SigningKey → Principal
  key_principal key = verifying_key key

  -- RelaySigningKey::sign_request; the proof of 68 bytes fits an Auth.
  unfoldable pub sign_request : SigningKey → Bytes → Bytes
  sign_request key authenticated_bytes =
      profile_id ++ (ed25519_id ++ sign key (relay_auth_domain ++ authenticated_bytes))

  -- The key, the signature and the check of it, for the bytes after the header of a proof.
  abbrev pub verify_signature :
      Principal → Bytes → Option (Bytes × Bytes) → Result CryptoError (Unit {0})
  verify_signature principal authenticated_bytes none = err authentication_failed
  verify_signature principal authenticated_bytes (some (_, signature)) =
      if is_verifying_key principal
      then if is_signature signature
        then if verify_strict principal (relay_auth_domain ++ authenticated_bytes) signature
          then ok tt
          else err authentication_failed
        else err authentication_failed
      else err authentication_failed

  unfoldable pub verify_request : Principal → Bytes → Bytes → Result CryptoError (Unit {0})
  verify_request principal authenticated_bytes auth =
      if length auth != 68 || (between 0 2 auth != profile_id || between 2 4 auth != ed25519_id)
      then err authentication_failed
      else verify_signature principal authenticated_bytes (split_at 4 auth)

  abbrev pub checked_payload : Option Bytes → Result CryptoError Bytes
  checked_payload none = err encryption_failed
  checked_payload (some payload) = ok payload

  abbrev pub enveloped : Option (Bytes × Bytes) → Result CryptoError Bytes
  enveloped none = err encryption_failed
  enveloped (some (encapped, ciphertext)) =
      checked_payload
        (new_payload (profile_id ++ (kem_id ++ (kdf_id ++ (aead_id ++ (encapped ++ ciphertext))))))

  -- seal_message; `draw` is what the generator gives during the call.
  unfoldable pub seal_message :
      SecretKey → Bytes → MessageContext → Bytes → Randomness → Result CryptoError Bytes
  seal_message sender_secret recipient_public context plaintext draw =
      if ltb max_plaintext_bytes (length plaintext)
      then err (plaintext_too_large (length plaintext))
      else if is_public_key recipient_public
      then enveloped (
          hpke_seal sender_secret recipient_public (context_bytes hpke_info_domain context) draw
            plaintext (context_bytes hpke_aad_domain context))
      else err invalid_key

  abbrev pub decrypted : Option Bytes → Result CryptoError Bytes
  decrypted none = err decryption_failed
  decrypted (some plaintext) = ok plaintext

  abbrev pub open_body :
      SecretKey → Bytes → MessageContext → Option (Bytes × Bytes) → Result CryptoError Bytes
  open_body recipient_secret sender_public context none = err invalid_envelope
  open_body recipient_secret sender_public context (some (encapped, ciphertext)) =
      if ltb (length ciphertext) 16
      then err invalid_envelope
      else if is_encapped_key encapped
      then if is_public_key sender_public
        then decrypted (
            hpke_open recipient_secret sender_public encapped
              (context_bytes hpke_info_domain context) ciphertext
              (context_bytes hpke_aad_domain context))
        else err invalid_key
      else err invalid_envelope

  abbrev pub open_envelope :
      SecretKey → Bytes → MessageContext → Option (Bytes × Bytes) → Result CryptoError Bytes
  open_envelope recipient_secret sender_public context none = err invalid_envelope
  open_envelope recipient_secret sender_public context (some (prefix, rest)) =
      if between 0 2 prefix != profile_id
        || (between 2 4 prefix != kem_id
            || (between 4 6 prefix != kdf_id || between 6 8 prefix != aead_id))
      then err invalid_envelope
      else open_body recipient_secret sender_public context (split_at 32 rest)

  unfoldable pub open_message :
      SecretKey → Bytes → MessageContext → Bytes → Result CryptoError Bytes
  open_message recipient_secret sender_public context payload =
      open_envelope recipient_secret sender_public context (split_at 8 payload)
