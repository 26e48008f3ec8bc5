-- ===== src/Crypto/Suite.antt =====
-- The libraries under crates/cofferwire-crypto: what it calls of ed25519-dalek and hpke, and what it
-- relies on.
use cofferwire.Base.{◌+◌, ◌≡◌, Bool, true, Option, some, Bytes, length}

-- Keys are read from their bytes at each use, as the source does: `is_verifying_key`, `is_signature`,
-- `is_public_key` and `is_encapped_key` are whether from_bytes and from_slice succeed. `hpke_seal` is
-- setup_sender with the sender's key as its authentication, then seal; `hpke_open` is
-- setup_receiver, then open. Each fails where one of the two calls does.
pub record Primitives : Type 1 where
  pub SigningKey : Type 0
  pub verifying_key : SigningKey → Bytes
  pub sign : SigningKey → Bytes → Bytes
  pub is_verifying_key : Bytes → Bool
  pub is_signature : Bytes → Bool
  pub verify_strict : Bytes → Bytes → Bytes → Bool
  pub SecretKey : Type 0
  pub public_key : SecretKey → Bytes
  pub is_public_key : Bytes → Bool
  pub is_encapped_key : Bytes → Bool
  pub Randomness : Type 0
  pub hpke_seal : SecretKey → Bytes → Bytes → Randomness → Bytes → Bytes → Option (Bytes × Bytes)
  pub hpke_open : SecretKey → Bytes → Bytes → Bytes → Bytes → Bytes → Option Bytes

-- RFC 8032: a key has 32 bytes and a signature 64, and a signature verifies.
pub record SignatureLaws (p : Primitives) : Type 0 where
  pub verifying_key-length : (k : p.SigningKey) → length (p.verifying_key k) ≡ 32
  pub verifying_key-is_verifying_key :
      (k : p.SigningKey) → p.is_verifying_key (p.verifying_key k) ≡ true
  pub sign-length : (k : p.SigningKey) (m : Bytes) → length (p.sign k m) ≡ 64
  pub sign-is_signature : (k : p.SigningKey) (m : Bytes) → p.is_signature (p.sign k m) ≡ true
  pub verify_strict-sign :
      (k : p.SigningKey) (m : Bytes) → p.verify_strict (p.verifying_key k) m (p.sign k m) ≡ true

-- RFC 9180, at its suite of X25519 and ChaCha20-Poly1305: an encapsulated key has 32 bytes, a
-- ciphertext 16 more than its plaintext, and what is sealed for a key opens with it.
pub record HpkeLaws (p : Primitives) : Type 0 where
  pub public_key-is_public_key : (s : p.SecretKey) → p.is_public_key (p.public_key s) ≡ true
  pub hpke_seal-parts :
      (s : p.SecretKey) (public info : Bytes) (r : p.Randomness)
      (plaintext aad encapped ciphertext : Bytes)
      → p.hpke_seal s public info r plaintext aad ≡ some (encapped, ciphertext)
      → (length encapped ≡ 32)
        × (p.is_encapped_key encapped ≡ true)
        × (length ciphertext ≡ length plaintext + 16)
  pub hpke_open-hpke_seal :
      (s t : p.SecretKey) (info : Bytes) (r : p.Randomness)
      (plaintext aad encapped ciphertext : Bytes)
      → p.hpke_seal s (p.public_key t) info r plaintext aad ≡ some (encapped, ciphertext)
      → p.hpke_open t (p.public_key s) encapped info ciphertext aad ≡ some plaintext
