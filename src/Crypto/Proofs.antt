-- ===== src/Crypto/Proofs.antt =====
-- The proof that a key makes of a request.
use cofferwire.Base.{
  ◌≡◌, refl, false, some, ◌++◌, ltb, ◌!=◌, nat_same, bytes_same, bytes_beq, Bytes, length, ok,
  arith,
}
use cofferwire.Wire.{max_auth_bytes, new_auth}
use cofferwire.Cbor.{split_at}
use cofferwire.Codec.{take_bytes}
use cofferwire.Crypto.{sign_request, verify_request, key_principal, relay_auth_domain}
use cofferwire.Crypto.Suite.{Primitives, SignatureLaws}

module _ (p : Primitives) (laws : SignatureLaws p) where
  open p use {SigningKey, sign}

  pub sign_request-length :
      (key : SigningKey) (bytes : Bytes) → length (sign_request p key bytes) ≡ 68
  unfolding sign_request
  sign_request-length key bytes = omega (arith, laws.sign-length key (relay_auth_domain ++ bytes))

  -- For a key of the signature library: the proof that it makes of a request fits the bound of a
  -- proof, so that the construction of the proof does not panic, and it is verified for the
  -- principal of the key.
  pub verify_request-sign_request :
      (key : SigningKey) (bytes : Bytes)
      → (new_auth (sign_request p key bytes) ≡ some (sign_request p key bytes))
        × (verify_request p (key_principal p key) bytes (sign_request p key bytes) ≡ ok tt)
  unfolding sign_request verify_request split_at take_bytes bytes_beq
  verify_request-sign_request key bytes =
      let message = relay_auth_domain ++ bytes in
      let size = laws.sign-length key message in
      let fits : ltb max_auth_bytes (length (sign_request p key bytes)) ≡ false =
        ground (arith, sign_request-length key bytes) in
      let whole : (length (sign_request p key bytes) != 68) ≡ false =
        ground (arith, sign_request-length key bytes) in
      (
        rw fits refl,
        rw
            (
              whole,
              laws.verifying_key-is_verifying_key key,
              laws.sign-is_signature key message,
              laws.verify_strict-sign key message,
            )
            refl,
      )
