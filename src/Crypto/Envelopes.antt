-- ===== src/Crypto/Envelopes.antt =====
-- The envelope that a message is sealed in.
use cofferwire.Base.{
  ◌≡◌, ◌≤◌, ◌<◌, refl, true, false, none, some, ◌++◌, ltb, nat_same, bytes_same, bytes_beq, Bytes,
  length, length-append, ok, err, arith, Bool-cases, inl, inr, Option,
}
use cofferwire.Wire.{max_message_bytes_limit}
use cofferwire.Cbor.{split_at}
use cofferwire.Cbor.Arguments.{split_at_lem}
use cofferwire.Codec.{take_bytes}
use cofferwire.Crypto.{
  seal_message, open_message, enveloped, MessageContext, context_bytes, hpke_info_domain,
  hpke_aad_domain, profile_id, kem_id, kdf_id, aead_id, max_plaintext_bytes, plaintext_too_large,
}
use cofferwire.Crypto.Suite.{Primitives, HpkeLaws}

module _ (p : Primitives) (laws : HpkeLaws p) where
  open p use {
    SecretKey, Randomness, public_key, is_public_key, hpke_seal, hpke_open, is_encapped_key,
  }

  abbrev pub envelope : Bytes → Bytes → Bytes
  envelope encapped ciphertext =
      profile_id ++ (kem_id ++ (kdf_id ++ (aead_id ++ (encapped ++ ciphertext))))

  -- What is in an envelope that was made.
  pub record Sealed (s : SecretKey) (public : Bytes) (c : MessageContext) (plaintext : Bytes)
      (draw : Randomness) (payload : Bytes) : Type 0 where
    pub encapped : Bytes
    pub ciphertext : Bytes
    pub made :
        hpke_seal s public
          (context_bytes hpke_info_domain c)
          draw
          plaintext
          (context_bytes hpke_aad_domain c)
        ≡ some (encapped, ciphertext)
    pub whole : payload ≡ envelope encapped ciphertext
    pub fits : length payload ≤ max_message_bytes_limit

  enveloped_parts :
      (o : Option (Bytes × Bytes)) (payload : Bytes)
      → enveloped p o ≡ ok payload
      → (encapped : Bytes) × (ciphertext : Bytes) × (o ≡ some (encapped, ciphertext))
        × (payload ≡ envelope encapped ciphertext)
        × (length payload ≤ max_message_bytes_limit)
  enveloped_parts none payload h = absurd (ground (arith, h))
  enveloped_parts (some (encapped, ciphertext)) payload h =
      elim (Bool-cases (ltb max_message_bytes_limit (length (envelope encapped ciphertext)))) [
        | inl large ↦ absurd (let refused = rw large at h in ground (arith, refused))
        | inr fits ↦
            let made = rw fits at h in
            let same : payload ≡ envelope encapped ciphertext = ground (arith, made) in
            (encapped, ciphertext, refl, same, rw same (ground (arith, fits)))
      ]

  pub seal_message-Sealed :
      (s : SecretKey) (public : Bytes) (c : MessageContext) (plaintext payload : Bytes)
      (draw : Randomness)
      → seal_message p s public c plaintext draw ≡ ok payload
      → Sealed s public c plaintext draw payload
  unfolding seal_message
  seal_message-Sealed s public c plaintext payload draw h =
      elim (Bool-cases (ltb max_plaintext_bytes (length plaintext))) [
        | inl large ↦ absurd (let refused = rw large at h in ground (arith, refused))
        | inr small ↦ elim (Bool-cases (is_public_key public)) [
          | inl valid ↦
              let (encapped, ciphertext, made, whole, fits) =
                enveloped_parts _ payload (rw (small, valid) at h) in
              record {
                encapped = encapped;
                ciphertext = ciphertext;
                made = made;
                whole = whole;
                fits = fits;
              }
          | inr invalid ↦ absurd (let refused = rw (small, invalid) at h in ground (arith, refused))
        ]
      ]

  -- What is sealed by the key of a sender for the key of a recipient is opened, in the same context,
  -- by the recipient for the sender's key, as the plaintext that was sealed; and its payload is
  -- within the bound of a message.
  pub open_message-seal_message :
      (s t : SecretKey) (c : MessageContext) (plaintext payload : Bytes) (draw : Randomness)
      → seal_message p s (public_key t) c plaintext draw ≡ ok payload
      → (open_message p t (public_key s) c payload ≡ ok plaintext)
        × (length payload ≤ max_message_bytes_limit)
  unfolding open_message split_at take_bytes bytes_beq
  open_message-seal_message s t c plaintext payload draw h =
      let e = seal_message-Sealed s (public_key t) c plaintext payload draw h in
      let (size, valid, longer) =
        laws.hpke_seal-parts s (public_key t) _ draw plaintext _ _ _ e.made in
      let cut = rw size at (split_at_lem e.encapped e.ciphertext) in
      let tagged : ltb (length e.ciphertext) 16 ≡ false = ground (arith, longer) in
      (
        rw
            (
              e.whole,
              cut,
              tagged,
              valid,
              laws.public_key-is_public_key s,
              laws.hpke_open-hpke_seal s t _ draw plaintext _ _ _ e.made,
            )
            refl,
        e.fits,
      )

  -- A plaintext within its bound, for a valid key, is sealed whenever the encryption succeeds: its
  -- envelope always fits a message. A longer plaintext is refused, with its size.
  pub seal_message-fits :
      (s : SecretKey) (public : Bytes) (c : MessageContext) (plaintext : Bytes) (draw : Randomness)
      → is_public_key public ≡ true
      → (length plaintext ≤ max_plaintext_bytes
          → (encapped ciphertext : Bytes)
          → hpke_seal s public
              (context_bytes hpke_info_domain c)
              draw
              plaintext
              (context_bytes hpke_aad_domain c)
            ≡ some (encapped, ciphertext)
          → seal_message p s public c plaintext draw ≡ ok (envelope encapped ciphertext))
        × (max_plaintext_bytes < length plaintext
            → seal_message p s public c plaintext draw
              ≡ err (plaintext_too_large (length plaintext)))
  unfolding seal_message
  seal_message-fits s public c plaintext draw valid = (
    λ short encapped ciphertext made.
        let (size, _, longer) = laws.hpke_seal-parts s public _ draw plaintext _ _ _ made in
        let small : ltb max_plaintext_bytes (length plaintext) ≡ false = ground arith in
        let fits : ltb max_message_bytes_limit (length (envelope encapped ciphertext)) ≡ false =
          ground (arith, length-append encapped ciphertext) in
        rw (small, valid, made, fits) refl,
    λ long.
        let large : ltb max_plaintext_bytes (length plaintext) ≡ true = ground arith in
        rw large refl,
  )
