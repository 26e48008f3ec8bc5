-- ===== src/Crypto/Sample.antt =====
-- Primitives that have their laws: one key, whose signature and encapsulated key are fixed, and
-- encryption that hides nothing.
use cofferwire.Base.{
  ℕ, zero, suc, ◌-◌, ◌≡◌, true, some, [], ◌∷◌, ◌++◌, refl, Bytes, length, length-append, arith, ap,
  nat_same, ◌==◌,
}
use cofferwire.Codec.{take_bytes}
use cofferwire.Codec.Frames.{take_bytes_lem}
use cofferwire.Crypto.Suite.{Primitives, SignatureLaws, HpkeLaws}

abbrev pub filled : ℕ → ℕ → Bytes
filled zero b = []
filled (suc k) b = b ∷ filled k b

abbrev pub sample : Primitives
sample = record {
  SigningKey = Unit;
  verifying_key = λ _. filled 32 2;
  sign = λ _ _. filled 64 6;
  is_verifying_key = λ _. true;
  is_signature = λ s. length s == 64;
  verify_strict = λ _ _ _. true;
  SecretKey = Unit;
  public_key = λ _. filled 32 4;
  is_public_key = λ k. length k == 32;
  is_encapped_key = λ k. length k == 32;
  Randomness = Unit;
  hpke_seal = λ _ _ _ _ plaintext _. some (filled 32 7, plaintext ++ filled 16 5);
  hpke_open = λ _ _ _ _ ciphertext _. some (take_bytes (length ciphertext - 16) ciphertext);
}

pub sample_signatures : SignatureLaws sample
sample_signatures = record {
  verifying_key-length = λ k. refl;
  verifying_key-is_verifying_key = λ k. refl;
  sign-length = λ k m. refl;
  sign-is_signature = λ k m. refl;
  verify_strict-sign = λ k m. refl;
}

pub sample_encryption : HpkeLaws sample
sample_encryption = record {
  public_key-is_public_key = λ s. refl;
  hpke_seal-parts = λ s public info r plaintext aad encapped ciphertext h.
      let one : encapped ≡ filled 32 7 = ground (arith, h) in
      let two : ciphertext ≡ plaintext ++ filled 16 5 = ground (arith, h) in
      (rw one refl, rw one refl, rw two (length-append plaintext (filled 16 5)));
  hpke_open-hpke_seal = λ s t info r plaintext aad encapped ciphertext h.
      let two : ciphertext ≡ plaintext ++ filled 16 5 = ground (arith, h) in
      rw two (
        ap (λ x. some x)
          (take_bytes_lem plaintext (filled 16 5) (length (plaintext ++ filled 16 5) - 16)
            (omega (arith, length-append plaintext (filled 16 5)))));
}
