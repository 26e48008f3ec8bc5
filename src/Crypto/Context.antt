-- ===== src/Crypto/Context.antt =====
-- The bytes that bind a message to its context.
use cofferwire.Base.{◌≡◌, refl, ◌∙◌, sym, [], ◌∷◌, ◌++◌, Bytes, length, arith}
use cofferwire.Crypto.{MessageContext, context_bytes, profile_id, kem_id, kdf_id, aead_id}

pub record IsContext (c : MessageContext) : Type 0 where
  pub queue_id-length : length c.queue_id ≡ 32
  pub sender-length : length c.sender ≡ 32
  pub recipient-length : length c.recipient ≡ 32
  pub message_id-length : length c.message_id ≡ 32

append-parts : (a b x y : Bytes) → length a ≡ length b → a ++ x ≡ b ++ y → (a ≡ b) × (x ≡ y)
append-parts [] [] x y n h = (refl, h)
append-parts [] (v ∷ b) x y n h = absurd (omega (arith, n))
append-parts (u ∷ a) [] x y n h = absurd (omega (arith, n))
append-parts (u ∷ a) (v ∷ b) x y n h =
    let first : u ≡ v = ground (arith, h) in
    let rest : a ++ x ≡ b ++ y = ground (arith, h) in
    let (front, back) = append-parts a b x y (omega (arith, n)) rest in
    (rw (first, front) refl, back)

abbrev parts_of : MessageContext → Bytes
parts_of c = c.queue_id ++ (c.sender ++ (c.recipient ++ c.message_id))

-- Two contexts of identifiers of 32 bytes that are bound by the same bytes, under one domain, are
-- the same context.
pub context_bytes-injective :
    (domain : Bytes) (c d : MessageContext)
    → IsContext c
    → IsContext d
    → context_bytes domain c ≡ context_bytes domain d
    → c ≡ d
context_bytes-injective domain c d i j h =
    let (_, bound) = append-parts domain domain _ _ refl h in
    let (_, parts) =
      append-parts (profile_id ++ (kem_id ++ (kdf_id ++ aead_id)))
        (profile_id ++ (kem_id ++ (kdf_id ++ aead_id))) (parts_of c) (parts_of d) refl bound in
    let (queue, parts') =
      append-parts c.queue_id d.queue_id _ _ (i.queue_id-length ∙ sym j.queue_id-length) parts in
    let (sender, parts'') =
      append-parts c.sender d.sender _ _ (i.sender-length ∙ sym j.sender-length) parts' in
    let (recipient, message) =
      append-parts c.recipient d.recipient _ _ (i.recipient-length ∙ sym j.recipient-length)
        parts'' in
    rw (queue, sender, recipient, message) refl
