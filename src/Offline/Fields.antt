-- ===== src/Offline/Fields.antt =====
-- The fields of a bundle, encode_fields and decode_fields.
use cofferwire.Base.{
  ℕ, ◌≡◌, ◌≤◌, ◌<◌, refl, true, false, none, some, Option, List, [], ◌∷◌, ◌++◌, ltb, ◌!=◌, ◌&&◌,
  nat_same, Bytes, length, ok, arith, Bool-cases, inl, inr,
}
use mathlib.Core.List.{append_assoc, append-nil}
use cofferwire.Base.BigEndian.{to_be, from_be, length-to_be, from_be-to_be}
use cofferwire.Types.{u64_mod}
use cofferwire.Cbor.{split_at}
use cofferwire.Cbor.Arguments.{split_at_lem}
use cofferwire.Crypto.Suite.{Primitives}
use cofferwire.Offline.{
  Cursor, ◌>>=◌, cursor_bytes, cursor_byte, give, role_from, role_code, sender_role, recipient_role,
  Role, OwnIdentitySeed, BundleFields, bundle_type, identity_bytes, decode_identity, hints_fit,
  hints_bytes, decode_hint, decode_hints, decode_counted_hints, max_relay_hints,
  max_relay_hint_bytes, encode_fields, decode_fields, decode_kind, decode_public_key,
}

-- The cursor gives the value of these bytes, and stands behind them, whatever follows.
pub record Takes {A : Type 0} (p : Cursor A) (a : A) (bytes : Bytes) : Type 0 where
  pub takes : (rest : Bytes) → p (bytes ++ rest) ≡ ok (a, rest)

pub Takes-bind :
    {A B : Type 0} (p : Cursor A) (k : A → Cursor B) (a : A) (b : B) (x y : Bytes)
    → Takes p a x
    → Takes (k a) b y
    → Takes (p >>= k) b (x ++ y)
Takes-bind p k a b x y first next = record {
  takes = λ rest. rw (append_assoc x y rest, first.takes (y ++ rest)) (next.takes rest);
}

pub Takes-give :
    {A B : Type 0} (p : Cursor A) (f : A → B) (a : A) (x : Bytes)
    → Takes p a x
    → Takes (p >>= λ v. give (f v)) (f a) x
Takes-give p f a x first = record { takes = λ rest. rw (first.takes rest) refl }

pub Takes-bytes : (bytes : Bytes) (k : ℕ) → length bytes ≡ k → Takes (cursor_bytes k) bytes bytes
unfolding cursor_bytes
Takes-bytes bytes k h = record {
  takes = λ rest. let cut = rw h at (split_at_lem bytes rest) in rw cut refl;
}

pub Takes-byte : (b : ℕ) → Takes cursor_byte b (b ∷ [])
unfolding cursor_byte cursor_bytes split_at
Takes-byte b = record { takes = λ rest. refl }

Takes-role : (role : Role) → Takes (cursor_byte >>= role_from) role (role_code role ∷ [])
unfolding cursor_byte cursor_bytes split_at
Takes-role sender_role = record { takes = λ rest. refl }
Takes-role recipient_role = record { takes = λ rest. refl }

-- The sizes of the seeds of an identity, which are arrays of 32 bytes in the source.
unfoldable pub IdentitySized : Option OwnIdentitySeed → Type 0
IdentitySized none = Unit
IdentitySized (some seed) = (length seed.signing_seed ≡ 32) × (length seed.encryption_ikm ≡ 32)

Takes-identity :
    (identity : Option OwnIdentitySeed)
    → IdentitySized identity
    → Takes (decode_identity (bundle_type identity)) identity (identity_bytes identity)
unfolding decode_identity IdentitySized
Takes-identity none h = record { takes = λ rest. refl }
Takes-identity (some seed) (signing, ikm) =
    Takes-bind (cursor_bytes 32) _ seed.signing_seed _ seed.signing_seed seed.encryption_ikm
      (Takes-bytes seed.signing_seed 32 signing)
      (Takes-give (cursor_bytes 32)
        (λ ikm. some (record { signing_seed = seed.signing_seed; encryption_ikm = ikm }))
        seed.encryption_ikm seed.encryption_ikm (Takes-bytes seed.encryption_ikm 32 ikm))

Takes-hint :
    (hint : Bytes)
    → length hint ≤ max_relay_hint_bytes
    → Takes decode_hint hint (to_be 2 (length hint) ++ hint)
Takes-hint hint h =
    let sized : from_be (to_be 2 (length hint)) ≡ length hint =
      from_be-to_be 2 (length hint) (omega arith) in
    let fits : ltb max_relay_hint_bytes (length hint) ≡ false = ground arith in
    Takes-bind (cursor_bytes 2) _ (to_be 2 (length hint)) hint _ hint
      (Takes-bytes (to_be 2 (length hint)) 2 (length-to_be 2 (length hint)))
      (rw (sized, fits) (Takes-bytes hint (length hint) refl))

hints_fit-parts :
    (hint : Bytes) (hints : List Bytes)
    → hints_fit (hint ∷ hints) ≡ true
    → (length hint ≤ max_relay_hint_bytes) × (hints_fit hints ≡ true)
hints_fit-parts hint hints h = (ground (arith, h), ground (arith, h))

Takes-hints :
    (hints : List Bytes)
    → hints_fit hints ≡ true
    → Takes (decode_hints (length hints)) hints (hints_bytes hints)
unfolding decode_hints
Takes-hints [] h = record { takes = λ rest. refl }
Takes-hints (hint ∷ hints) h =
    let (fits, others) = hints_fit-parts hint hints h in
    rw (append_assoc (to_be 2 (length hint)) hint (hints_bytes hints)) at (
      Takes-bind decode_hint (λ first. decode_hints (length hints) >>= λ rest. give (first ∷ rest))
        hint (hint ∷ hints) (to_be 2 (length hint) ++ hint) (hints_bytes hints)
        (Takes-hint hint fits)
        (Takes-give (decode_hints (length hints)) (λ rest. hint ∷ rest) hints (hints_bytes hints)
          (Takes-hints hints others)))

Takes-counted :
    (hints : List Bytes)
    → hints_fit hints ≡ true
    → length hints ≤ max_relay_hints
    → Takes decode_counted_hints hints ((length hints ∷ []) ++ hints_bytes hints)
unfolding decode_counted_hints
Takes-counted hints fit few =
    let within : ltb max_relay_hints (length hints) ≡ false = ground arith in
    Takes-bind cursor_byte _ (length hints) hints (length hints ∷ []) (hints_bytes hints)
      (Takes-byte (length hints)) (rw within (Takes-hints hints fit))

-- The bounds of the source's types: a u64, and arrays of 32 bytes.
pub record IsFields (p : Primitives) (fields : BundleFields) : Type 0 where
  pub principal_sized : length fields.peer_principal ≡ 32
  pub key_sized : length fields.peer_encryption_public_key ≡ 32
  pub key_valid : p.is_public_key fields.peer_encryption_public_key ≡ true
  pub created_fits : fields.created_at_secs < u64_mod
  pub identity_sized : IdentitySized fields.own_identity

Takes-key :
    (p : Primitives) (key : Bytes)
    → length key ≡ 32
    → p.is_public_key key ≡ true
    → Takes (decode_public_key p) key key
Takes-key p key sized valid = record {
  takes = λ rest. rw ((Takes-bytes key 32 sized).takes rest, valid) refl;
}

kind_known :
    (identity : Option OwnIdentitySeed)
    → (bundle_type identity != 1 && bundle_type identity != 2) ≡ false
kind_known none = refl
kind_known (some _) = refl

-- The bytes of the fields, after the byte of their type.
abbrev pub fields_bytes : BundleFields → Bytes
fields_bytes fields =
    (role_code fields.role ∷ [])
    ++ (fields.peer_principal
        ++ (fields.peer_encryption_public_key
            ++ (to_be 8 fields.created_at_secs
                ++ (identity_bytes fields.own_identity
                    ++ ((length fields.relay_hints ∷ []) ++ hints_bytes fields.relay_hints)))))

Takes-fields :
    (p : Primitives) (fields : BundleFields)
    → IsFields p fields
    → hints_fit fields.relay_hints ≡ true
    → length fields.relay_hints ≤ max_relay_hints
    → Takes (decode_kind p (bundle_type fields.own_identity)) fields (fields_bytes fields)
unfolding decode_kind
Takes-fields p fields h fit few =
    let created : from_be (to_be 8 fields.created_at_secs) ≡ fields.created_at_secs =
      from_be-to_be 8 fields.created_at_secs h.created_fits in
    rw (kind_known fields.own_identity) (
      Takes-bind (cursor_byte >>= role_from) _ fields.role fields _ _ (Takes-role fields.role) (
        Takes-bind (cursor_bytes 32) _ fields.peer_principal fields _ _
          (Takes-bytes fields.peer_principal 32 h.principal_sized)
          (Takes-bind (decode_public_key p) _ fields.peer_encryption_public_key fields _ _
            (Takes-key p fields.peer_encryption_public_key h.key_sized h.key_valid)
            (Takes-bind (cursor_bytes 8) _ (to_be 8 fields.created_at_secs) fields _ _
              (Takes-bytes _ 8 (length-to_be 8 fields.created_at_secs))
              (rw created (
                Takes-bind (decode_identity (bundle_type fields.own_identity)) _ fields.own_identity
                  fields _ _ (Takes-identity fields.own_identity h.identity_sized)
                  (Takes-give decode_counted_hints _ fields.relay_hints _
                    (Takes-counted fields.relay_hints fit few))))))))

-- What is encoded is bounded, and is decoded to the same fields.
pub decode_fields-encode_fields :
    (p : Primitives) (fields : BundleFields) (plaintext : Bytes)
    → IsFields p fields
    → encode_fields fields ≡ ok plaintext
    → decode_fields p plaintext ≡ ok fields
unfolding encode_fields
decode_fields-encode_fields p fields plaintext valid h =
    elim (Bool-cases (ltb max_relay_hints (length fields.relay_hints))) [
      | inl many ↦ absurd (let refused = rw many at h in ground (arith, refused))
      | inr few ↦ elim (Bool-cases (hints_fit fields.relay_hints)) [
        | inr long ↦ absurd (let refused = rw (few, long) at h in ground (arith, refused))
        | inl fit ↦
            let made = rw (few, fit) at h in
            let same : plaintext ≡ (bundle_type fields.own_identity ∷ []) ++ fields_bytes fields =
              ground (arith, made) in
            let read =
              Takes-bind cursor_byte (decode_kind p) (bundle_type fields.own_identity) fields _ _
                (Takes-byte (bundle_type fields.own_identity))
                (Takes-fields p fields valid fit (ground (arith, few))) in
            let whole =
              rw (append-nil ((bundle_type fields.own_identity ∷ []) ++ fields_bytes fields)) at
                (read.takes []) in
            rw (same, whole) refl
      ]
    ]
