-- ===== src/Codec/Written.antt =====
-- What a parser accepts, and how that composes: each form that is accepted is one that is written.
use cofferwire.Base.{
  ℕ, ◌≡◌, refl, true, false, Option, some, [], ◌∷◌, ◌++◌, ◌==◌, ◌!=◌, nat_same, Bytes, length,
  if◌then◌else◌, ok, err, arith, ap, sym, ◌∙◌, Each, inl, inr, Option-cases, Bool,
}
use mathlib.Core.List.{append_assoc}
use mathlib.Core.Path.{subst}
use cofferwire.Base.BigEndian.{IsByte}
use cofferwire.Cbor.{
  DecodeError, wrong_array_length, wrong_byte_string_length, invalid_value, Decoder, Decoded,
  unsigned, array, array_length, byte_string, encode_unsigned, encode_array, encode_bytes,
}
use cofferwire.Cbor.Canonical.{steps, ok-parts}
use cofferwire.Cbor.Consumed.{Took, argument-Took, byte_string-Took}
use cofferwire.Codec.{Parse, ◌>>=◌, give, protocol_value, id, fixed_bytes, expect_value}

-- A value that is parsed stands there as it is encoded.
pub record Written {A : Type 0} (p : Parse A) (encode : A → Bytes) : Type 0 where
  pub took :
      (d : Decoder) (a : A) (d' : Decoder)
      → Each IsByte d.rest
      → p d ≡ ok (a, d')
      → Took d d' (encode a)

pub record Formed {B : Type 0} (d d' : Decoder) (F : B → Bytes → Type 0) (b : B) : Type 0 where
  pub bytes : Bytes
  pub took : Took d d' bytes
  pub form : F b bytes

-- A value that is parsed, and the bytes that it is parsed from, are in a relation.
pub record Parses {B : Type 0} (p : Parse B) (F : B → Bytes → Type 0) : Type 0 where
  pub formed :
      (d : Decoder) (b : B) (d' : Decoder) → Each IsByte d.rest → p d ≡ ok (b, d') → Formed d d' F b

pub Each-back : (xs ys : Bytes) → Each IsByte (xs ++ ys) → Each IsByte ys
Each-back [] ys e = e
Each-back (x ∷ xs) ys (u, e) = Each-back xs ys e

pub Took-bytes :
    (d d' : Decoder) (bytes : Bytes) → Took d d' bytes → Each IsByte d.rest → Each IsByte d'.rest
Took-bytes d d' bytes t e = Each-back bytes d'.rest (subst (λ x. Each IsByte x) t.whole e)

Took-append : (d d' d'' : Decoder) (x y : Bytes) → Took d d' x → Took d' d'' y → Took d d'' (x ++ y)
Took-append d d' d'' x y s t = record {
  whole = s.whole ∙ (ap (λ z. x ++ z) t.whole ∙ sym (append_assoc x y d''.rest));
  even = omega (arith, s.even, t.even);
}

Took-nothing : (d : Decoder) → Took d d []
Took-nothing d = record { whole = refl; even = refl }

module _ {A B : Type 0} where
  pub then_Parses :
      (p : Parse A) (encode : A → Bytes) (k : A → Parse B) (F : B → Bytes → Type 0)
      → Written p encode
      → ((a : A) → Parses (k a) (λ b y. F b (encode a ++ y)))
      → Parses (p >>= k) F
  then_Parses p encode k F w next = record {
    formed = λ d b d' e h.
        let s = steps (p d) k b d' h in
        let first = w.took d s.value s.decoder e s.first in
        let rest =
          (next s.value).formed s.decoder b d' (Took-bytes d s.decoder (encode s.value) first e)
            s.next in
        record {
          bytes = encode s.value ++ rest.bytes;
          took = Took-append d s.decoder d' (encode s.value) rest.bytes first rest.took;
          form = rest.form;
        };
  }

  -- A part that is parsed by its own relation.
  pub part_Parses :
      (p : Parse A) (G : A → Bytes → Type 0) (k : A → Parse B) (F : B → Bytes → Type 0)
      → Parses p G
      → ((a : A) (x : Bytes) → G a x → Parses (k a) (λ b y. F b (x ++ y)))
      → Parses (p >>= k) F
  part_Parses p G k F w next = record {
    formed = λ d b d' e h.
        let s = steps (p d) k b d' h in
        let first = w.formed d s.value s.decoder e s.first in
        let rest =
          (next s.value first.bytes first.form).formed s.decoder b d'
            (Took-bytes d s.decoder first.bytes first.took e) s.next in
        record {
          bytes = first.bytes ++ rest.bytes;
          took = Took-append d s.decoder d' first.bytes rest.bytes first.took rest.took;
          form = rest.form;
        };
  }

  -- A checked value takes nothing.
  pub value_Parses :
      (o : Option A) (k : A → Parse B) (F : B → Bytes → Type 0)
      → ((a : A) → o ≡ some a → Parses (k a) F)
      → Parses (protocol_value o >>= k) F
  value_Parses o k F next = record {
    formed = λ d b d' e h. elim (Option-cases o) [
      | inl gone ↦ absurd (let refused = rw gone at h in ground (arith, refused))
      | inr (a, found) ↦ (next a found).formed d b d' e (rw found at h)
    ];
  }

module _ {B : Type 0} where
  pub give_Parses : (b : B) (F : B → Bytes → Type 0) → F b [] → Parses (give b) F
  give_Parses b F f = record {
    formed = λ d c d' e h.
        let (same, left) = ok-parts b c d d' h in
        record {
          bytes = [];
          took = subst (λ x. Took d x []) left (Took-nothing d);
          form = subst (λ x. F x []) same f;
        };
  }

  pub if_Parses :
      (t : Bool) (p q : Parse B) (F : B → Bytes → Type 0)
      → (t ≡ true → Parses p F)
      → (t ≡ false → Parses q F)
      → Parses (if t then p else q) F
  if_Parses true p q F f g = f refl
  if_Parses false p q F f g = g refl

-- A refusal is no result.
pub refused :
    {A : Type 0} (t : Bool) (x : DecodeError) (v a : A) (d d' : Decoder)
    → if◌then◌else◌ {A = Decoded A} t (err x) (ok (v, d)) ≡ ok (a, d')
    → (t ≡ false) × (v ≡ a) × (d ≡ d')
refused true x v a d d' h = absurd (ground (arith, h))
refused false x v a d d' h = (refl, (ok-parts v a d d' h).0, (ok-parts v a d d' h).1)

pub granted :
    {A : Type 0} (t : Bool) (x : DecodeError) (v a : A) (d d' : Decoder)
    → if◌then◌else◌ {A = Decoded A} t (ok (v, d)) (err x) ≡ ok (a, d')
    → (t ≡ true) × (v ≡ a) × (d ≡ d')
granted true x v a d d' h = (refl, (ok-parts v a d d' h).0, (ok-parts v a d d' h).1)
granted false x v a d d' h = absurd (ground (arith, h))

pub Written-unsigned : Written unsigned encode_unsigned
Written-unsigned = record { took = λ d a d' e h. argument-Took 0 d a d' e h }

pub Written-array_length : Written array_length encode_array
Written-array_length = record { took = λ d a d' e h. argument-Took 4 d a d' e h }

pub Written-array : (n : ℕ) → Written (array n) (λ _. encode_array n)
unfolding array
Written-array n = record {
  took = λ d a d' e h.
      let s = steps (array_length d) _ a d' h in
      let (same, _, left) =
        refused (s.value != n) (wrong_array_length n s.value) tt a s.decoder d' s.next in
      let it : s.value ≡ n = ground (arith, same) in
      subst (λ x. Took d x (encode_array n)) left
        (subst (λ v. Took d s.decoder (encode_array v)) it
          (argument-Took 4 d s.value s.decoder e s.first));
}

pub Written-expect : (n : ℕ) → Written (expect_value n) (λ _. encode_unsigned n)
unfolding expect_value
Written-expect n = record {
  took = λ d a d' e h.
      let s = steps (unsigned d) _ a d' h in
      let (same, _, left) =
        granted (s.value == n) (invalid_value s.value) tt a s.decoder d' s.next in
      let it : s.value ≡ n = ground (arith, same) in
      subst (λ x. Took d x (encode_unsigned n)) left
        (subst (λ v. Took d s.decoder (encode_unsigned v)) it
          (argument-Took 0 d s.value s.decoder e s.first));
}

pub Written-bytes : (max : ℕ) → Written (byte_string max) encode_bytes
Written-bytes max = record { took = λ d a d' e h. byte_string-Took max d a d' e h }

pub Written-id : Written id encode_bytes
unfolding fixed_bytes
Written-id = record {
  took = λ d a d' e h.
      let s = steps (byte_string 32 d) _ a d' h in
      let (_, same, left) =
        refused (length s.value != 32) (wrong_byte_string_length 32 (length s.value)) s.value a
          s.decoder d' s.next in
      subst (λ x. Took d x (encode_bytes a)) left
        (subst (λ v. Took d s.decoder (encode_bytes v)) same
          (byte_string-Took 32 d s.value s.decoder e s.first));
}

pub weaken_Parses :
    {B : Type 0} (p : Parse B) (G F : B → Bytes → Type 0)
    → Parses p G
    → ((b : B) (y : Bytes) → G b y → F b y)
    → Parses p F
weaken_Parses p G F w f = record {
  formed = λ d b d' e h.
      let s = w.formed d b d' e h in
      record { bytes = s.bytes; took = s.took; form = f b s.bytes s.form };
}

pub last_Parses :
    {A : Type 0} (o : Option A) (F : A → Bytes → Type 0)
    → ((a : A) → o ≡ some a → F a [])
    → Parses (protocol_value o) F
last_Parses o F f = record {
  formed = λ d b d' e h. elim (Option-cases o) [
    | inl gone ↦ absurd (let refused = rw gone at h in ground (arith, refused))
    | inr (a, found) ↦ (give_Parses a F (f a found)).formed d b d' e (rw found at h)
  ];
}

-- A step that reads nothing and makes a value with a property.
pub pure_Parses :
    {A B : Type 0} (p : Parse A) (P : A → Type 0) (k : A → Parse B) (F : B → Bytes → Type 0)
    → ((d : Decoder) (a : A) (d' : Decoder) → p d ≡ ok (a, d') → P a × (d ≡ d'))
    → ((a : A) → P a → Parses (k a) F)
    → Parses (p >>= k) F
pure_Parses p P k F pure next = record {
  formed = λ d b d' e h.
      let s = steps (p d) k b d' h in
      let (property, left) = pure d s.value s.decoder s.first in
      (next s.value property).formed d b d' e
        (subst (λ x. k s.value x ≡ ok (b, d')) (sym left) s.next);
}
