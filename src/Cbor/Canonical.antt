-- ===== src/Cbor/Canonical.antt =====
-- What is decoded has been encoded: an argument has one form only.
use cofferwire.Base.{
  ℕ, zero, suc, ◌+◌, ◌*◌, ◌/◌, ◌%◌, ◌^◌, ◌<◌, ◌≤◌, ◌≡◌, refl, true, [], ◌∷◌, ◌++◌, ltb, leb, ◌==◌,
  ◌!=◌, nat_same, Bytes, length, ok, err, arith, ap, sym, ◌∙◌, Each, Bool-cases, inl, inr,
}
use mathlib.Core.Path.{subst}
use native.Mathlib.Nat.{pow-suc}
use cofferwire.Base.BigEndian.{to_be, from_be, from_be-snoc, IsByte}
use cofferwire.Cbor.{
  Decoder, Decoded, and_then, argument_bytes, wide_argument, additional_argument, argument,
  encode_argument,
}

-- A string that is not empty is its bytes but the last, and the last.
record Snoc (bs : Bytes) (k : ℕ) : Type 0 where
  front : Bytes
  last : ℕ
  whole : bs ≡ front ++ last ∷ []
  measure : length front ≡ k
  inside : Each IsByte front
  small : IsByte last

snoc : (bs : Bytes) (k : ℕ) → length bs ≡ suc k → Each IsByte bs → Snoc bs k
snoc [] k h e = absurd (omega arith)
snoc (x ∷ []) k h (u, e) = record {
  front = [];
  last = x;
  whole = refl;
  measure = omega arith;
  inside = tt;
  small = u;
}
snoc (x ∷ y ∷ ys) zero h e = absurd (omega arith)
snoc (x ∷ y ∷ ys) (suc k) h (u, e) =
    let s = snoc (y ∷ ys) k (omega arith) e in
    record {
      front = x ∷ s.front;
      last = s.last;
      whole = ap (λ bs. x ∷ bs) s.whole;
      measure = omega (arith, s.measure);
      inside = (u, s.inside);
      small = s.small;
    }

empty-bound : from_be [] < 256 ^ 0
unfolding from_be
empty-bound = omega arith

to_be-from_be :
    (k : ℕ) (bs : Bytes)
    → length bs ≡ k
    → Each IsByte bs
    → (to_be k (from_be bs) ≡ bs) × (from_be bs < 256 ^ k)
unfolding to_be
to_be-from_be zero [] h e = (refl, empty-bound)
to_be-from_be zero (b ∷ bs) h e = absurd (omega arith)
to_be-from_be (suc k) bs h e =
    let s = snoc bs k h e in
    let (same, bound) = to_be-from_be k s.front s.measure s.inside in
    let value : from_be bs ≡ from_be s.front * 256 + s.last =
      ap from_be s.whole ∙ from_be-snoc s.front s.last in
    let high : from_be bs / 256 ≡ from_be s.front = omega (arith, value, s.small) in
    let low : from_be bs % 256 ≡ s.last = omega (arith, value, s.small) in
    (rw (high, low) (rw same (sym s.whole)), omega (arith, value, s.small, bound, pow-suc 256 k))

pub record Steps {A B : Type 0} (r : Decoded A) (k : A → Decoder → Decoded B) (b : B) (d' : Decoder)
    : Type 0 where
  pub value : A
  pub decoder : Decoder
  pub first : r ≡ ok (value, decoder)
  pub next : k value decoder ≡ ok (b, d')

pub steps :
    {A B : Type 0} (r : Decoded A) (k : A → Decoder → Decoded B) (b : B) (d' : Decoder)
    → and_then r k ≡ ok (b, d')
    → Steps r k b d'
steps (ok (a, d)) k b d' h = record { value = a; decoder = d; first = refl; next = h }
steps (err x) k b d' h = absurd (ground (arith, h))

-- What two results that are the same have in common.
pub ok-parts :
    {A : Type 0} (a b : A) (d d' : Decoder)
    → ◌≡◌ {A = Decoded A} (ok (a, d)) (ok (b, d'))
    → (a ≡ b) × (d ≡ d')
ok-parts a b d d' h = (ground (arith, h), ground (arith, h))

argument_bytes-inverse :
    (k : ℕ) (rest : Bytes) (offset : ℕ) (bs : Bytes) (d' : Decoder)
    → argument_bytes k (record { rest = rest; offset = offset }) ≡ ok (bs, d')
    → (rest ≡ bs ++ d'.rest) × (length bs ≡ k)
unfolding argument_bytes
argument_bytes-inverse zero rest offset bs d' h =
    let (none_read, same) = ok-parts [] bs (record { rest = rest; offset = offset }) d' h in
    (ap (λ d. d.rest) same ∙ ap (λ x. x ++ d'.rest) none_read, ap (λ x. length x) (sym none_read))
argument_bytes-inverse (suc k) [] offset bs d' h = absurd (ground (arith, h))
argument_bytes-inverse (suc k) (b ∷ rest) offset bs d' h =
    let s = steps (argument_bytes k (record { rest = rest; offset = suc offset })) _ bs d' h in
    let (whole, measure) = argument_bytes-inverse k rest (suc offset) s.value s.decoder s.first in
    let (read, same) = ok-parts (b ∷ s.value) bs s.decoder d' s.next in
    (rw (← read, ← same) (ap (λ x. b ∷ x) whole), rw (← read) (omega (arith, measure)))

Each-front : (xs ys : Bytes) → Each IsByte (xs ++ ys) → Each IsByte xs
Each-front [] ys e = tt
Each-front (x ∷ xs) ys (u, e) = (u, Each-front xs ys e)

-- The form of an argument in k bytes after its initial one.
record Wide (k minimum value : ℕ) (rest left : Bytes) : Type 0 where
  least : minimum ≤ value
  bound : value < 256 ^ k
  form : rest ≡ to_be k value ++ left

wide_argument-Wide :
    (start k minimum : ℕ) (rest : Bytes) (offset value : ℕ) (d' : Decoder)
    → Each IsByte rest
    → wide_argument start k minimum (record { rest = rest; offset = offset }) ≡ ok (value, d')
    → Wide k minimum value rest d'.rest
wide_argument-Wide start k minimum rest offset value d' e h =
    let s = steps (argument_bytes k (record { rest = rest; offset = offset })) _ value d' h in
    let (whole, measure) = argument_bytes-inverse k rest offset s.value s.decoder s.first in
    let (same, bound) =
      to_be-from_be k s.value measure
        (Each-front s.value s.decoder.rest (subst (λ x. Each IsByte x) whole e)) in
    elim (Bool-cases (ltb (from_be s.value) minimum)) [
      | inl low ↦ absurd (let refused = rw low at s.next in ground (arith, refused))
      | inr fits ↦
          let (read, left) = ok-parts (from_be s.value) value s.decoder d' (rw fits at s.next) in
          record {
            least = ground (arith, fits, read);
            bound = rw (← read) bound;
            form = rw (← read, ← left, same) whole;
          }
    ]

encode_argument-Wide :
    (major value k minimum additional : ℕ) (more left : Bytes)
    → Wide k minimum value more left
    → encode_argument major value ≡ (major * 32 + additional) ∷ to_be k value
    → (major * 32 + additional) ∷ more ≡ encode_argument major value ++ left
encode_argument-Wide major value k minimum additional more left w form = rw (form, w.form) refl

encode_direct :
    (major value : ℕ)
    → leb value 23 ≡ true
    → encode_argument major value ≡ (major * 32 + value) ∷ []
unfolding encode_argument
encode_direct major value h = rw h refl

encode_one :
    (major value : ℕ)
    → 24 ≤ value
    → value < 256
    → encode_argument major value ≡ (major * 32 + 24) ∷ to_be 1 value
unfolding encode_argument
encode_one major value h u = ground arith

encode_two :
    (major value : ℕ)
    → 256 ≤ value
    → value < 65536
    → encode_argument major value ≡ (major * 32 + 25) ∷ to_be 2 value
unfolding encode_argument
encode_two major value h u = ground arith

encode_four :
    (major value : ℕ)
    → 65536 ≤ value
    → value < 4294967296
    → encode_argument major value ≡ (major * 32 + 26) ∷ to_be 4 value
unfolding encode_argument
encode_four major value h u = ground arith

encode_eight :
    (major value : ℕ)
    → 4294967296 ≤ value
    → encode_argument major value ≡ (major * 32 + 27) ∷ to_be 8 value
unfolding encode_argument
encode_eight major value h = ground arith

additional-inverse :
    (major offset additional : ℕ) (more : Bytes) (value : ℕ) (d' : Decoder)
    → Each IsByte more
    → additional_argument offset additional (record { rest = more; offset = suc offset })
      ≡ ok (value, d')
    → (major * 32 + additional) ∷ more ≡ encode_argument major value ++ d'.rest
additional-inverse major offset additional more value d' e h =
    elim (Bool-cases (leb additional 23)) [
      | inl direct ↦
          let (read, left) =
            ok-parts additional value (record { rest = more; offset = suc offset }) d'
              (rw direct at h) in
          rw (← read, ← left, encode_direct major additional direct) refl
      | inr h23 ↦ elim (Bool-cases (additional == 24)) [
        | inl here ↦
            let w =
              wide_argument-Wide offset 1 24 more (suc offset) value d' e (rw (h23, here) at h) in
            let it : additional ≡ 24 = ground (arith, here) in
            rw it (
              encode_argument-Wide major value 1 24 24 more d'.rest w
                (encode_one major value w.least w.bound))
        | inr h24 ↦ elim (Bool-cases (additional == 25)) [
          | inl here ↦
              let w =
                wide_argument-Wide offset 2 256 more (suc offset) value d' e
                  (rw (h23, h24, here) at h) in
              let it : additional ≡ 25 = ground (arith, here) in
              rw it (
                encode_argument-Wide major value 2 256 25 more d'.rest w
                  (encode_two major value w.least w.bound))
          | inr h25 ↦ elim (Bool-cases (additional == 26)) [
            | inl here ↦
                let w =
                  wide_argument-Wide offset 4 65536 more (suc offset) value d' e
                    (rw (h23, h24, h25, here) at h) in
                let it : additional ≡ 26 = ground (arith, here) in
                rw it (
                  encode_argument-Wide major value 4 65536 26 more d'.rest w
                    (encode_four major value w.least w.bound))
            | inr h26 ↦ elim (Bool-cases (additional == 27)) [
              | inl here ↦
                  let w =
                    wide_argument-Wide offset 8 4294967296 more (suc offset) value d' e
                      (rw (h23, h24, h25, h26, here) at h) in
                  let it : additional ≡ 27 = ground (arith, here) in
                  rw it (
                    encode_argument-Wide major value 8 4294967296 27 more d'.rest w
                      (encode_eight major value w.least))
              | inr h27 ↦
                  absurd
                    (let refused = rw (h23, h24, h25, h26, h27) at h in ground (arith, refused))
            ]
          ]
        ]
      ]
    ]

-- Of bytes: an argument that is decoded stands there in the form in which it is encoded, which is
-- its shortest.
pub argument-canonical :
    (major : ℕ) (rest : Bytes) (offset value : ℕ) (d' : Decoder)
    → Each IsByte rest
    → argument major (record { rest = rest; offset = offset }) ≡ ok (value, d')
    → rest ≡ encode_argument major value ++ d'.rest
unfolding argument
argument-canonical major [] offset value d' e h = absurd (ground (arith, h))
argument-canonical major (initial ∷ more) offset value d' (u, e) h =
    elim (Bool-cases (initial / 32 != major)) [
      | inl other ↦ absurd (let refused = rw other at h in ground (arith, refused))
      | inr same ↦
          let whole : major * 32 + initial % 32 ≡ initial = ground (arith, same) in
          ap (λ b. b ∷ more) (sym whole)
          ∙ additional-inverse major offset (initial % 32) more value d' e (rw same at h)
    ]
