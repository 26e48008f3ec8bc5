-- ===== src/Blob/Copies.antt =====
-- The chunks of an upload, copied to a blob.
use cofferwire.Base.{
  ℕ, ◌≡◌, ◌≢◌, ◌⊎◌, refl, Option, none, some, [], ◌∷◌, Bytes, arith, Bool-cases, Option-cases, inl,
  inr, ◌==◌, nat_same, bytes_same, bytes_beq_iff, pair_same, ap, sym, ◌∙◌,
}
use mathlib.Core.Path.{subst}
use cofferwire.Base.Map
use cofferwire.Base.Map.{Map, get-insert_self, get-insert_ne}
use cofferwire.Blob.Wire.{UploadId, BlobId}
use cofferwire.Blob.Tables.{copy_chunks, insert_chunk}

insert_chunk-keeps :
    (id other : BlobId) (i j : ℕ) (x c : Bytes) (chunks : Map (BlobId × ℕ) Bytes)
    → Map.get (other, j) chunks ≡ some c
    → Map.get (other, j) (insert_chunk id i x chunks) ≡ some c
insert_chunk-keeps id other i j x c chunks h = elim (Option-cases (Map.get (id, i) chunks)) [
  | inr (old, taken) ↦ rw (taken, insert_chunk) h
  | inl free ↦
      rw (free, insert_chunk)
        (get-insert_ne (id, i) (other, j) x chunks
            (λ same. ground (arith, ap (λ k. Map.get k chunks) same, free, h))
          ∙ h)
]

pub copy_chunks-keeps :
    (u : UploadId) (b other : BlobId) (j : ℕ) (c : Bytes) (entries : Map (UploadId × ℕ) Bytes)
    (chunks : Map (BlobId × ℕ) Bytes)
    → Map.get (other, j) chunks ≡ some c
    → Map.get (other, j) (copy_chunks u b entries chunks) ≡ some c
unfolding copy_chunks
copy_chunks-keeps u b other j c [] chunks h = h
copy_chunks-keeps u b other j c (((o, i), x) ∷ entries) chunks h = elim (Bool-cases (o == u)) [
  | inl mine ↦ rw mine (
      copy_chunks-keeps u b other j c entries (insert_chunk b i x chunks)
        (insert_chunk-keeps b other i j x c chunks h))
  | inr another ↦ rw another (copy_chunks-keeps u b other j c entries chunks h)
]

insert_chunk-other :
    (id other : BlobId) (i j : ℕ) (x : Bytes) (chunks : Map (BlobId × ℕ) Bytes)
    → ◌≢◌ {A = BlobId × ℕ} (id, i) (other, j)
    → Map.get (other, j) (insert_chunk id i x chunks) ≡ Map.get (other, j) chunks
insert_chunk-other id other i j x chunks differ = elim (Option-cases (Map.get (id, i) chunks)) [
  | inr (old, taken) ↦ rw (taken, insert_chunk) refl
  | inl free ↦ rw (free, insert_chunk) (get-insert_ne (id, i) (other, j) x chunks differ)
]

insert_chunk_self :
    (id : BlobId) (i j : ℕ) (x c : Bytes) (chunks : Map (BlobId × ℕ) Bytes)
    → i ≡ j
    → x ≡ c
    → Map.get (id, j) chunks ≡ none
    → Map.get (id, j) (insert_chunk id i x chunks) ≡ some c
insert_chunk_self id i j x c chunks at_j is_c free =
    subst (λ k. Map.get (id, j) (insert_chunk id k x chunks) ≡ some c) (sym at_j)
      (subst (λ y. Map.get (id, j) (insert_chunk id j y chunks) ≡ some c) (sym is_c)
        (rw (free, insert_chunk) (get-insert_self (id, j) c chunks)))

-- A chunk of the upload is copied, where the blob has none with its index.
pub copy_chunks-copies :
    (u : UploadId) (b : BlobId) (j : ℕ) (c : Bytes) (entries : Map (UploadId × ℕ) Bytes)
    (chunks : Map (BlobId × ℕ) Bytes)
    → Map.get (u, j) entries ≡ some c
    → Map.get (b, j) chunks ≡ none
    → Map.get (b, j) (copy_chunks u b entries chunks) ≡ some c
unfolding copy_chunks Map.get
copy_chunks-copies u b j c [] chunks h free = absurd (ground (arith, h))
copy_chunks-copies u b j c (((o, i), x) ∷ entries) chunks h free = elim (Bool-cases (o == u)) [
  | inr another ↦ rw another (copy_chunks-copies u b j c entries chunks (rw another at h) free)
  | inl mine ↦ elim (Bool-cases (i == j)) [
    | inl same ↦
        let made : ◌≡◌ {A = Option Bytes} (some x) (some c) = rw (mine, same) at h in
        rw mine (
          copy_chunks-keeps u b b j c entries (insert_chunk b i x chunks)
            (insert_chunk_self b i j x c chunks (ground (arith, same)) (ground (arith, made)) free))
    | inr differ ↦ rw mine (
        copy_chunks-copies u b j c entries (insert_chunk b i x chunks) (rw (mine, differ) at h) (
          insert_chunk-other b b i j x chunks (λ same. ground (arith, differ, ap (λ k. k.1) same))
          ∙ free))
  ]
]

copy_chunks-other :
    (u : UploadId) (b other : BlobId) (j : ℕ) (entries : Map (UploadId × ℕ) Bytes)
    (chunks : Map (BlobId × ℕ) Bytes)
    → b ≢ other
    → Map.get (other, j) (copy_chunks u b entries chunks) ≡ Map.get (other, j) chunks
unfolding copy_chunks
copy_chunks-other u b other j [] chunks differ = refl
copy_chunks-other u b other j (((o, i), x) ∷ entries) chunks differ = elim (Bool-cases (o == u)) [
  | inr another ↦ rw another (copy_chunks-other u b other j entries chunks differ)
  | inl mine ↦ rw mine (
      copy_chunks-other u b other j entries (insert_chunk b i x chunks) differ
      ∙ insert_chunk-other b other i j x chunks (λ same. differ (ap (λ k. k.0) same)))
]

-- What the blobs hold after a copy, they held before, or it is of the blob that was copied to.
pub copy_chunks-owned :
    (u : UploadId) (b other : BlobId) (j : ℕ) (c : Bytes) (entries : Map (UploadId × ℕ) Bytes)
    (chunks : Map (BlobId × ℕ) Bytes)
    → Map.get (other, j) (copy_chunks u b entries chunks) ≡ some c
    → (b ≡ other) ⊎ (Map.get (other, j) chunks ≡ some c)
unfolding copy_chunks
copy_chunks-owned u b other j c entries chunks h = elim (Bool-cases (b == other)) [
  | inl same ↦ inl ((bytes_beq_iff b other).0 same)
  | inr differ ↦ inr (
      sym (
        copy_chunks-other u b other j entries chunks
          (λ same. ground (arith, differ, (bytes_beq_iff b other).1 same)))
      ∙ h)
]
