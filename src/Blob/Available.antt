-- ===== src/Blob/Available.antt =====
-- What a request of a chunk is answered, where the blobs are whole.
use cofferwire.Base.{
  ℕ, ◌≡◌, refl, some, true, Bytes, arith, Bool-cases, inl, inr, Result, ok, err, ltb, ◌==◌,
  nat_same, bytes_same, bytes_beq_iff, sym, ◌∙◌, length, find, if◌then◌else◌,
}
use mathlib.Core.Path.{subst}
use cofferwire.Base.Map
use cofferwire.Base.BigEndian.{from_be}
use cofferwire.Types.{Timestamp}
use cofferwire.Storage.{relay}
use cofferwire.Storage.Program.{meaning}
use cofferwire.Blob.Manifest.{BlobManifest, BlobTypeError, parse_manifest, digest}
use cofferwire.Blob.Wire.{BlobId, CapabilityId}
use cofferwire.Blob.Tables.{BlobDb, GrantRow, is_grant}
use cofferwire.Blob.{get_blob_chunk_tx, authorize_grant, blob_not_found, blob_expired}
use cofferwire.Blob.Published.{IsPublished}

module _ (sha256 : Bytes → Bytes) where
  -- Where every object is whole, the first row of a grant with the blob and the capability to download
  -- decides a request of each chunk that the manifest has: if it is deleted the answer is
  -- `blob_not_found`, if it has expired `blob_expired`, and else a chunk with the digest of the manifest,
  -- with the expiry of that row. Other rows with the capability count for nothing. The tables stay.
  pub get_blob_chunk-available :
      (id : BlobId) (cap : CapabilityId) (index : ℕ) (now : Timestamp) (d : BlobDb) (bytes : Bytes)
      (manifest : BlobManifest) (row : GrantRow) (expected : Bytes)
      → IsPublished sha256 d.objects d.chunks
      → find (is_grant (λ r. r.download_cap) id cap) d.grants ≡ some row
      → length row.expires_at ≡ 8
      → Map.get id d.objects ≡ some bytes
      → parse_manifest bytes ≡ ok manifest
      → digest index manifest.digests ≡ some expected
      → (chunk : Bytes) × (sha256 chunk ≡ expected)
        × (meaning (get_blob_chunk_tx sha256 id cap index now) d ≡ (
          if row.deleted
              then err (relay blob_not_found)
              else if ltb now (from_be row.expires_at)
              then ok (chunk, from_be row.expires_at)
              else err (relay blob_expired),
          d,
        ))
  unfolding get_blob_chunk_tx authorize_grant meaning
  get_blob_chunk-available id cap index now d bytes manifest row expected p first size there parses
        known =
      let whole = p.objects_whole id bytes there in
      let made : ◌≡◌ {A = Result BlobTypeError BlobManifest} (ok manifest) (ok whole.manifest) =
        sym parses ∙ whole.parses in
      let same : manifest ≡ whole.manifest = ground (arith, made) in
      let known' : digest index whole.manifest.digests ≡ some expected =
        subst (λ (m : BlobManifest). digest index m.digests ≡ some expected) same known in
      let (chunk, held, right) = whole.chunks_held index expected known' in
      let sized : (length row.expires_at == 8) ≡ true = ground (arith, size) in
      let kept = (bytes_beq_iff (sha256 chunk) expected).1 right in
      (
        chunk,
        right,
        elim (Bool-cases row.deleted) [
          | inl gone ↦ rw (first, meaning, gone) refl
          | inr live ↦ elim (Bool-cases (ltb now (from_be row.expires_at))) [
            | inr late ↦ rw (first, meaning, live, sized, late) refl
            | inl early ↦
                rw (first, meaning, live, sized, early, there, parses, known, held, kept) refl
          ]
        ],
      )
