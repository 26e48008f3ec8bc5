-- ===== src/Blob/Requests.antt =====
-- The requests of the blob relay keep its blobs whole.
use cofferwire.Base.{
  ℕ, ◌+◌, ◌≡◌, ◌&&◌, Option, none, some, Bytes, arith, Bool-cases, Option-cases, inl, inr, ok, ltb,
  ◌==◌, nat_same, bytes_same, bytes_beq_iff, pair_same, ap, sym, length,
}
use mathlib.Core.Path.{subst}
use cofferwire.Base.Map
use cofferwire.Base.BigEndian.{from_be}
use cofferwire.Types.{Timestamp}
use cofferwire.Storage.Program.{meaning}
use cofferwire.Blob.Manifest.{BlobManifest, parse_manifest, digest, parse_manifest-bytes}
use cofferwire.Blob.Wire.{
  UploadId, BlobId, CapabilityId, BlobCapabilities, BlobRequest, begin_upload, put_chunk,
  commit_upload, get_manifest, get_chunk, renew_grant, delete_grant, BlobResponseBody, stored_new,
}
use cofferwire.Blob.Tables.{BlobDb, UploadRow, insert_upload, insert_upload_chunk, count_chunks}
use cofferwire.Blob.{
  BlobTx, identify, begin_existing, begin_blob_upload_tx, put_existing, put_blob_chunk_tx,
  commit_fresh, commit_blob_tx, get_blob_manifest_tx, get_blob_chunk_tx, renew_blob_tx,
  delete_blob_tx, execute_blob_request, expiry_after,
}
use cofferwire.Blob.Success.{
  if_Succeeds, last_write_Succeeds, map_Succeeds, Succeeds, ret_Succeeds, fail_Succeeds,
  query_Succeeds, some_Succeeds, row_Succeeds, write_Succeeds, update_Succeeds, parsed_Succeeds,
  require_Succeeds, be_u64_Succeeds, grant_Succeeds,
}
use cofferwire.Blob.Downloads.{get_blob_chunk-Verified}
use cofferwire.Blob.Published.{
  IsPublished, SameBlobs, same-IsPublished, publish_Succeeds, check_chunks_Succeeds,
}

module _ (sha256 : Bytes → Bytes) where
  insert_upload-SameBlobs :
      (u : UploadId) (caps : BlobCapabilities) (manifest : Bytes) (expiry : ℕ) (d d' : BlobDb)
      (b : Unit {0})
      → insert_upload u caps manifest expiry d ≡ some (b, d')
      → SameBlobs sha256 d d'
  insert_upload-SameBlobs u caps manifest expiry d d' b h =
      elim (Option-cases (Map.get u d.uploads)) [
        | inr (old, taken) ↦
            absurd (let failed = rw (taken, insert_upload) at h in ground (arith, failed))
        | inl free ↦
            let made = rw (free, insert_upload) at h in
            let left =
              ap (λ (o : Option ((Unit {0}) × BlobDb)). elim o [ none ↦ d | some (_, x) ↦ x ])
                made in
            (ap (λ (x : BlobDb). x.objects) (sym left), ap (λ (x : BlobDb). x.chunks) (sym left))
      ]

  insert_upload_chunk-SameBlobs :
      (u : UploadId) (index : ℕ) (ciphertext : Bytes) (d d' : BlobDb) (b : Unit {0})
      → insert_upload_chunk u index ciphertext d ≡ some (b, d')
      → SameBlobs sha256 d d'
  insert_upload_chunk-SameBlobs u index ciphertext d d' b h =
      elim (Option-cases (Map.get (u, index) d.upload_chunks)) [
        | inr (old, taken) ↦
            absurd (let failed = rw (taken, insert_upload_chunk) at h in ground (arith, failed))
        | inl free ↦
            let made = rw (free, insert_upload_chunk) at h in
            let left =
              ap (λ (o : Option ((Unit {0}) × BlobDb)). elim o [ none ↦ d | some (_, x) ↦ x ])
                made in
            (ap (λ (x : BlobDb). x.objects) (sym left), ap (λ (x : BlobDb). x.chunks) (sym left))
      ]

  abbrev Published : BlobDb → Type 0
  Published d = IsPublished sha256 d.objects d.chunks

  -- The program leaves the blobs whole, if it succeeds, and if they were.
  abbrev KeepsBlobs : {A : Type 0} → BlobTx A → BlobDb → Type 0
  KeepsBlobs p d = Succeeds p d (λ _ d'. Published d')

  module _ (d : BlobDb) (p : Published d) where
    commit_fresh-KeepsBlobs :
        (u : UploadId) (id : BlobId) (row : UploadRow) (expiry : ℕ) (before : Option Bytes)
        → KeepsBlobs (commit_fresh sha256 u id row expiry before) d
    commit_fresh-KeepsBlobs u id row expiry (some committed) = elim (Bool-cases (committed == id)) [
      | inl same ↦ rw same (ret_Succeeds d _ expiry p)
      | inr other_blob ↦ rw other_blob (fail_Succeeds d _ _)
    ]
    commit_fresh-KeepsBlobs u id row expiry none =
        parsed_Succeeds d _ (parse_manifest row.manifest) _ (λ manifest parses.
          require_Succeeds d _ (identify sha256 manifest == id) _ _ (λ same.
            query_Succeeds d _ (count_chunks u) _ (
              require_Succeeds d _ (count_chunks u d == length manifest.digests) _ _ (λ complete.
                check_chunks_Succeeds sha256 d _ u 0 manifest.digests _ (λ checked.
                  publish_Succeeds sha256 d _ u id row manifest _ p
                    (parse_manifest-bytes row.manifest manifest parses)
                    ((bytes_beq_iff (identify sha256 manifest) id).0 same) checked
                    (λ d' p'. ret_Succeeds d' _ expiry p'))))))

    commit_blob-KeepsBlobs :
        (u : UploadId) (cap : CapabilityId) (id : BlobId) (now : Timestamp)
        → KeepsBlobs (commit_blob_tx sha256 u cap id now) d
    unfolding commit_blob_tx
    commit_blob-KeepsBlobs u cap id now =
        query_Succeeds d _ (λ db. Map.get u db.uploads) _
          (some_Succeeds d _ (Map.get u d.uploads) _ _ (λ row there.
            require_Succeeds d _ (row.upload_cap == cap) _ _ (λ owned.
              be_u64_Succeeds d _ row.expires_at _ (
                require_Succeeds d _ (ltb now (from_be row.expires_at)) _ _ (λ unexpired.
                  commit_fresh-KeepsBlobs u id row (from_be row.expires_at) row.committed_blob)))))

    begin_existing-KeepsBlobs :
        (u : UploadId) (caps : BlobCapabilities) (manifest : BlobManifest) (expiry : ℕ)
        (before : Option UploadRow)
        → KeepsBlobs (begin_existing u caps manifest expiry before) d
    begin_existing-KeepsBlobs u caps manifest expiry (some row) =
        if_Succeeds d _ _ _ _ (ret_Succeeds d _ _ p) (fail_Succeeds d _ _)
    begin_existing-KeepsBlobs u caps manifest expiry none =
        update_Succeeds d _ (insert_upload u caps manifest.bytes expiry) _ (λ b d1 done.
          ret_Succeeds d1 _ stored_new (
            same-IsPublished sha256 d d1
              (insert_upload-SameBlobs u caps manifest.bytes expiry d d1 b done) p))

    put_existing-KeepsBlobs :
        (u : UploadId) (index : ℕ) (ciphertext : Bytes) (before : Option Bytes)
        → KeepsBlobs (put_existing u index ciphertext before) d
    put_existing-KeepsBlobs u index ciphertext (some existing) =
        if_Succeeds d _ (existing == ciphertext) _ _ (ret_Succeeds d _ _ p) (fail_Succeeds d _ _)
    put_existing-KeepsBlobs u index ciphertext none =
        update_Succeeds d _ (insert_upload_chunk u index ciphertext) _ (λ b d1 done.
          ret_Succeeds d1 _ stored_new (
            same-IsPublished sha256 d d1
              (insert_upload_chunk-SameBlobs u index ciphertext d d1 b done) p))

    renew_blob-KeepsBlobs :
        (id : BlobId) (cap : CapabilityId) (now : Timestamp) (ttl : ℕ)
        → KeepsBlobs (renew_blob_tx id cap now ttl) d
    unfolding renew_blob_tx
    renew_blob-KeepsBlobs id cap now ttl =
        some_Succeeds d _ (expiry_after now ttl) _ _ (λ requested fits.
          grant_Succeeds d _ id (λ row. row.renew_cap) cap now _
            (λ current granted. write_Succeeds d _ _ _ (ret_Succeeds _ _ _ p)))

    delete_blob-KeepsBlobs :
        (id : BlobId) (cap : CapabilityId) (now : Timestamp)
        → KeepsBlobs (delete_blob_tx id cap now) d
    unfolding delete_blob_tx
    delete_blob-KeepsBlobs id cap now =
        grant_Succeeds d _ id (λ row. row.delete_cap) cap now _
          (λ current granted. last_write_Succeeds d _ _ p)

    begin_blob-KeepsBlobs :
        (u : UploadId) (caps : BlobCapabilities) (manifest : BlobManifest) (now : Timestamp)
        (ttl : ℕ)
        → KeepsBlobs (begin_blob_upload_tx u caps manifest now ttl) d
    unfolding begin_blob_upload_tx
    begin_blob-KeepsBlobs u caps manifest now ttl =
        some_Succeeds d _ (expiry_after now ttl) _ _ (λ expiry fits.
          query_Succeeds d _ (λ db. Map.get u db.uploads) _
            (begin_existing-KeepsBlobs u caps manifest expiry (Map.get u d.uploads)))

    put_blob-KeepsBlobs :
        (u : UploadId) (cap : CapabilityId) (index : ℕ) (ciphertext : Bytes) (now : Timestamp)
        → KeepsBlobs (put_blob_chunk_tx sha256 u cap index ciphertext now) d
    unfolding put_blob_chunk_tx
    put_blob-KeepsBlobs u cap index ciphertext now =
        query_Succeeds d _ (λ db. Map.get u db.uploads) _
          (some_Succeeds d _ (Map.get u d.uploads) _ _ (λ row there.
            be_u64_Succeeds d _ row.expires_at _ (
              require_Succeeds d _ (row.upload_cap == cap) _ _ (λ owned.
                require_Succeeds d _ (ltb now (from_be row.expires_at)) _ _ (λ unexpired.
                  parsed_Succeeds d _ (parse_manifest row.manifest) _ (λ manifest parses.
                    some_Succeeds d _ (digest index manifest.digests) _ _ (λ expected known.
                      require_Succeeds d _
                        (length ciphertext == manifest.chunk_size + 16
                          && sha256 ciphertext == expected)
                        _ _
                        (λ right.
                          query_Succeeds d _ (λ db. Map.get (u, index) db.upload_chunks) _
                            (put_existing-KeepsBlobs u index ciphertext
                              (Map.get (u, index) d.upload_chunks))))))))))

    get_manifest-KeepsBlobs :
        (id : BlobId) (cap : CapabilityId) (now : Timestamp)
        → KeepsBlobs (get_blob_manifest_tx sha256 id cap now) d
    unfolding get_blob_manifest_tx
    get_manifest-KeepsBlobs id cap now =
        grant_Succeeds d _ id (λ row. row.download_cap) cap now _
          (λ expiry granted.
            query_Succeeds d _ (λ db. Map.get id db.objects) _
              (row_Succeeds d _ (Map.get id d.objects) _ (λ bytes there.
                parsed_Succeeds d _ (parse_manifest bytes) _ (λ manifest parses.
                  require_Succeeds d _ (identify sha256 manifest == id) _ _
                    (λ same. ret_Succeeds d _ (manifest, expiry) p)))))

    get_chunk-KeepsBlobs :
        (id : BlobId) (cap : CapabilityId) (index : ℕ) (now : Timestamp)
        → KeepsBlobs (get_blob_chunk_tx sha256 id cap index now) d
    get_chunk-KeepsBlobs id cap index now = record {
      holds = λ a d' h.
          let (_, same) = get_blob_chunk-Verified sha256 id cap index now d d' a.0 a.1 h in
          subst (λ x. Published x) (sym same) p;
    }

    request-KeepsBlobs :
        (r : BlobRequest) (now : Timestamp) → KeepsBlobs (execute_blob_request sha256 r now) d
    unfolding execute_blob_request
    request-KeepsBlobs (begin_upload u caps manifest ttl) now =
        map_Succeeds d Published _ _ (begin_blob-KeepsBlobs u caps manifest now ttl)
    request-KeepsBlobs (put_chunk u cap index ciphertext) now =
        map_Succeeds d Published _ _ (put_blob-KeepsBlobs u cap index ciphertext now)
    request-KeepsBlobs (commit_upload u cap id) now =
        map_Succeeds d Published _ _ (commit_blob-KeepsBlobs u cap id now)
    request-KeepsBlobs (get_manifest id cap) now =
        map_Succeeds d Published _ _ (get_manifest-KeepsBlobs id cap now)
    request-KeepsBlobs (get_chunk id cap index) now =
        map_Succeeds d Published _ _ (get_chunk-KeepsBlobs id cap index now)
    request-KeepsBlobs (renew_grant id cap ttl) now =
        map_Succeeds d Published _ _ (renew_blob-KeepsBlobs id cap now ttl)
    request-KeepsBlobs (delete_grant id cap) now =
        map_Succeeds d Published _ _ (delete_blob-KeepsBlobs id cap now)

  -- Every request of the blob protocol that succeeds keeps this: each object has a manifest that
  -- parses and that the object's identifier is the identity of, and all chunks of the manifest are
  -- held, each with its digest; and no chunk is held of what is no object.
  pub execute_blob_request-IsPublished :
      (r : BlobRequest) (now : Timestamp) (d d' : BlobDb) (body : BlobResponseBody)
      → IsPublished sha256 d.objects d.chunks
      → meaning (execute_blob_request sha256 r now) d ≡ (ok body, d')
      → IsPublished sha256 d'.objects d'.chunks
  execute_blob_request-IsPublished r now d d' body p h =
      (request-KeepsBlobs d p r now).holds body d' h
