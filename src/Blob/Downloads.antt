-- ===== src/Blob/Downloads.antt =====
-- What a download returns.
use cofferwire.Base.{
  ℕ, ◌≡◌, refl, some, Bytes, bytes_same, bytes_beq_iff, pair_same, nat_same, ok, ◌==◌,
}
use cofferwire.Base.Map
use cofferwire.Types.{Timestamp}
use cofferwire.Storage.Program.{meaning}
use cofferwire.Blob.Manifest.{BlobManifest, parse_manifest, digest}
use cofferwire.Blob.Wire.{BlobId, CapabilityId}
use cofferwire.Blob.Tables.{BlobDb}
use cofferwire.Blob.{get_blob_chunk_tx}
use cofferwire.Blob.Success.{
  Succeeds, Granted, ret_Succeeds, query_Succeeds, some_Succeeds, row_Succeeds, parsed_Succeeds,
  require_Succeeds, grant_Succeeds,
}

module _ (sha256 : Bytes → Bytes) where
  -- A chunk that was downloaded.
  pub record Verified (id : BlobId) (cap : CapabilityId) (index : ℕ) (now : Timestamp) (db : BlobDb)
      (chunk : Bytes) (expiry : ℕ) : Type 0 where
    pub granted : Granted db id (λ row. row.download_cap) cap now expiry
    pub manifest_bytes : Bytes
    pub manifest : BlobManifest
    pub object : Map.get id db.objects ≡ some manifest_bytes
    pub parses : parse_manifest manifest_bytes ≡ ok manifest
    pub expected : digest index manifest.digests ≡ some (sha256 chunk)
    pub held : Map.get (id, index) db.chunks ≡ some chunk

  succeeds :
      (id : BlobId) (cap : CapabilityId) (index : ℕ) (now : Timestamp) (db : BlobDb)
      → Succeeds
          (get_blob_chunk_tx sha256 id cap index now)
          db
          (λ a db'. Verified id cap index now db a.0 a.1 × (db' ≡ db))
  unfolding get_blob_chunk_tx
  succeeds id cap index now db =
      grant_Succeeds db _ id (λ row. row.download_cap) cap now _
        (λ expiry granted.
          query_Succeeds db _ (λ d. Map.get id d.objects) _
            (row_Succeeds db _ (Map.get id db.objects) _ (λ bytes object.
              parsed_Succeeds db _ (parse_manifest bytes) _ (λ manifest parses.
                some_Succeeds db _ (digest index manifest.digests) _ _ (λ wanted expected.
                  query_Succeeds db _ (λ d. Map.get (id, index) d.chunks) _
                    (some_Succeeds db _ (Map.get (id, index) db.chunks) _ _ (λ chunk held.
                      require_Succeeds db _ (sha256 chunk == wanted) _ _ (λ same.
                        ret_Succeeds db _ (chunk, expiry)
                          (
                            record {
                              granted = granted;
                              manifest_bytes = bytes;
                              manifest = manifest;
                              object = object;
                              parses = parses;
                              expected = rw ((bytes_beq_iff (sha256 chunk) wanted).0 same) expected;
                              held = held;
                            },
                            refl,
                          )))))))))

  -- A download of a chunk that succeeds changes nothing; it is of a capability with a live grant,
  -- whose expiry it reports; and the chunk is the one that is held, and has the digest that the
  -- manifest of the blob says for it.
  pub get_blob_chunk-Verified :
      (id : BlobId) (cap : CapabilityId) (index : ℕ) (now : Timestamp) (db db' : BlobDb)
      (chunk : Bytes) (expiry : ℕ)
      → meaning (get_blob_chunk_tx sha256 id cap index now) db ≡ (ok (chunk, expiry), db')
      → Verified id cap index now db chunk expiry × (db' ≡ db)
  get_blob_chunk-Verified id cap index now db db' chunk expiry h =
      (succeeds id cap index now db).holds (chunk, expiry) db' h
