-- ===== src/Blob/Tables.antt =====
-- crates/cofferwire-relay/src/durable.rs and durable_blob.rs: the SQL tables of the blob relay, and its
-- SQL statements, each a function of the tables. The grants of a blob are found in the order in
-- which they were inserted, as an index with equal keys gives them.
use cofferwire.Base.{
  ℕ, Bool, true, not, ◌&&◌, Option, none, some, List, [], ◌∷◌, ◌++◌, ◌==◌, nat_same, bytes_same,
  pair_same, if◌then◌else◌, Bytes, length, retain, find, map,
}
use cofferwire.Base.Map
use cofferwire.Base.Map.{Map}
use cofferwire.Base.BigEndian.{to_be}
use cofferwire.Tables.{ReplayKey, ReplayRow}
use cofferwire.Blob.Wire.{UploadId, BlobId, CapabilityId, BlobCapabilities}

-- A row of the table blob_uploads, its key apart.
pub record UploadRow : Type 0 where
  pub upload_cap : Bytes
  pub download_cap : Bytes
  pub renew_cap : Bytes
  pub delete_cap : Bytes
  pub manifest : Bytes
  pub expires_at : Bytes
  pub committed_blob : Option Bytes

-- A row of the table blob_grants.
pub record GrantRow : Type 0 where
  pub grant_id : Bytes
  pub blob_id : Bytes
  pub download_cap : Bytes
  pub renew_cap : Bytes
  pub delete_cap : Bytes
  pub expires_at : Bytes
  pub deleted : Bool

pub record BlobDb : Type 0 where
  pub uploads : Map UploadId UploadRow
  pub upload_chunks : Map (UploadId × ℕ) Bytes
  pub objects : Map BlobId Bytes
  pub chunks : Map (BlobId × ℕ) Bytes
  pub grants : List GrantRow
  pub replays : Map ReplayKey ReplayRow

-- INSERT INTO blob_uploads
abbrev pub insert_upload :
    UploadId → BlobCapabilities → Bytes → ℕ → BlobDb → Option ((Unit {0}) × BlobDb)
insert_upload id caps manifest expiry db = elim (Map.get id db.uploads) [
  | some _ ↦ none
  | none ↦ some (
    tt,
    record db {
      uploads =
          Map.insert id
            (record {
              upload_cap = caps.upload;
              download_cap = caps.download;
              renew_cap = caps.renew;
              delete_cap = caps.delete;
              manifest = manifest;
              expires_at = to_be 8 expiry;
              committed_blob = none;
            })
            db.uploads;
    },
  )
]

-- INSERT INTO blob_upload_chunks
abbrev pub insert_upload_chunk : UploadId → ℕ → Bytes → BlobDb → Option ((Unit {0}) × BlobDb)
insert_upload_chunk id index ciphertext db = elim (Map.get (id, index) db.upload_chunks) [
  | some _ ↦ none
  | none ↦
      some (tt, record db { upload_chunks = Map.insert (id, index) ciphertext db.upload_chunks })
]

-- SELECT count(*) FROM blob_upload_chunks WHERE upload_id = ?1
abbrev pub count_chunks : UploadId → BlobDb → ℕ
count_chunks id db =
    length (retain (λ (entry : (UploadId × ℕ) × Bytes). entry.0.0 == id) db.upload_chunks)

-- INSERT OR IGNORE INTO blob_objects
abbrev pub insert_object : BlobId → Bytes → BlobDb → BlobDb
insert_object id manifest db = elim (Map.get id db.objects) [
  | some _ ↦ db
  | none ↦ record db { objects = Map.insert id manifest db.objects }
]

abbrev pub insert_chunk : BlobId → ℕ → Bytes → Map (BlobId × ℕ) Bytes → Map (BlobId × ℕ) Bytes
insert_chunk id index ciphertext chunks = elim (Map.get (id, index) chunks) [
  | some _ ↦ chunks
  | none ↦ Map.insert (id, index) ciphertext chunks
]

-- INSERT OR IGNORE INTO blob_chunks SELECT ... FROM blob_upload_chunks WHERE upload_id = ?2
unfoldable pub copy_chunks :
    UploadId → BlobId → Map (UploadId × ℕ) Bytes → Map (BlobId × ℕ) Bytes → Map (BlobId × ℕ) Bytes
copy_chunks upload_id blob_id [] chunks = chunks
copy_chunks upload_id blob_id (((other, index), ciphertext) ∷ entries) chunks =
    copy_chunks upload_id blob_id entries
      (if other == upload_id then insert_chunk blob_id index ciphertext chunks else chunks)

-- INSERT INTO blob_grants, whose key is the upload.
abbrev pub insert_grant : GrantRow → BlobDb → Option ((Unit {0}) × BlobDb)
insert_grant row db = elim (find (λ (grant : GrantRow). grant.grant_id == row.grant_id) db.grants) [
  | some _ ↦ none
  | none ↦ some (tt, record db { grants = db.grants ++ row ∷ [] })
]

-- UPDATE blob_uploads SET committed_blob = ?1 WHERE upload_id = ?2
abbrev pub set_committed : UploadId → BlobId → BlobDb → BlobDb
set_committed upload_id blob_id db = elim (Map.get upload_id db.uploads) [
  | none ↦ db
  | some row ↦ record db {
    uploads = Map.insert upload_id (record row { committed_blob = some blob_id }) db.uploads;
  }
]

-- WHERE blob_id = ?1 AND {column} = ?2
abbrev pub is_grant : (GrantRow → Bytes) → BlobId → CapabilityId → GrantRow → Bool
is_grant column id cap row = row.blob_id == id && column row == cap

-- UPDATE blob_grants SET expires_at = ?1 WHERE blob_id = ?2 AND renew_cap = ?3 AND deleted = 0
unfoldable pub extend_grants : BlobId → CapabilityId → ℕ → List GrantRow → List GrantRow
extend_grants id cap expiry = map (λ (row : GrantRow).
    if is_grant (λ r. r.renew_cap) id cap row && not row.deleted
    then record row { expires_at = to_be 8 expiry }
    else row)

-- UPDATE blob_grants SET deleted = 1 WHERE blob_id = ?1 AND delete_cap = ?2
unfoldable pub delete_grants : BlobId → CapabilityId → List GrantRow → List GrantRow
delete_grants id cap = map (λ (row : GrantRow).
    if is_grant (λ r. r.delete_cap) id cap row then record row { deleted = true } else row)
