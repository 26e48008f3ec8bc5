-- ===== src/Blob.antt =====
-- crates/cofferwire-relay/src/durable_blob.rs: the commands of the blob relay, each as the statements that
-- it makes inside its transaction. SHA-256 is a parameter.
pub mod Manifest
pub mod Wire
pub mod Tables
pub mod Success
pub mod Downloads
pub mod Copies
pub mod Published
pub mod Requests
pub mod Available
mod Tests
use cofferwire.Base.{
  ℕ, suc, ◌+◌, Bool, true, false, ◌&&◌, Option, none, some, List, [], ◌∷◌, ◌++◌, ltb, leb, ◌==◌,
  ◌!=◌, nat_same, bytes_same, pair_same, if◌then◌else◌, Bytes, length, find, Result, ok, err, refl,
}
use cofferwire.Base.Map
use cofferwire.Base.BigEndian.{to_be, from_be}
use cofferwire.Types.{RequestId, Timestamp, checked_add}
use cofferwire.Storage.{Engine, DurableRelayError, relay, storage, other}
use cofferwire.Storage.Program.{Statements, ret, fail, update, query, write, ◌>>=◌, ◌>>◌}
use cofferwire.Tables.{ReplayRow}
use cofferwire.Replay.{Namespace, ReplayExchange, exchange, lookup}
use cofferwire.Blob.Manifest.{BlobManifest, BlobTypeError, parse_manifest, digest}
use cofferwire.Blob.Wire.{
  UploadId, BlobId, CapabilityId, BlobCapabilities, BlobRequest, begin_upload, put_chunk,
  commit_upload, get_manifest, get_chunk, renew_grant, delete_grant, BlobWriteOutcome, stored_new,
  stored_before, BlobResponseBody, upload_begun, chunk_put, upload_committed, manifest_got,
  chunk_got, grant_renewed, grant_deleted,
}
use cofferwire.Blob.Tables.{
  UploadRow, GrantRow, BlobDb, insert_upload, insert_upload_chunk, count_chunks, insert_object,
  copy_chunks, insert_grant, set_committed, is_grant, extend_grants, delete_grants,
}

pub data BlobRelayError : Type 0 where
  blob_not_found blob_unauthorized blob_id_conflict blob_limit_out_of_range : BlobRelayError
  blob_chunk_conflict blob_incomplete blob_identity_mismatch blob_expired : BlobRelayError

abbrev pub BlobTx : Type 0 → Type 1
BlobTx = Statements BlobRelayError BlobDb

abbrev pub rejected : {A : Type 0} → BlobRelayError → BlobTx A
rejected error = fail (relay error)

-- `ok_or(error)?`
abbrev pub or_rejected : {A : Type 0} → Option A → BlobRelayError → BlobTx A
or_rejected none error = rejected error
or_rejected (some a) error = ret a

-- An early return of an error, unless a test holds.
abbrev pub require : Bool → BlobRelayError → BlobTx (Unit {0})
require true error = ret tt
require false error = rejected error

abbrev pub be_u64 : Bytes → BlobTx ℕ
be_u64 bytes = if length bytes == 8 then ret (from_be bytes) else rejected blob_id_conflict

-- The stored bytes of a manifest, parsed again.
abbrev pub parsed : Result BlobTypeError BlobManifest → BlobTx BlobManifest
parsed (ok manifest) = ret manifest
parsed (err _) = rejected blob_id_conflict

-- The row that a query has to find: without one it is an error of the engine.
abbrev pub or_no_rows : {A : Type 0} → Option A → BlobTx A
or_no_rows none = fail (storage other)
or_no_rows (some a) = ret a

-- now + ttl, unless it overflows or the ttl is 0.
abbrev pub expiry_after : Timestamp → ℕ → Option ℕ
expiry_after now ttl = elim (checked_add now ttl) [
  | none ↦ none
  | some expiry ↦ if ltb 0 ttl then some expiry else none
]

abbrev pub begin_existing :
    UploadId → BlobCapabilities → BlobManifest → ℕ → Option UploadRow → BlobTx BlobWriteOutcome
begin_existing upload_id caps manifest expiry (some row) =
    if row.upload_cap == caps.upload
      && (row.download_cap == caps.download
          && (row.renew_cap == caps.renew
              && (row.delete_cap == caps.delete
                  && (row.manifest == manifest.bytes && row.expires_at == to_be 8 expiry))))
    then ret stored_before
    else rejected blob_id_conflict
begin_existing upload_id caps manifest expiry none = do
  update (insert_upload upload_id caps manifest.bytes expiry)
  ret stored_new

unfoldable pub begin_blob_upload_tx :
    UploadId → BlobCapabilities → BlobManifest → Timestamp → ℕ → BlobTx BlobWriteOutcome
begin_blob_upload_tx upload_id caps manifest now ttl = do
  expiry ← or_rejected (expiry_after now ttl) blob_limit_out_of_range
  existing ← query (λ db. Map.get upload_id db.uploads)
  begin_existing upload_id caps manifest expiry existing

abbrev pub put_existing : UploadId → ℕ → Bytes → Option Bytes → BlobTx BlobWriteOutcome
put_existing upload_id index ciphertext (some existing) =
    if existing == ciphertext then ret stored_before else rejected blob_chunk_conflict
put_existing upload_id index ciphertext none = do
  update (insert_upload_chunk upload_id index ciphertext)
  ret stored_new

-- authorize_grant, after the first matching row was looked for.
abbrev pub grant_found : BlobId → Timestamp → Option GrantRow → BlobTx ℕ
grant_found id now none = do
  exists ← query (λ db. find (λ (row : GrantRow). row.blob_id == id) db.grants)
  found ← or_rejected exists blob_not_found
  rejected blob_unauthorized
grant_found id now (some row) = do
  require (if row.deleted then false else true) blob_not_found
  expiry ← be_u64 row.expires_at
  require (ltb now expiry) blob_expired
  ret expiry

unfoldable pub authorize_grant : BlobId → (GrantRow → Bytes) → CapabilityId → Timestamp → BlobTx ℕ
authorize_grant id column cap now = do
  exact ← query (λ db. find (is_grant column id cap) db.grants)
  grant_found id now exact

unfoldable pub renew_blob_tx : BlobId → CapabilityId → Timestamp → ℕ → BlobTx ℕ
renew_blob_tx id cap now ttl = do
  requested ← or_rejected (expiry_after now ttl) blob_limit_out_of_range
  current ← authorize_grant id (λ row. row.renew_cap) cap now
  write (λ db. record db {
    grants = extend_grants id cap (if ltb current requested then requested else current) db.grants;
  })
  ret (if ltb current requested then requested else current)

unfoldable pub delete_blob_tx : BlobId → CapabilityId → Timestamp → BlobTx (Unit {0})
delete_blob_tx id cap now = do
  expiry ← authorize_grant id (λ row. row.delete_cap) cap now
  write (λ db. record db { grants = delete_grants id cap db.grants })

-- "cofferwire blob identity v1\0"
abbrev pub identity_domain : Bytes
identity_domain =
    99 ∷ 111 ∷ 102 ∷ 102 ∷ 101 ∷ 114 ∷ 119 ∷ 105 ∷ 114 ∷ 101 ∷ 32 ∷ 98 ∷ 108 ∷ 111 ∷ 98 ∷ 32 ∷ 105
    ∷ 100 ∷ 101 ∷ 110 ∷ 116 ∷ 105 ∷ 116 ∷ 121 ∷ 32 ∷ 118 ∷ 49 ∷ 0 ∷ []

module _ (sha256 : Bytes → Bytes) where
  abbrev pub identify : BlobManifest → BlobId
  identify manifest = sha256 (identity_domain ++ manifest.bytes)

  -- The row of `upload` has its expiry decoded before anything is compared.
  unfoldable pub put_blob_chunk_tx :
      UploadId → CapabilityId → ℕ → Bytes → Timestamp → BlobTx BlobWriteOutcome
  put_blob_chunk_tx upload_id cap index ciphertext now = do
    found ← query (λ db. Map.get upload_id db.uploads)
    row ← or_rejected found blob_not_found
    expiry ← be_u64 row.expires_at
    require (row.upload_cap == cap) blob_unauthorized
    require (ltb now expiry) blob_expired
    manifest ← parsed (parse_manifest row.manifest)
    expected ← or_rejected (digest index manifest.digests) blob_limit_out_of_range
    require (length ciphertext == manifest.chunk_size + 16 && sha256 ciphertext == expected)
        blob_chunk_conflict
    existing ← query (λ db. Map.get (upload_id, index) db.upload_chunks)
    put_existing upload_id index ciphertext existing

  -- The loop over the chunks, from an index on. Where the source reports an engine error of this read
  -- as incomplete, this reports it as an error of storage.
  unfoldable pub check_chunks : UploadId → ℕ → List Bytes → BlobTx (Unit {0})
  check_chunks upload_id index [] = ret tt
  check_chunks upload_id index (expected ∷ digests) = do
    found ← query (λ db. Map.get (upload_id, index) db.upload_chunks)
    chunk ← or_rejected found blob_incomplete
    require (sha256 chunk == expected) blob_chunk_conflict
    check_chunks upload_id (suc index) digests

  -- The manifest that the object has already, if it is there, is the one of the upload.
  abbrev pub same_object : Bytes → Option Bytes → Bool
  same_object manifest none = true
  same_object manifest (some existing) = existing == manifest

  -- The statements that publish a complete upload.
  unfoldable pub publish : UploadId → BlobId → UploadRow → BlobManifest → BlobTx (Unit {0})
  publish upload_id requested row manifest = do
    existing ← query (λ db. Map.get requested db.objects)
    require (same_object manifest.bytes existing) blob_id_conflict
    write (insert_object requested manifest.bytes)
    write (λ db. record db { chunks = copy_chunks upload_id requested db.upload_chunks db.chunks })
    update (
        insert_grant (record {
          grant_id = upload_id;
          blob_id = requested;
          download_cap = row.download_cap;
          renew_cap = row.renew_cap;
          delete_cap = row.delete_cap;
          expires_at = row.expires_at;
          deleted = false;
        }))
    write (set_committed upload_id requested)

  abbrev pub commit_fresh : UploadId → BlobId → UploadRow → ℕ → Option Bytes → BlobTx ℕ
  commit_fresh upload_id requested row expiry (some committed) =
      if committed == requested then ret expiry else rejected blob_id_conflict
  commit_fresh upload_id requested row expiry none = do
    manifest ← parsed (parse_manifest row.manifest)
    require (identify manifest == requested) blob_identity_mismatch
    count ← query (count_chunks upload_id)
    require (count == length manifest.digests) blob_incomplete
    check_chunks upload_id 0 manifest.digests
    publish upload_id requested row manifest
    ret expiry

  unfoldable pub commit_blob_tx : UploadId → CapabilityId → BlobId → Timestamp → BlobTx ℕ
  commit_blob_tx upload_id cap requested now = do
    found ← query (λ db. Map.get upload_id db.uploads)
    row ← or_rejected found blob_not_found
    require (row.upload_cap == cap) blob_unauthorized
    expiry ← be_u64 row.expires_at
    require (ltb now expiry) blob_expired
    commit_fresh upload_id requested row expiry row.committed_blob

  unfoldable pub get_blob_manifest_tx :
      BlobId → CapabilityId → Timestamp → BlobTx (BlobManifest × ℕ)
  get_blob_manifest_tx id cap now = do
    expiry ← authorize_grant id (λ row. row.download_cap) cap now
    found ← query (λ db. Map.get id db.objects)
    bytes ← or_no_rows found
    manifest ← parsed (parse_manifest bytes)
    require (identify manifest == id) blob_identity_mismatch
    ret (manifest, expiry)

  -- Where the source reports an engine error of the last read as not found, this reports it as an
  -- error of storage.
  unfoldable pub get_blob_chunk_tx : BlobId → CapabilityId → ℕ → Timestamp → BlobTx (Bytes × ℕ)
  get_blob_chunk_tx id cap index now = do
    expiry ← authorize_grant id (λ row. row.download_cap) cap now
    found ← query (λ db. Map.get id db.objects)
    bytes ← or_no_rows found
    manifest ← parsed (parse_manifest bytes)
    expected ← or_rejected (digest index manifest.digests) blob_limit_out_of_range
    stored ← query (λ db. Map.get (id, index) db.chunks)
    chunk ← or_rejected stored blob_not_found
    require (sha256 chunk == expected) blob_chunk_conflict
    ret (chunk, expiry)

  unfoldable pub execute_blob_request : BlobRequest → Timestamp → BlobTx BlobResponseBody
  execute_blob_request (begin_upload upload_id caps manifest ttl) now = do
    outcome ← begin_blob_upload_tx upload_id caps manifest now ttl
    ret (upload_begun outcome)
  execute_blob_request (put_chunk upload_id cap index ciphertext) now = do
    outcome ← put_blob_chunk_tx upload_id cap index ciphertext now
    ret (chunk_put outcome)
  execute_blob_request (commit_upload upload_id cap requested) now = do
    expiry ← commit_blob_tx upload_id cap requested now
    ret (upload_committed expiry)
  execute_blob_request (get_manifest id cap) now = do
    got ← get_blob_manifest_tx id cap now
    ret (manifest_got got.0 got.1)
  execute_blob_request (get_chunk id cap index) now = do
    got ← get_blob_chunk_tx id cap index now
    ret (chunk_got got.0 got.1)
  execute_blob_request (renew_grant id cap ttl) now = do
    expiry ← renew_blob_tx id cap now ttl
    ret (grant_renewed expiry)
  execute_blob_request (delete_grant id cap) now = do delete_blob_tx id cap now; ret grant_deleted

  module _ (e : Engine BlobDb) where
    open e use {Connection}

    -- Namespace::Blob: the table blob_replays.
    abbrev pub blob_namespace : Namespace BlobDb
    blob_namespace = record {
      records = λ db. db.replays;
      with_records = λ m db. record db { replays = m };
      records-with_records = λ m db. refl;
    }

    unfoldable pub blob_replay :
        CapabilityId
        → RequestId
        → Connection
        → Result DurableRelayError (Option ReplayRow) × Connection
    blob_replay capability request_id c = lookup e blob_namespace (capability, request_id) c

    unfoldable pub blob_request_exchange :
        CapabilityId
        → RequestId
        → Bytes
        → BlobRequest
        → Timestamp
        → (Result BlobRelayError BlobResponseBody → Bytes)
        → Connection
        → Result DurableRelayError ReplayExchange × Connection
    blob_request_exchange capability request_id request_bytes request now encode c =
        exchange e blob_namespace encode (capability, request_id) request_bytes
          (execute_blob_request request now) c
