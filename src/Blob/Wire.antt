-- ===== src/Blob/Wire.antt =====
-- crates/cofferwire-types/src/blob.rs: the requests and responses of the blob protocol.
use cofferwire.Base.{ℕ, Bytes}
use cofferwire.Blob.Manifest.{BlobManifest}

abbrev pub UploadId : Type 0
UploadId = Bytes

abbrev pub BlobId : Type 0
BlobId = Bytes

abbrev pub CapabilityId : Type 0
CapabilityId = Bytes

pub record BlobCapabilities : Type 0 where
  pub upload : CapabilityId
  pub download : CapabilityId
  pub renew : CapabilityId
  pub delete : CapabilityId

pub data BlobRequest : Type 0 where
  begin_upload : UploadId → BlobCapabilities → BlobManifest → ℕ → BlobRequest
  put_chunk : UploadId → CapabilityId → ℕ → Bytes → BlobRequest
  commit_upload : UploadId → CapabilityId → BlobId → BlobRequest
  get_manifest : BlobId → CapabilityId → BlobRequest
  get_chunk : BlobId → CapabilityId → ℕ → BlobRequest
  renew_grant : BlobId → CapabilityId → ℕ → BlobRequest
  delete_grant : BlobId → CapabilityId → BlobRequest

-- BlobRequest::capability
abbrev pub request_capability : BlobRequest → CapabilityId
request_capability (begin_upload upload_id capabilities manifest ttl) = capabilities.upload
request_capability (put_chunk upload_id upload_cap index ciphertext) = upload_cap
request_capability (commit_upload upload_id upload_cap blob_id) = upload_cap
request_capability (get_manifest blob_id download_cap) = download_cap
request_capability (get_chunk blob_id download_cap index) = download_cap
request_capability (renew_grant blob_id renew_cap ttl) = renew_cap
request_capability (delete_grant blob_id delete_cap) = delete_cap

pub data BlobWriteOutcome : Type 0 where
  stored_new stored_before : BlobWriteOutcome

pub data BlobResponseBody : Type 0 where
  upload_begun : BlobWriteOutcome → BlobResponseBody
  chunk_put : BlobWriteOutcome → BlobResponseBody
  upload_committed : ℕ → BlobResponseBody
  manifest_got : BlobManifest → ℕ → BlobResponseBody
  chunk_got : Bytes → ℕ → BlobResponseBody
  grant_renewed : ℕ → BlobResponseBody
  grant_deleted : BlobResponseBody
