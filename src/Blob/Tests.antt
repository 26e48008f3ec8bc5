-- ===== src/Blob/Tests.antt =====
-- A blob of two chunks, and the theorems at it. The hash is one of lengths alone.
use cofferwire.Base.{
  ◌≡◌, refl, false, none, some, [], ◌∷◌, ◌++◌, Bytes, length, ok, err, arith, bytes_beq, find,
  retain,
}
use cofferwire.Base.Map
use cofferwire.Base.Map.{Map}
use cofferwire.Base.BigEndian.{to_be, from_be}
use cofferwire.Cbor.{split_at}
use cofferwire.Codec.{take_bytes}
use cofferwire.Crypto.Sample.{filled}
use cofferwire.Storage.{relay}
use cofferwire.Storage.Program.{meaning}
use cofferwire.Blob.Manifest.{BlobManifest, parse_manifest, has_exponent, chunks_exact}
use cofferwire.Blob.Wire.{upload_committed, commit_upload}
use cofferwire.Blob.Tables.{UploadRow, GrantRow, BlobDb, copy_chunks, extend_grants}
use cofferwire.Blob.{
  execute_blob_request, commit_blob_tx, check_chunks, publish, get_blob_chunk_tx, authorize_grant,
  renew_blob_tx, blob_expired,
}
use cofferwire.Blob.Published.{IsPublished}
use cofferwire.Blob.Downloads.{Verified, get_blob_chunk-Verified}
use cofferwire.Blob.Requests.{execute_blob_request-IsPublished}
use cofferwire.Blob.Available.{get_blob_chunk-available}

abbrev measure : Bytes → Bytes
measure bytes = filled 32 (length bytes)

abbrev manifest_bytes : Bytes
manifest_bytes =
    67 ∷ 87 ∷ 66 ∷ 49 ∷ 0 ∷ 1 ∷ 0 ∷ 1 ∷ filled 16 7
    ++ (0 ∷ 0 ∷ 0 ∷ 0 ∷ 0 ∷ 0 ∷ 0 ∷ 64 ∷ 0 ∷ 0 ∷ 0 ∷ 32 ∷ 0 ∷ 0 ∷ 0 ∷ 2 ∷ filled 32 48
        ++ filled 32 48)

abbrev manifest : BlobManifest
manifest = record {
  bytes = manifest_bytes;
  object_salt = filled 16 7;
  padded_size = 64;
  chunk_size = 32;
  digests = filled 32 48 ∷ filled 32 48 ∷ [];
}

manifest_parses : parse_manifest manifest_bytes ≡ ok manifest
unfolding parse_manifest has_exponent chunks_exact split_at take_bytes from_be bytes_beq
manifest_parses = refl

abbrev staged : UploadRow
staged = record {
  upload_cap = 1 ∷ [];
  download_cap = 2 ∷ [];
  renew_cap = 3 ∷ [];
  delete_cap = 4 ∷ [];
  manifest = manifest_bytes;
  expires_at = 0 ∷ 0 ∷ 0 ∷ 0 ∷ 0 ∷ 0 ∷ 0 ∷ 200 ∷ [];
  committed_blob = none;
}

-- Both chunks of an upload are there, and it is not committed.
abbrev complete : BlobDb
complete = record {
  uploads = (9 ∷ [], staged) ∷ [];
  upload_chunks = ((9 ∷ [], 0), filled 48 5) ∷ ((9 ∷ [], 1), filled 48 6) ∷ [];
  objects = [];
  chunks = [];
  grants = [];
  replays = [];
}

abbrev blob : Bytes
blob = filled 32 132

abbrev granted : GrantRow
granted = record {
  grant_id = 9 ∷ [];
  blob_id = blob;
  download_cap = 2 ∷ [];
  renew_cap = 3 ∷ [];
  delete_cap = 4 ∷ [];
  expires_at = 0 ∷ 0 ∷ 0 ∷ 0 ∷ 0 ∷ 0 ∷ 0 ∷ 200 ∷ [];
  deleted = false;
}

abbrev published : BlobDb
published = record {
  uploads = (9 ∷ [], record staged { committed_blob = some blob }) ∷ [];
  upload_chunks = ((9 ∷ [], 0), filled 48 5) ∷ ((9 ∷ [], 1), filled 48 6) ∷ [];
  objects = (blob, manifest_bytes) ∷ [];
  chunks = ((blob, 0), filled 48 5) ∷ ((blob, 1), filled 48 6) ∷ [];
  grants = granted ∷ [];
  replays = [];
}

commits :
    meaning (execute_blob_request measure (commit_upload (9 ∷ []) (1 ∷ []) blob) 100) complete
    ≡ (ok (upload_committed 200), published)
unfolding meaning execute_blob_request commit_blob_tx check_chunks publish parse_manifest
    has_exponent chunks_exact split_at take_bytes from_be bytes_beq Map.get Map.insert copy_chunks
    find retain
commits = refl

no_blobs : IsPublished measure [] []
unfolding Map.get
no_blobs = record {
  objects_whole = λ id bytes h. absurd (ground (arith, h));
  chunks_owned = λ id index chunk h. absurd (ground (arith, h));
}

execute_blob_request-IsPublished_example : IsPublished measure published.objects published.chunks
execute_blob_request-IsPublished_example =
    execute_blob_request-IsPublished measure (commit_upload (9 ∷ []) (1 ∷ []) blob) 100 complete
      published (upload_committed 200) no_blobs commits

after_commit : IsPublished measure published.objects published.chunks
after_commit =
    execute_blob_request-IsPublished measure (commit_upload (9 ∷ []) (1 ∷ []) blob) 100 complete
      published (upload_committed 200) no_blobs commits

get_blob_chunk-available_example :
    (chunk : Bytes) × (measure chunk ≡ filled 32 48)
    × (meaning (get_blob_chunk_tx measure blob (2 ∷ []) 1 100) published
        ≡ (ok (chunk, 200), published))
unfolding from_be bytes_beq find Map.get
get_blob_chunk-available_example =
    get_blob_chunk-available measure blob (2 ∷ []) 1 100 published manifest_bytes manifest granted
      (filled 32 48) after_commit refl refl refl manifest_parses refl

get_blob_chunk-Verified_example :
    Verified measure blob (2 ∷ []) 1 100 published (filled 48 6) 200 × (published ≡ published)
unfolding meaning get_blob_chunk_tx authorize_grant parse_manifest has_exponent chunks_exact
    split_at take_bytes from_be bytes_beq find Map.get
get_blob_chunk-Verified_example =
    get_blob_chunk-Verified measure blob (2 ∷ []) 1 100 published published (filled 48 6) 200 refl

-- Of two grants of a blob with one capability to renew, the second is shortened when the first is
-- extended.
abbrev twice_granted : BlobDb
twice_granted = record published {
  grants =
      record granted { expires_at = to_be 8 200 }
      ∷ record granted { grant_id = 10 ∷ []; expires_at = to_be 8 1000 }
      ∷ [];
}

renewal_shortens : meaning (renew_blob_tx blob (3 ∷ []) 100 150) twice_granted ≡ (
  ok 250,
  record published {
    grants =
        record granted { expires_at = to_be 8 250 }
        ∷ record granted { grant_id = 10 ∷ []; expires_at = to_be 8 250 }
        ∷ [];
  },
)
unfolding meaning renew_blob_tx authorize_grant from_be to_be bytes_beq find extend_grants
renewal_shortens = refl

-- Of two grants of a blob with one capability to download, the second is live, but the first has
-- expired, and it is the one that is looked at.
abbrev behind_expired : BlobDb
behind_expired = record published {
  grants =
      record granted { expires_at = to_be 8 50 }
      ∷ record granted { grant_id = 10 ∷ []; expires_at = to_be 8 1000 }
      ∷ [];
}

live_grant_refused :
    meaning (get_blob_chunk_tx measure blob (2 ∷ []) 1 100) behind_expired
    ≡ (err (relay blob_expired), behind_expired)
unfolding meaning get_blob_chunk_tx authorize_grant from_be to_be bytes_beq find
live_grant_refused = refl
