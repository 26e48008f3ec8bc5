-- ===== src/Blob/Manifest.antt =====
-- crates/cofferwire-types/src/blob.rs: the manifest of a blob.
use cofferwire.Base.{
  ◌≡◌, Bool-cases, inl, inr, arith, ap, sym, ℕ, zero, suc, ◌+◌, ◌*◌, ◌/◌, ◌%◌, ◌^◌, Bool, ◌&&◌,
  ◌||◌, Option, none, some, List, [], ◌∷◌, ltb, leb, ◌==◌, ◌!=◌, nat_same, bytes_same,
  if◌then◌else◌, Bytes, length, Result, ok, err,
}
use mathlib.Core.Path.{subst}
use cofferwire.Base.BigEndian.{from_be}
use cofferwire.Cbor.{split_at}
use cofferwire.Crypto.{between}

pub data BlobTypeError : Type 0 where
  invalid_manifest blob_limit : BlobTypeError

pub record BlobManifest : Type 0 where
  pub bytes : Bytes
  pub object_salt : Bytes
  pub padded_size : ℕ
  pub chunk_size : ℕ
  pub digests : List Bytes

-- The powers of two up to an exponent; a u64 has those up to 63.
unfoldable pub has_exponent : ℕ → ℕ → Bool
has_exponent zero n = n == 1
has_exponent (suc k) n = n == 2 ^ suc k || has_exponent k n

-- chunks_exact(32), for as many chunks as the first number says at most.
unfoldable pub chunks_exact : ℕ → Bytes → List Bytes
chunks_exact zero bytes = []
chunks_exact (suc k) bytes = elim (split_at 32 bytes) [
  | none ↦ []
  | some (front, back) ↦ front ∷ chunks_exact k back
]

-- MIN_CHUNK_BYTES to MAX_CHUNK_BYTES, MIN_PADDED_BYTES to MAX_PADDED_BYTES, MAX_CHUNKS.
abbrev pub limits_valid : ℕ → ℕ → ℕ → Bool
limits_valid padded_size chunk_size chunk_count =
    leb 32 chunk_size
    && (leb chunk_size 1048576
        && (has_exponent 31 chunk_size
            && (leb 64 padded_size
                && (leb padded_size 1073741824
                    && (has_exponent 63 padded_size
                        && (padded_size % chunk_size == 0
                            && (ltb 0 chunk_count
                                && (leb chunk_count 32768
                                    && padded_size / chunk_size == chunk_count))))))))

-- The end of the parse, for the numbers in the head.
abbrev pub sized_manifest : Bytes → ℕ → ℕ → ℕ → Result BlobTypeError BlobManifest
sized_manifest bytes padded_size chunk_size chunk_count =
    if limits_valid padded_size chunk_size chunk_count
    then if length bytes != 40 + chunk_count * 32
      then err invalid_manifest
      else ok (record {
        bytes = bytes;
        object_salt = between 8 24 bytes;
        padded_size = padded_size;
        chunk_size = chunk_size;
        digests = chunks_exact (length bytes) (between 40 (length bytes) bytes);
      })
    else err blob_limit

-- BlobManifest::parse; "CWB1" first, then a profile and a suite of 1.
unfoldable pub parse_manifest : Bytes → Result BlobTypeError BlobManifest
parse_manifest bytes =
    if ltb (length bytes) 72 || between 0 4 bytes != 67 ∷ 87 ∷ 66 ∷ 49 ∷ []
    then err invalid_manifest
    else if from_be (between 4 6 bytes) != 1 || from_be (between 6 8 bytes) != 1
    then err invalid_manifest
    else sized_manifest bytes (from_be (between 24 32 bytes)) (from_be (between 32 36 bytes))
        (from_be (between 36 40 bytes))

-- BlobManifest::digest
abbrev pub digest : ℕ → List Bytes → Option Bytes
digest index [] = none
digest zero (first ∷ rest) = some first
digest (suc index) (first ∷ rest) = digest index rest

sized_manifest-bytes :
    (bytes : Bytes) (padded_size chunk_size chunk_count : ℕ) (m : BlobManifest)
    → sized_manifest bytes padded_size chunk_size chunk_count ≡ ok m
    → m.bytes ≡ bytes
sized_manifest-bytes bytes padded_size chunk_size chunk_count m h =
    elim (Bool-cases (limits_valid padded_size chunk_size chunk_count)) [
      | inr invalid ↦ absurd (let failed = rw invalid at h in ground (arith, failed))
      | inl valid ↦ elim (Bool-cases (length bytes != 40 + chunk_count * 32)) [
        | inl wrong ↦ absurd (let failed = rw (valid, wrong) at h in ground (arith, failed))
        | inr right ↦
            let made : ◌≡◌ {A = Result BlobTypeError BlobManifest}
                (ok (record {
                  bytes = bytes;
                  object_salt = between 8 24 bytes;
                  padded_size = padded_size;
                  chunk_size = chunk_size;
                  digests = chunks_exact (length bytes) (between 40 (length bytes) bytes);
                }))
                (ok m) =
              rw (valid, right) at h in
            parsed_bytes made
      ]
    ]
  where
    parsed_bytes :
        {a m : BlobManifest}
        → ◌≡◌ {A = Result BlobTypeError BlobManifest} (ok a) (ok m)
        → m.bytes ≡ a.bytes
    parsed_bytes {a} {m} h =
        let same : a ≡ m = ground (arith, h) in ap (λ (x : BlobManifest). x.bytes) (sym same)

-- A manifest keeps the bytes that it was parsed from, so it is parsed again from its own.
pub parse_manifest-bytes :
    (bytes : Bytes) (m : BlobManifest) → parse_manifest bytes ≡ ok m → parse_manifest m.bytes ≡ ok m
unfolding parse_manifest
parse_manifest-bytes bytes m h =
    elim (Bool-cases (ltb (length bytes) 72 || between 0 4 bytes != 67 ∷ 87 ∷ 66 ∷ 49 ∷ [])) [
      | inl short ↦ absurd (let failed = rw short at h in ground (arith, failed))
      | inr long ↦
          elim (Bool-cases (from_be (between 4 6 bytes) != 1 || from_be (between 6 8 bytes) != 1)) [
            | inl profile ↦ absurd (let failed = rw (long, profile) at h in ground (arith, failed))
            | inr known ↦
                let same =
                  sized_manifest-bytes bytes (from_be (between 24 32 bytes))
                    (from_be (between 32 36 bytes)) (from_be (between 36 40 bytes)) m
                    (rw (long, known) at h) in
                subst (λ b. parse_manifest b ≡ ok m) (sym same) h
          ]
    ]
