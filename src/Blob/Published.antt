-- ===== src/Blob/Published.antt =====
-- Every blob that is published is whole.
use cofferwire.Base.{
  find, ◌++◌, ℕ, zero, suc, ◌+◌, ◌≡◌, refl, false, Option, none, some, List, [], ◌∷◌, Bytes, arith,
  Bool-cases, Option-cases, inl, inr, ok, ◌==◌, nat_same, bytes_same, bytes_beq_iff, pair_same, ap,
  sym, ◌∙◌,
}
use mathlib.Core.Path.{subst}
use cofferwire.Base.Map
use cofferwire.Base.Map.{Map, get-insert_self, get-insert_ne}
use cofferwire.Storage.Program.{meaning, ◌>>=◌}
use cofferwire.Blob.Manifest.{BlobManifest, parse_manifest, digest}
use cofferwire.Blob.Wire.{UploadId, BlobId}
use cofferwire.Blob.Tables.{
  BlobDb, UploadRow, GrantRow, copy_chunks, insert_object, insert_grant, set_committed,
}
use cofferwire.Blob.Copies.{copy_chunks-keeps, copy_chunks-copies, copy_chunks-owned}
use cofferwire.Blob.{BlobTx, identify, check_chunks, publish, same_object}
use cofferwire.Blob.Success.{Succeeds}

module _ (sha256 : Bytes → Bytes) where
  -- A stored chunk with a digest.
  abbrev Held : Map (Bytes × ℕ) Bytes → Bytes → ℕ → Bytes → Type 0
  Held chunks id index expected =
      (chunk : Bytes) × (Map.get (id, index) chunks ≡ some chunk) × (sha256 chunk ≡ expected)

  -- A manifest whose blob is held with all its chunks.
  pub record IsWhole (chunks : Map (BlobId × ℕ) Bytes) (id : BlobId) (bytes : Bytes) : Type 0 where
    pub manifest : BlobManifest
    pub parses : parse_manifest bytes ≡ ok manifest
    pub identified : identify sha256 manifest ≡ id
    pub chunks_held :
        (index : ℕ) (expected : Bytes)
        → digest index manifest.digests ≡ some expected
        → Held chunks id index expected

  -- Of the tables of objects and chunks: each object is whole, and each chunk is one of an object.
  pub record IsPublished (objects : Map BlobId Bytes) (chunks : Map (BlobId × ℕ) Bytes)
      : Type 0 where
    pub objects_whole :
        (id bytes : Bytes) → Map.get id objects ≡ some bytes → IsWhole chunks id bytes
    pub chunks_owned :
        (id : Bytes) (index : ℕ) (chunk : Bytes)
        → Map.get (id, index) chunks ≡ some chunk
        → (bytes : Bytes) × (Map.get id objects ≡ some bytes)

  -- The chunks of an upload that the loop has passed.
  abbrev Checked : BlobDb → UploadId → ℕ → List Bytes → Type 0
  Checked d u i digests =
      (j m : ℕ) (expected : Bytes)
      → m ≡ i + j
      → digest j digests ≡ some expected
      → Held d.upload_chunks u m expected

  Checked-first :
      (d : BlobDb) (u : UploadId) (i : ℕ) (first : Bytes) (digests : List Bytes)
      → Held d.upload_chunks u i first
      → Checked d u (suc i) digests
      → Checked d u i (first ∷ digests)
  Checked-first d u i first digests held rest zero m expected at_m h =
      let is : first ≡ expected = ground (arith, h) in
      subst (λ x. Held d.upload_chunks u m x) is
        (subst (λ k. Held d.upload_chunks u k first) (omega (arith, at_m)) held)
  Checked-first d u i first digests held rest (suc j) m expected at_m h =
      rest j m expected (omega (arith, at_m)) h

  pub check_chunks_Succeeds :
      {A : Type 0} (d : BlobDb) (Q : A → BlobDb → Type 0) (u : UploadId) (i : ℕ)
      (digests : List Bytes) (k : Unit {0} → BlobTx A)
      → (Checked d u i digests → Succeeds (k tt) d Q)
      → Succeeds (check_chunks sha256 u i digests >>= k) d Q
  unfolding check_chunks meaning
  check_chunks_Succeeds d Q u i [] k s = s (λ j m expected at_m h. absurd (ground (arith, h)))
  check_chunks_Succeeds d Q u i (first ∷ digests) k s = record {
    holds = λ a d' h. elim (Option-cases (Map.get (u, i) d.upload_chunks)) [
      | inl missing ↦
          absurd (let failed = rw (missing, meaning) at h in ground (arith, ap (λ r. r.0) failed))
      | inr (chunk, held) ↦ elim (Bool-cases (sha256 chunk == first)) [
        | inr wrong ↦
            absurd
              (let failed = rw (held, wrong, meaning) at h in ground (arith, ap (λ r. r.0) failed))
        | inl right ↦
            (check_chunks_Succeeds d Q u (suc i) digests k (λ rest. s (
                Checked-first d u i first digests
                  (chunk, held, (bytes_beq_iff (sha256 chunk) first).0 right) rest))).holds
              a d' (rw (held, right, meaning) at h)
      ]
    ];
  }

  IsWhole-keeps :
      (chunks : Map (BlobId × ℕ) Bytes) (id bytes : Bytes) (u : UploadId) (b : BlobId)
      (entries : Map (UploadId × ℕ) Bytes)
      → IsWhole chunks id bytes
      → IsWhole (copy_chunks u b entries chunks) id bytes
  IsWhole-keeps chunks id bytes u b entries w = record {
    manifest = w.manifest;
    parses = w.parses;
    identified = w.identified;
    chunks_held = λ index expected h.
        let (chunk, held, right) = w.chunks_held index expected h in
        (chunk, copy_chunks-keeps u b id index chunk entries chunks held, right);
  }

  -- A copy of checked chunks makes a whole blob.
  copied-IsWhole :
      (d : BlobDb) (u : UploadId) (id : BlobId) (manifest : BlobManifest)
      → IsPublished d.objects d.chunks
      → Map.get id d.objects ≡ none
      → parse_manifest manifest.bytes ≡ ok manifest
      → identify sha256 manifest ≡ id
      → Checked d u 0 manifest.digests
      → IsWhole (copy_chunks u id d.upload_chunks d.chunks) id manifest.bytes
  copied-IsWhole d u id manifest p free parses identified checked = record {
    manifest = manifest;
    parses = parses;
    identified = identified;
    chunks_held = λ index expected h.
        let (chunk, held, right) = checked index index expected (omega arith) h in
        elim (Option-cases (Map.get (id, index) d.chunks)) [
          | inl none_before ↦ (
            chunk,
            copy_chunks-copies u id index chunk d.upload_chunks d.chunks held none_before,
            right,
          )
          | inr (old, before) ↦
              let (bytes, there) = p.chunks_owned id index old before in
              absurd (ground (arith, free, there))
        ];
  }

  copied_new :
      (d : BlobDb) (u : UploadId) (id : BlobId) (manifest : BlobManifest)
      → IsPublished d.objects d.chunks
      → Map.get id d.objects ≡ none
      → parse_manifest manifest.bytes ≡ ok manifest
      → identify sha256 manifest ≡ id
      → Checked d u 0 manifest.digests
      → IsPublished
          (Map.insert id manifest.bytes d.objects)
          (copy_chunks u id d.upload_chunks d.chunks)
  copied_new d u id manifest p free parses identified checked = record {
    objects_whole = λ other bytes h. elim (Bool-cases (id == other)) [
      | inl same ↦
          let it : id ≡ other = (bytes_beq_iff id other).0 same in
          let stored =
            subst (λ x. Map.get x (Map.insert id manifest.bytes d.objects) ≡ some bytes) (sym it)
              h in
          let content : manifest.bytes ≡ bytes =
            ground (arith, get-insert_self id manifest.bytes d.objects, stored) in
          subst (λ x. IsWhole (copy_chunks u id d.upload_chunks d.chunks) x bytes) it
            (subst (λ y. IsWhole (copy_chunks u id d.upload_chunks d.chunks) id y) content
              (copied-IsWhole d u id manifest p free parses identified checked))
      | inr differ ↦
          let apart =
            get-insert_ne id other manifest.bytes d.objects
              (λ same. ground (arith, differ, (bytes_beq_iff id other).1 same)) in
          IsWhole-keeps d.chunks other bytes u id d.upload_chunks
            (p.objects_whole other bytes (sym apart ∙ h))
    ];
    chunks_owned = λ other index chunk h. elim (Bool-cases (id == other)) [
      | inl same ↦
          subst
            (λ x.
              (bytes : Bytes) × (Map.get x (Map.insert id manifest.bytes d.objects) ≡ some bytes))
            ((bytes_beq_iff id other).0 same)
            (manifest.bytes, get-insert_self id manifest.bytes d.objects)
      | inr differ ↦ elim (copy_chunks-owned u id other index chunk d.upload_chunks d.chunks h) [
        | inl same ↦ absurd (ground (arith, differ, (bytes_beq_iff id other).1 same))
        | inr before ↦
            let (bytes, there) = p.chunks_owned other index chunk before in
            (
              bytes,
              get-insert_ne id other manifest.bytes d.objects
                    (λ same. ground (arith, differ, (bytes_beq_iff id other).1 same))
                  ∙ there,
            )
      ]
    ];
  }

  copied_again :
      (d : BlobDb) (u : UploadId) (id : BlobId) (old : Bytes)
      → IsPublished d.objects d.chunks
      → Map.get id d.objects ≡ some old
      → IsPublished d.objects (copy_chunks u id d.upload_chunks d.chunks)
  copied_again d u id old p there = record {
    objects_whole = λ other bytes h.
        IsWhole-keeps d.chunks other bytes u id d.upload_chunks (p.objects_whole other bytes h);
    chunks_owned = λ other index chunk h.
        elim (copy_chunks-owned u id other index chunk d.upload_chunks d.chunks h) [
          | inl same ↦
              subst (λ x. (bytes : Bytes) × (Map.get x d.objects ≡ some bytes)) same (old, there)
          | inr before ↦ p.chunks_owned other index chunk before
        ];
  }

  -- The tables after the object and its chunks were inserted.
  copied :
      (d : BlobDb) (u : UploadId) (id : BlobId) (manifest : BlobManifest)
      → IsPublished d.objects d.chunks
      → parse_manifest manifest.bytes ≡ ok manifest
      → identify sha256 manifest ≡ id
      → Checked d u 0 manifest.digests
      → let d1 = insert_object id manifest.bytes d in
        IsPublished d1.objects (copy_chunks u id d1.upload_chunks d1.chunks)
  copied d u id manifest p parses identified checked = elim (Option-cases (Map.get id d.objects)) [
    | inl free ↦
        rw (free, insert_object) (copied_new d u id manifest p free parses identified checked)
    | inr (old, there) ↦ rw (there, insert_object) (copied_again d u id old p there)
  ]

  -- Statements that leave objects and chunks alone.
  abbrev pub SameBlobs : BlobDb → BlobDb → Type 0
  SameBlobs d d' = (d'.objects ≡ d.objects) × (d'.chunks ≡ d.chunks)

  insert_grant-SameBlobs :
      (row : GrantRow) (d d' : BlobDb) (b : Unit {0})
      → insert_grant row d ≡ some (b, d')
      → SameBlobs d d'
  insert_grant-SameBlobs row d d' b h =
      elim (Option-cases (find (λ (grant : GrantRow). grant.grant_id == row.grant_id) d.grants)) [
        | inr (old, taken) ↦
            absurd (let failed = rw (taken, insert_grant) at h in ground (arith, failed))
        | inl free ↦
            let made : ◌≡◌ {A = Option ((Unit {0}) × BlobDb)}
                (some (tt, record d { grants = d.grants ++ row ∷ [] })) (some (b, d')) =
              rw (free, insert_grant) at h in
            let left : record d { grants = d.grants ++ row ∷ [] } ≡ d' = ground (arith, made) in
            (ap (λ (x : BlobDb). x.objects) (sym left), ap (λ (x : BlobDb). x.chunks) (sym left))
      ]

  set_committed-SameBlobs :
      (u : UploadId) (id : BlobId) (d : BlobDb) → SameBlobs d (set_committed u id d)
  set_committed-SameBlobs u id d = elim (Option-cases (Map.get u d.uploads)) [
    | inl missing ↦ rw (missing, set_committed) (refl, refl)
    | inr (row, there) ↦ rw (there, set_committed) (refl, refl)
  ]

  pub same-IsPublished :
      (d d' : BlobDb)
      → SameBlobs d d'
      → IsPublished d.objects d.chunks
      → IsPublished d'.objects d'.chunks
  same-IsPublished d d' (o, c) p = rw (o, c) p

  abbrev grant_of : UploadId → BlobId → UploadRow → GrantRow
  grant_of u id row = record {
    grant_id = u;
    blob_id = id;
    download_cap = row.download_cap;
    renew_cap = row.renew_cap;
    delete_cap = row.delete_cap;
    expires_at = row.expires_at;
    deleted = false;
  }

  pub publish_Succeeds :
      {A : Type 0} (d : BlobDb) (Q : A → BlobDb → Type 0) (u : UploadId) (id : BlobId)
      (row : UploadRow) (manifest : BlobManifest) (k : Unit {0} → BlobTx A)
      → IsPublished d.objects d.chunks
      → parse_manifest manifest.bytes ≡ ok manifest
      → identify sha256 manifest ≡ id
      → Checked d u 0 manifest.digests
      → ((d' : BlobDb) → IsPublished d'.objects d'.chunks → Succeeds (k tt) d' Q)
      → Succeeds (publish sha256 u id row manifest >>= k) d Q
  unfolding publish meaning
  publish_Succeeds d Q u id row manifest k p parses identified checked s =
      let d1 = insert_object id manifest.bytes d in
      let d2 : BlobDb = record d1 { chunks = copy_chunks u id d1.upload_chunks d1.chunks } in
      record {
        holds = λ a d' h.
            elim (Bool-cases (same_object sha256 manifest.bytes (Map.get id d.objects))) [
              | inr another ↦
                  absurd (
                    let failed = rw (another, meaning) at h in ground (arith, ap (λ r. r.0) failed))
              | inl same ↦ elim (Option-cases (insert_grant (grant_of u id row) d2)) [
                | inl taken ↦ absurd (
                    let failed = rw (same, taken, meaning) at h in
                    ground (arith, ap (λ r. r.0) failed))
                | inr ((b, d3), granted) ↦
                    let kept =
                      same-IsPublished d2 d3
                        (insert_grant-SameBlobs (grant_of u id row) d2 d3 b granted)
                        (copied d u id manifest p parses identified checked) in
                    let d4 = set_committed u id d3 in
                    (s d4 (same-IsPublished d3 d4 (set_committed-SameBlobs u id d3) kept)).holds a
                      d' (rw (same, granted, meaning) at h)
              ]
            ];
      }
