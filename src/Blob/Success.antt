-- ===== src/Blob/Success.antt =====
-- What holds of the result and the tables where a program of the blob relay succeeds.
use cofferwire.Base.{
  ℕ, ◌≡◌, ◌<◌, refl, Bool, true, false, Option, none, some, Bytes, length, Result, ok, err, arith,
  Bool-cases, Option-cases, inl, inr, ltb, ◌==◌, nat_same, bytes_same, find, if◌then◌else◌, ap,
}
use cofferwire.Base.BigEndian.{from_be}
use cofferwire.Types.{Timestamp}
use cofferwire.Storage.{relay}
use cofferwire.Storage.Program.{ret, fail, statement, update, query, write, meaning, ◌>>=◌}
use cofferwire.Blob.Manifest.{BlobManifest, BlobTypeError}
use cofferwire.Blob.Wire.{BlobId, CapabilityId}
use cofferwire.Blob.Tables.{BlobDb, GrantRow, is_grant}
use cofferwire.Blob.{
  BlobTx, BlobRelayError, or_rejected, or_no_rows, require, be_u64, parsed, grant_found,
  authorize_grant,
}

-- If the program succeeds on these tables, its result and the tables that it leaves are in a relation.
pub record Succeeds {A : Type 0} (p : BlobTx A) (d : BlobDb) (Q : A → BlobDb → Type 0)
    : Type 0 where
  pub holds : (a : A) (d' : BlobDb) → meaning p d ≡ (ok a, d') → Q a d'

-- A capability that is granted has a live grant, the first that matches.
pub record Granted (d : BlobDb) (id : BlobId) (column : GrantRow → Bytes) (cap : CapabilityId)
    (now : Timestamp) (expiry : ℕ) : Type 0 where
  pub row : GrantRow
  pub first : find (is_grant column id cap) d.grants ≡ some row
  pub live : row.deleted ≡ false
  pub expires : from_be row.expires_at ≡ expiry
  pub unexpired : now < expiry

module _ {A : Type 0} (d : BlobDb) (Q : A → BlobDb → Type 0) where
  pub ret_Succeeds : (a : A) → Q a d → Succeeds (ret a) d Q
  unfolding meaning
  ret_Succeeds a q = record {
    holds = λ b d' h.
        let same : a ≡ b = ground (arith, ap (λ r. r.0) h) in
        let left : d ≡ d' = ap (λ r. r.1) h in rw (← same, ← left) q;
  }

  pub fail_Succeeds : (x : BlobRelayError) → Succeeds (fail (relay x)) d Q
  unfolding meaning
  fail_Succeeds x = record { holds = λ b d' h. absurd (ground (arith, ap (λ r. r.0) h)) }

  pub if_Succeeds :
      (t : Bool) (p q : BlobTx A)
      → Succeeds p d Q
      → Succeeds q d Q
      → Succeeds (if t then p else q) d Q
  if_Succeeds true p q s r = s
  if_Succeeds false p q s r = r

  module _ {B : Type 0} where
    pub query_Succeeds :
        (f : BlobDb → B) (k : B → BlobTx A) → Succeeds (k (f d)) d Q → Succeeds (query f >>= k) d Q
    unfolding meaning
    query_Succeeds f k s = record { holds = λ a d' h. s.holds a d' h }

    pub update_Succeeds :
        (f : BlobDb → Option (B × BlobDb)) (k : B → BlobTx A)
        → ((b : B) (d1 : BlobDb) → f d ≡ some (b, d1) → Succeeds (k b) d1 Q)
        → Succeeds (update f >>= k) d Q
    unfolding meaning
    update_Succeeds f k s = record {
      holds = λ a d' h. elim (Option-cases (f d)) [
        | inl gone ↦
            absurd (let failed = rw (gone, meaning) at h in ground (arith, ap (λ r. r.0) failed))
        | inr ((b, d1), done) ↦ (s b d1 done).holds a d' (rw done at h)
      ];
    }

    pub some_Succeeds :
        (o : Option B) (x : BlobRelayError) (k : B → BlobTx A)
        → ((b : B) → o ≡ some b → Succeeds (k b) d Q)
        → Succeeds (or_rejected o x >>= k) d Q
    unfolding meaning
    some_Succeeds none x k s = record { holds = λ a d' h. absurd (ground (arith, ap (λ r. r.0) h)) }
    some_Succeeds (some b) x k s = s b refl

    pub row_Succeeds :
        (o : Option B) (k : B → BlobTx A)
        → ((b : B) → o ≡ some b → Succeeds (k b) d Q)
        → Succeeds (or_no_rows o >>= k) d Q
    unfolding meaning
    row_Succeeds none k s = record { holds = λ a d' h. absurd (ground (arith, ap (λ r. r.0) h)) }
    row_Succeeds (some b) k s = s b refl

  pub write_Succeeds :
      (f : BlobDb → BlobDb) (k : Unit {0} → BlobTx A)
      → Succeeds (k tt) (f d) Q
      → Succeeds (write f >>= k) d Q
  unfolding meaning
  write_Succeeds f k s = record { holds = λ a d' h. s.holds a d' h }

  pub require_Succeeds :
      (t : Bool) (x : BlobRelayError) (k : Unit {0} → BlobTx A)
      → (t ≡ true → Succeeds (k tt) d Q)
      → Succeeds (require t x >>= k) d Q
  unfolding meaning
  require_Succeeds true x k s = s refl
  require_Succeeds false x k s = record {
    holds = λ a d' h. absurd (ground (arith, ap (λ r. r.0) h));
  }

  pub be_u64_Succeeds :
      (bytes : Bytes) (k : ℕ → BlobTx A)
      → Succeeds (k (from_be bytes)) d Q
      → Succeeds (be_u64 bytes >>= k) d Q
  unfolding meaning
  be_u64_Succeeds bytes k s = elim (Bool-cases (length bytes == 8)) [
    | inl whole ↦ rw whole s
    | inr short ↦ rw short (record { holds = λ a d' h. absurd (ground (arith, ap (λ r. r.0) h)) })
  ]

  pub parsed_Succeeds :
      (r : Result BlobTypeError BlobManifest) (k : BlobManifest → BlobTx A)
      → ((m : BlobManifest) → r ≡ ok m → Succeeds (k m) d Q)
      → Succeeds (parsed r >>= k) d Q
  unfolding meaning
  parsed_Succeeds (ok m) k s = s m refl
  parsed_Succeeds (err x) k s = record {
    holds = λ a d' h. absurd (ground (arith, ap (λ r. r.0) h));
  }

  grant_live :
      (id : BlobId) (column : GrantRow → Bytes) (cap : CapabilityId) (now : Timestamp)
      (k : ℕ → BlobTx A) (row : GrantRow)
      → find (is_grant column id cap) d.grants ≡ some row
      → ((expiry : ℕ) → Granted d id column cap now expiry → Succeeds (k expiry) d Q)
      → Succeeds (grant_found id now (some row) >>= k) d Q
  unfolding meaning
  grant_live id column cap now k row first s = elim (Bool-cases row.deleted) [
    | inl gone ↦ record {
      holds = λ a d' h.
          let failed = rw (gone, meaning) at h in absurd (ground (arith, ap (λ r. r.0) failed));
    }
    | inr live ↦ elim (Bool-cases (length row.expires_at == 8)) [
      | inr short ↦ record {
        holds = λ a d' h.
            let failed = rw (live, short, meaning) at h in
            absurd (ground (arith, ap (λ r. r.0) failed));
      }
      | inl whole ↦ elim (Bool-cases (ltb now (from_be row.expires_at))) [
        | inr late ↦ record {
          holds = λ a d' h.
              let failed = rw (live, whole, late, meaning) at h in
              absurd (ground (arith, ap (λ r. r.0) failed));
        }
        | inl unexpired ↦
            rw (live, whole, unexpired)
              (s (from_be row.expires_at) (record {
                row = row;
                first = first;
                live = live;
                expires = refl;
                unexpired = ground (arith, unexpired);
              }))
      ]
    ]
  ]

  pub grant_Succeeds :
      (id : BlobId) (column : GrantRow → Bytes) (cap : CapabilityId) (now : Timestamp)
      (k : ℕ → BlobTx A)
      → ((expiry : ℕ) → Granted d id column cap now expiry → Succeeds (k expiry) d Q)
      → Succeeds (authorize_grant id column cap now >>= k) d Q
  unfolding meaning authorize_grant
  grant_Succeeds id column cap now k s =
      query_Succeeds (λ db. find (is_grant column id cap) db.grants)
        (λ exact. grant_found id now exact >>= k)
        (elim (Option-cases (find (is_grant column id cap) d.grants)) [
          | inl missing ↦
              rw missing
                (elim (Option-cases (find (λ (row : GrantRow). row.blob_id == id) d.grants)) [
                  | inl gone ↦ record {
                    holds = λ a d' h.
                        let failed = rw (gone, meaning) at h in
                        absurd (ground (arith, ap (λ r. r.0) failed));
                  }
                  | inr (row, there) ↦ record {
                    holds = λ a d' h.
                        let failed = rw (there, meaning) at h in
                        absurd (ground (arith, ap (λ r. r.0) failed));
                  }
                ])
          | inr (row, first) ↦ rw first (grant_live id column cap now k row first s)
        ])

pub last_write_Succeeds :
    (d : BlobDb) (Q : Unit {0} → BlobDb → Type 0) (f : BlobDb → BlobDb)
    → Q tt (f d)
    → Succeeds (write f) d Q
unfolding meaning
last_write_Succeeds d Q f q = record { holds = λ a d' h. (ret_Succeeds (f d) Q tt q).holds a d' h }

map_steps :
    {A B : Type 0} (p : BlobTx A) (f : A → B) (d : BlobDb) (b : B) (d' : BlobDb)
    → meaning (p >>= λ a. ret (f a)) d ≡ (ok b, d')
    → (a : A) × (meaning p d ≡ (ok a, d'))
unfolding meaning
map_steps (ret a) f d b d' h = (a, ap (λ r. (ok a, r.1)) h)
map_steps (fail x) f d b d' h = absurd (ground (arith, ap (λ r. r.0) h))
map_steps (statement g next) f d b d' h = elim (Option-cases (g d)) [
  | inl gone ↦ absurd (let failed = rw (gone, meaning) at h in ground (arith, ap (λ r. r.0) failed))
  | inr ((c, d1), done) ↦
      let (a, rest) = map_steps (next c) f d1 b d' (rw (done, meaning) at h) in
      (a, rw (done, meaning) rest)
]

-- A program whose result is only wrapped leaves the same tables.
pub map_Succeeds :
    {A B : Type 0} (d : BlobDb) (P : BlobDb → Type 0) (p : BlobTx A) (f : A → B)
    → Succeeds p d (λ _ d'. P d')
    → Succeeds (p >>= λ a. ret (f a)) d (λ _ d'. P d')
map_Succeeds d P p f s = record {
  holds = λ b d' h. let (a, same) = map_steps p f d b d' h in s.holds a d' same;
}
