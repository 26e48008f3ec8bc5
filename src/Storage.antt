-- ===== src/Storage.antt =====
-- The storage engine behind the durable relay: crates/cofferwire-relay/src/durable.rs uses SQLite through
-- rusqlite, which is a parameter here. A command is a sequence of statements, each read as a
-- function of the tables; `none` stands for a constraint that the statement would violate.
pub mod Program
pub mod Memory
use cofferwire.Base.{ℕ, ◌≡◌, Option, none, some, Result, ok, err}
use cofferwire.Policy.{RelayError}

pub data StorageErrorKind : Type 0 where
  busy read_only full io corrupt other : StorageErrorKind

-- A rejection of the protocol, or an error of the engine; the error of rusqlite is kept by its kind
-- alone.
pub data Failure (E : Type 0) : Type 0 where
  relay : E → Failure E
  storage : StorageErrorKind → Failure E

abbrev pub DurableRelayError : Type 0
DurableRelayError = Failure RelayError

-- A connection over tables of type D. `tables` is what the connection reads, with what its open
-- transaction has written, and `committed` what a crash would leave.
pub record Engine (D : Type 0) : Type 1 where
  pub Connection : Type 0
  pub tables : Connection → D
  pub committed : Connection → D
  pub begin : Connection → Result StorageErrorKind (Unit {0}) × Connection
  pub execute :
      {A : Type 0} → (D → Option (A × D)) → Connection → Result StorageErrorKind A × Connection
  pub commit : Connection → Result StorageErrorKind (Unit {0}) × Connection
  pub rollback : Connection → Connection
  pub begin-committed : (c : Connection) → committed (begin c).1 ≡ committed c
  pub begin-tables : (c : Connection) → tables c ≡ committed c → tables (begin c).1 ≡ committed c
  pub execute-committed :
      {A : Type 0} (f : D → Option (A × D)) (c : Connection)
      → committed (execute f c).1 ≡ committed c
  pub execute-ok :
      {A : Type 0} (f : D → Option (A × D)) (c : Connection) (a : A)
      → (execute f c).0 ≡ ok a
      → f (tables c) ≡ some (a, tables (execute f c).1)
  -- A statement that reads changes nothing, also when it fails.
  pub execute-read :
      {A : Type 0} (f : D → A) (c : Connection)
      → tables (execute (λ d. some (f d, d)) c).1 ≡ tables c
  pub commit-ok :
      (c : Connection)
      → (commit c).0 ≡ ok tt
      → (committed (commit c).1 ≡ tables c) × (tables (commit c).1 ≡ tables c)
  pub commit-err :
      (c : Connection) (k : StorageErrorKind)
      → (commit c).0 ≡ err k
      → committed (commit c).1 ≡ committed c
  pub rollback-committed : (c : Connection) → committed (rollback c) ≡ committed c
  pub rollback-tables : (c : Connection) → tables (rollback c) ≡ committed c
