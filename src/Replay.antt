-- ===== src/Replay.antt =====
-- crates/cofferwire-relay/src/replay.rs: a command and the record of its response, committed as one. The
-- effect of a command is a program of statements; an engine error is told from a rejection by the
-- constructor of its error.
pub mod Exact
pub mod Once
pub mod Lookup
use cofferwire.Base.{
  ◌≡◌, Bool, true, false, Option, none, some, ◌==◌, bytes_same, pair_same, if◌then◌else◌, Bytes,
  Result, ok, err, Comparable,
}
use cofferwire.Base.Map
use cofferwire.Base.Map.{Map}
use cofferwire.Storage.{Engine, StorageErrorKind, Failure, DurableRelayError, relay, storage, other}
use cofferwire.Storage.Program.{Statements, query, update, run, after_commit}
use cofferwire.Tables.{ReplayKey, ReplayRow}

-- Namespace: the table of the records.
pub record Namespace (D : Type 0) : Type 0 where
  pub records : D → Map ReplayKey ReplayRow
  pub with_records : Map ReplayKey ReplayRow → D → D
  pub records-with_records : (m : Map ReplayKey ReplayRow) (d : D) → records (with_records m d) ≡ m

pub data ReplayExchange : Type 0 where
  respond : Bytes → ReplayExchange
  conflict : ReplayExchange

module _ {D : Type 0} (n : Namespace D) where
  abbrev pub stored : ReplayKey → D → Option ReplayRow
  stored key d = Map.get key (n.records d)

  abbrev pub put : ReplayKey → ReplayRow → D → D
  put key row d = n.with_records (Map.insert key row (n.records d)) d

  -- INSERT; the violation of its key is an answer and no error.
  abbrev pub insert : ReplayKey → ReplayRow → D → Option (Bool × D)
  insert key row d = elim (stored key d) [
    | none ↦ some (true, put key row d)
    | some _ ↦ some (false, d)
  ]

-- What a stored record answers to a request.
abbrev pub answer : Bytes → Option ReplayRow → Result DurableRelayError ReplayExchange
answer request none = err (storage other)
answer request (some (stored_request, stored_response)) =
    if stored_request == request then ok (respond stored_response) else ok conflict

module _ {D : Type 0} (e : Engine D) (n : Namespace D) where
  open e use {Connection, begin, commit, rollback}

  unfoldable pub lookup :
      ReplayKey → Connection → Result DurableRelayError (Option ReplayRow) × Connection
  unfolding run
  lookup key c = run e (query (stored n key)) c

  abbrev pub after_lookup :
      Bytes
      → Result DurableRelayError (Option ReplayRow) × Connection
      → Result DurableRelayError ReplayExchange × Connection
  after_lookup request (ok found, c) = (answer request found, c)
  after_lookup request (err x, c) = (err x, c)

  abbrev pub after_insert :
      ReplayKey
      → Bytes
      → Bytes
      → Result DurableRelayError Bool × Connection
      → Result DurableRelayError ReplayExchange × Connection
  after_insert key request response (ok true, c) = after_commit e (respond response) (commit c)
  after_insert key request response (ok false, c) = after_lookup request (lookup key (rollback c))
  after_insert key request response (err x, c) = (err x, rollback c)

  -- The record of a response, in the open transaction.
  unfoldable pub conclude :
      ReplayKey → Bytes → Bytes → Connection → Result DurableRelayError ReplayExchange × Connection
  unfolding run
  conclude key request response c =
      after_insert key request response (run e (update (insert n key (request, response))) c)

  abbrev pub after_reopen :
      ReplayKey
      → Bytes
      → Bytes
      → Result StorageErrorKind (Unit {0}) × Connection
      → Result DurableRelayError ReplayExchange × Connection
  after_reopen key request response (ok _, c) = conclude key request response c
  after_reopen key request response (err k, c) = (err (storage k), c)

  module _ {E A : Type 0} (encode : Result E A → Bytes) where
    -- A rejected command is rolled back, and its response recorded in a new transaction.
    abbrev pub after_effect :
        ReplayKey
        → Bytes
        → Result (Failure E) A × Connection
        → Result DurableRelayError ReplayExchange × Connection
    after_effect key request (ok a, c) = conclude key request (encode (ok a)) c
    after_effect key request (err (relay x), c) =
        after_reopen key request (encode (err x)) (begin (rollback c))
    after_effect key request (err (storage k), c) = (err (storage k), rollback c)

    abbrev pub after_begin :
        ReplayKey
        → Bytes
        → Statements E D A
        → Result StorageErrorKind (Unit {0}) × Connection
        → Result DurableRelayError ReplayExchange × Connection
    after_begin key request effect (ok _, c) = after_effect key request (run e effect c)
    after_begin key request effect (err k, c) = (err (storage k), c)

    unfoldable pub exchange :
        ReplayKey
        → Bytes
        → Statements E D A
        → Connection
        → Result DurableRelayError ReplayExchange × Connection
    exchange key request effect c = after_begin key request effect (begin c)
