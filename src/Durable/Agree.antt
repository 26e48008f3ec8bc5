-- ===== src/Durable/Agree.antt =====
-- A command of the durable relay beside the same call on the relay in memory.
pub mod Sends
pub mod Receipts
pub mod Queues
use cofferwire.Base.{◌≡◌, ◌≢◌, refl, some, ok, err, Result, bytes_same}
use cofferwire.Base.Map
use cofferwire.Types.{QueueId, Timestamp}
use cofferwire.Policy.{RelayError}
use cofferwire.Relay.{Queue, Relay, put_back, discard_expired}
use cofferwire.Storage.{DurableRelayError, relay}
use cofferwire.Storage.Program.Atomic.{settled}
use cofferwire.Tables.{Db}
use cofferwire.Durable.View.{IsDb, view}
use cofferwire.Durable.Simulation.{Simulates, Simulates-discard, Simulates-put, fresh}

-- A rejection of the relay, as the durable relay reports it.
abbrev pub lift : {A : Type 0} → Result RelayError A → Result DurableRelayError A
lift (ok a) = ok a
lift (err e) = err (relay e)

-- The answers are the same, and the tables that are left still simulate the relay.
pub record Agree {A : Type 0} (now : Timestamp) (db : Db) (x : Result DurableRelayError A × Db)
    (y : Result RelayError A × Relay) : Type 0 where
  pub answer : x.0 ≡ lift y.0
  pub state : Simulates now (settled db x) y.1
  pub order : IsDb (settled db x)

module _ {A : Type 0} (now : Timestamp) (id : QueueId) (db : Db) (r : Relay) (v : IsDb db)
    (s : Simulates now db r) where
  -- Both reject the call and keep their state.
  pub Agree-rejected :
      (e : RelayError) (d : Db) → Agree {A = A} now db (err (relay e), d) (err e, r)
  Agree-rejected e d = record { answer = refl; state = s; order = v }

  -- Both reject the call, and the relay in memory has dropped what has expired.
  pub Agree-dropped :
      (e : RelayError) (d : Db) (q : Queue)
      → Map.get id r.queues ≡ some q
      → Agree {A = A} now db (err (relay e), d) (put_back id r (err e, discard_expired now q))
  Agree-dropped e d q found = record {
    answer = refl;
    state = Simulates-discard now id db r s q found;
    order = v;
  }

  -- Both change one queue in the same way.
  pub Agree-put :
      (a : A) (db' : Db) (q : Queue)
      → IsDb db'
      → ((j : QueueId) → id ≢ j → view db' j ≡ view db j)
      → fresh now (view db' id) ≡ some (discard_expired now q)
      → Agree now db (ok a, db') (put_back id r (ok a, q))
  Agree-put a db' q v' elsewhere here = record {
    answer = refl;
    state = Simulates-put now id db r s db' q elsewhere here;
    order = v';
  }
