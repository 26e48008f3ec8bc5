-- ===== src/Durable/Refines.antt =====
-- The durable relay refines the relay in memory, on any engine that keeps its contract.
use cofferwire.Base.{
  ◌≤◌, ◌<◌, ◌≡◌, ◌⊎◌, refl, inl, inr, List, [], ◌∷◌, ◌∙◌, ap, Result, ok, err, none, some,
  bytes_same, retain,
}
use cofferwire.Base.Map
use cofferwire.Types.{QueueId, Timestamp, u64_mod}
use cofferwire.Policy.{RelayError}
use cofferwire.Relay.{Relay, new, create_queue, send, fetch, acknowledge, delete_queue}
use cofferwire.Relay.Run.{
  Call, Event, creates, sends, fetches, acknowledges, deletes, Reply, create_reply, send_reply,
  fetch_reply, ack_reply, delete_reply, map_ok, perform, step, run,
}
use cofferwire.Storage.{Engine, DurableRelayError, StorageErrorKind, storage}
use cofferwire.Storage.Program.{meaning, transact}
use cofferwire.Storage.Program.Atomic.{IsIdle, transact-Outcome}
use cofferwire.Tables.{Db}
use cofferwire.Durable.{Tx, create_queue_tx, send_tx, fetch_tx, acknowledge_tx, delete_queue_tx}
use cofferwire.Durable.View.{IsDb, view}
use cofferwire.Durable.Simulation.{Simulates, Simulates-later, fresh}
use cofferwire.Durable.Agree.{Agree, lift}
use cofferwire.Durable.Agree.Sends.{send-Agree}
use cofferwire.Durable.Agree.Receipts.{fetch-Agree, acknowledge-Agree}
use cofferwire.Durable.Agree.Queues.{create_queue-Agree, delete_queue-Agree, IsConfig}

-- The values that a call carries are in range.
abbrev pub IsCall : Call → Type 0
IsCall (creates c) = IsConfig c
IsCall _ = Unit

module _ (e : Engine Db) where
  open e use {Connection, committed}

  -- The methods of DurableRelay.
  unfoldable pub durable_perform : Event → Connection → Result DurableRelayError Reply × Connection
  durable_perform (id, now, creates config) c =
      let (r, c') = transact e (create_queue_tx id config) c in (map_ok create_reply r, c')
  durable_perform (id, now, sends p m payload ttl) c =
      let (r, c') = transact e (send_tx id p m payload now ttl) c in (map_ok send_reply r, c')
  durable_perform (id, now, fetches p) c =
      let (r, c') = transact e (fetch_tx id p now) c in (map_ok fetch_reply r, c')
  durable_perform (id, now, acknowledges p m) c =
      let (r, c') = transact e (acknowledge_tx id p m now) c in (map_ok (λ _. ack_reply) r, c')
  durable_perform (id, now, deletes p) c =
      let (r, c') = transact e (delete_queue_tx id p) c in (map_ok (λ _. delete_reply) r, c')

  -- The durable relay has failed and kept its tables, or has answered and moved as the one in memory.
  abbrev pub Refined :
      {A : Type 0}
      → Timestamp
      → Db
      → Result DurableRelayError A × Connection
      → Result RelayError A × Relay
      → Type 0
  Refined now db (x, c) (y, r) =
      ((k : StorageErrorKind) × (x ≡ err (storage k)) × (committed c ≡ db))
      ⊎ ((x ≡ lift y) × Simulates now (committed c) r × IsDb (committed c))

  transact-Refined :
      {A : Type 0} (p : Tx A) (now : Timestamp) (c : Connection) (y : Result RelayError A × Relay)
      → IsIdle e c
      → Agree now (committed c) (meaning p (committed c)) y
      → IsIdle e (transact e p c).1 × Refined now (committed c) (transact e p c) y
  transact-Refined p now c y idle a = elim (transact-Outcome e p c idle).1 [
    | inl failed ↦ ((transact-Outcome e p c idle).0, inl failed)
    | inr (answer, left) ↦
        ((transact-Outcome e p c idle).0, inr (answer ∙ a.answer, rw left a.state, rw left a.order))
  ]

  map_ok-Refined :
      {A B : Type 0} (f : A → B) (now : Timestamp) (db : Db)
      (x : Result DurableRelayError A × Connection) (y : Result RelayError A × Relay)
      → IsIdle e x.1 × Refined now db x y
      → IsIdle e x.1 × Refined now db (map_ok f x.0, x.1) (map_ok f y.0, y.1)
  map_ok-Refined f now db (x, c) (y, r) (idle, inl (k, failed, same)) =
      (idle, inl (k, ap (map_ok f) failed, same))
  map_ok-Refined f now db (x, c) (ok a, r) (idle, inr (answer, rest, order)) =
      (idle, inr (ap (map_ok f) answer, rest, order))
  map_ok-Refined f now db (x, c) (err a, r) (idle, inr (answer, rest, order)) =
      (idle, inr (ap (map_ok f) answer, rest, order))

  -- A call on an idle connection, at a time that is not before the last one: the durable relay
  -- either reports a storage error and commits nothing, or it answers as the relay in memory does
  -- and commits tables that simulate the state that the relay in memory moves to.
  pub durable_perform-Refined :
      (id : QueueId) (past now : Timestamp) (call : Call) (c : Connection) (r : Relay)
      → past ≤ now
      → now < u64_mod
      → IsCall call
      → IsIdle e c
      → IsDb (committed c)
      → Simulates past (committed c) r
      → IsIdle e (durable_perform (id, now, call) c).1
        × Refined now (committed c) (durable_perform (id, now, call) c) (perform r (id, now, call))
  unfolding durable_perform perform
  durable_perform-Refined id past now (creates config) c r h u f idle v s =
      map_ok-Refined create_reply now (committed c) (transact e (create_queue_tx id config) c)
        (create_queue id config r)
        (transact-Refined (create_queue_tx id config) now c _ idle (
          create_queue-Agree id config now (committed c) r f v
            (Simulates-later past now (committed c) r h s)))
  durable_perform-Refined id past now (sends p m payload ttl) c r h u f idle v s =
      map_ok-Refined send_reply now (committed c) (transact e (send_tx id p m payload now ttl) c)
        (send id p m payload now ttl r)
        (transact-Refined (send_tx id p m payload now ttl) now c _ idle (
          send-Agree id p m payload now ttl (committed c) r u v
            (Simulates-later past now (committed c) r h s)))
  durable_perform-Refined id past now (fetches p) c r h u f idle v s =
      map_ok-Refined fetch_reply now (committed c) (transact e (fetch_tx id p now) c)
        (fetch id p now r)
        (transact-Refined (fetch_tx id p now) now c _ idle
          (fetch-Agree id p now (committed c) r u v (Simulates-later past now (committed c) r h s)))
  durable_perform-Refined id past now (acknowledges p m) c r h u f idle v s =
      map_ok-Refined (λ _. ack_reply) now (committed c) (transact e (acknowledge_tx id p m now) c)
        (acknowledge id p m now r)
        (transact-Refined (acknowledge_tx id p m now) now c _ idle (
          acknowledge-Agree id p m now (committed c) r u v
            (Simulates-later past now (committed c) r h s)))
  durable_perform-Refined id past now (deletes p) c r h u f idle v s =
      map_ok-Refined (λ _. delete_reply) now (committed c) (transact e (delete_queue_tx id p) c)
        (delete_queue id p r)
        (transact-Refined (delete_queue_tx id p) now c _ idle (
          delete_queue-Agree id p now (committed c) r v
            (Simulates-later past now (committed c) r h s)))

  -- The calls in turn.
  unfoldable pub durable_run : Connection → List Event → Connection
  durable_run c [] = c
  durable_run c (event ∷ events) = durable_run (durable_perform event c).1 events

  abbrev pub unless_failed :
      {A : Type 0} → Result DurableRelayError A → Event → List Event → List Event
  unless_failed (err (storage k)) event events = events
  unless_failed _ event events = event ∷ events

  -- The calls that were not answered by a storage error.
  unfoldable pub survivors : Connection → List Event → List Event
  survivors c [] = []
  survivors c (event ∷ events) =
      let (answer, c') = durable_perform event c in unless_failed answer event (survivors c' events)

  -- The clock does not go back, and the calls carry values in range.
  abbrev pub Timely : Timestamp → List Event → Type 0
  Timely past [] = Unit
  Timely past ((id, now, call) ∷ events) =
      (past ≤ now) × (now < u64_mod) × IsCall call × Timely now events

  abbrev pub last_time : Timestamp → List Event → Timestamp
  last_time past [] = past
  last_time past ((id, now, call) ∷ events) = last_time now events

  unless_failed-lift :
      {A : Type 0} (y : Result RelayError A) (event : Event) (events : List Event)
      → unless_failed (lift y) event events ≡ event ∷ events
  unless_failed-lift (ok a) event events = refl
  unless_failed-lift (err x) event events = refl

  abbrev pub Follows : Timestamp → Connection → Relay → Type 0
  Follows now c r = IsIdle e c × Simulates now (committed c) r × IsDb (committed c)

  durable_run-Follows :
      (events : List Event) (past : Timestamp) (c : Connection) (r : Relay)
      → Follows past c r
      → Timely past events
      → Follows (last_time past events) (durable_run c events) (run r (survivors c events))
  unfolding durable_run survivors run step
  durable_run-Follows [] past c r f t = f
  durable_run-Follows ((id, now, call) ∷ events) past c r (idle, s, v) (h, u, g, t) =
      let (idle', outcome) = durable_perform-Refined id past now call c r h u g idle v s in
      elim outcome [
        | inl (k, failed, same) ↦ rw failed (
            durable_run-Follows events now (durable_perform (id, now, call) c).1 r
              (idle', rw same (Simulates-later past now (committed c) r h s), rw same v) t)
        | inr (answer, s', v') ↦ rw answer (
            rw (unless_failed-lift (perform r (id, now, call)).0 (id, now, call) _) (
              durable_run-Follows events now (durable_perform (id, now, call) c).1
                (perform r (id, now, call)).1 (idle', s', v') t))
      ]

  abbrev pub IsEmpty : Db → Type 0
  IsEmpty db = (db.queues ≡ []) × (db.messages ≡ [])

  -- Empty tables are in order and simulate a new relay.
  pub empty-Follows : (c : Connection) → IsIdle e c → IsEmpty (committed c) → Follows 0 c new
  unfolding Map.get retain
  empty-Follows c idle (no_queues, no_messages) = (
    idle,
    record { at = λ id. rw no_queues refl },
    record {
      rows = λ id row h. let h' : none ≡ some row = rw no_queues at h in absurd (cc h');
      times = rw no_messages tt;
      ascending = rw no_messages tt;
      owned = λ id h. rw no_messages refl;
    },
  )

  -- On an engine that keeps its contract, from empty tables: after any calls, in the order of their
  -- times and with values in range, the committed tables hold for every identifier the queue that
  -- the relay in memory has after those of the calls that were not answered by a storage error, up
  -- to messages that have expired at the time of the last call.
  pub durable_run_refines :
      (c : Connection) (events : List Event) (id : QueueId)
      → IsIdle e c
      → IsEmpty (committed c)
      → Timely 0 events
      → fresh (last_time 0 events) (view (committed (durable_run c events)) id)
        ≡ fresh (last_time 0 events) (Map.get id (run new (survivors c events)).queues)
  durable_run_refines c events id idle empty timely =
      (durable_run-Follows events 0 c new (empty-Follows c idle empty) timely).1.at id
