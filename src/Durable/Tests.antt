-- ===== src/Durable/Tests.antt =====
-- An engine that never fails, a history on it, and the theorems at it.
use cofferwire.Base.{
  ◌≡◌, refl, some, List, [], ◌∷◌, arith, Bytes, ok, bytes_same, retain, find, bytes_beq,
}
use cofferwire.Base.Map
use cofferwire.Base.BigEndian.{to_be, from_be, bytes_le}
use cofferwire.Policy.{QueueConfig}
use cofferwire.Relay.{new}
use cofferwire.Relay.Run.{Event, creates, sends, fetches, acknowledges, perform, fetch_reply, run}
use cofferwire.Storage.Memory.{memory_engine}
use cofferwire.Storage.Program.{transact, run as run_program, meaning}
use cofferwire.Storage.Program.Atomic.{IsIdle, Outcome, transact-Outcome}
use cofferwire.Tables.{Db, delete_expired, next_sequence, earliest, mark_delivered, delete_sequence}
use cofferwire.Durable.{
  create_queue_tx, send_tx, fetch_tx, acknowledge_tx, read_queue, decode_queue, read_u64, same_row,
  authorize_recipient, discard_expired,
}
use cofferwire.Durable.View.{view}
use cofferwire.Durable.Simulation.{fresh}
use cofferwire.Durable.Refines.{
  durable_perform, durable_run, survivors, durable_run_refines, durable_perform-Refined, Refined,
  empty-Follows,
}

abbrev empty_db : Db
empty_db = record { queues = []; messages = []; replays = [] }

abbrev inbox : Bytes
inbox = 1 ∷ []

abbrev policy : QueueConfig
policy = record {
  sender = 2 ∷ [];
  recipient = 3 ∷ [];
  limits = record { max_messages = 2; max_message_bytes = 4 };
}

abbrev history : List Event
history =
    (inbox, 100, creates policy)
    ∷ (inbox, 100, sends (2 ∷ []) (5 ∷ []) (9 ∷ []) 60)
    ∷ (inbox, 101, sends (2 ∷ []) (6 ∷ []) (8 ∷ []) 60)
    ∷ (inbox, 102, fetches (3 ∷ []))
    ∷ (inbox, 103, acknowledges (3 ∷ []) (5 ∷ []))
    ∷ []

-- After the history a fetch returns the second message.
second_delivered :
    (durable_perform memory_engine
      (inbox, 104, fetches (3 ∷ []))
      (durable_run memory_engine (empty_db, empty_db) history)).0
    ≡ ok (fetch_reply (some (record { id = 6 ∷ []; payload = 8 ∷ []; expires_at = 161 })))
unfolding durable_run durable_perform transact run_program create_queue_tx send_tx fetch_tx
    acknowledge_tx read_queue decode_queue read_u64 same_row authorize_recipient discard_expired
    delete_expired next_sequence earliest mark_delivered delete_sequence Map.get Map.insert retain
    find bytes_beq to_be from_be bytes_le
second_delivered = refl

durable_run_refines_example :
    fresh 103 (view (durable_run memory_engine (empty_db, empty_db) history).1 inbox)
    ≡ fresh 103
        (Map.get inbox (run new (survivors memory_engine (empty_db, empty_db) history)).queues)
durable_run_refines_example =
    durable_run_refines memory_engine (empty_db, empty_db) history inbox refl (refl, refl)
      (omega arith)

abbrev blank : Db × Db
blank = (empty_db, empty_db)

abbrev opening : Event
opening = (inbox, 100, creates policy)

durable_perform-Refined_example :
    IsIdle memory_engine (durable_perform memory_engine opening blank).1
    × Refined memory_engine 100 empty_db
        (durable_perform memory_engine opening blank)
        (perform new opening)
durable_perform-Refined_example =
    durable_perform-Refined memory_engine inbox 0 100 (creates policy) blank new (omega arith)
      (omega arith) (omega arith) refl (empty-Follows memory_engine blank refl (refl, refl)).2
      (empty-Follows memory_engine blank refl (refl, refl)).1

transact-Outcome_example :
    IsIdle memory_engine (transact memory_engine (create_queue_tx inbox policy) blank).1
    × Outcome memory_engine empty_db
        (meaning (create_queue_tx inbox policy) empty_db)
        (transact memory_engine (create_queue_tx inbox policy) blank)
transact-Outcome_example = transact-Outcome memory_engine (create_queue_tx inbox policy) blank refl
