-- ===== src/Durable/Agree/Queues.antt =====
-- Creating and deleting queues, on the tables as in memory.
use cofferwire.Base.{
  ◌<◌, ◌≡◌, ◌≢◌, refl, inl, inr, [], arith, Option-cases, Bool-cases, ◌==◌, bytes_same, nat_same,
  bytes_beq_iff, ok,
}
use cofferwire.Base.Map
use cofferwire.Base.Map.{
  get-insert, get-remove, get-insert_self, get-remove_self, get-insert_ne, get-remove_ne,
}
use cofferwire.Base.BigEndian.{to_be, from_be-to_be, length-to_be}
use cofferwire.Types.{QueueId, Principal, Timestamp, u64_mod}
use cofferwire.Policy.{
  QueueConfig, queue_not_found, unauthorized, queue_id_conflict, created, same_config,
}
use cofferwire.Relay.{Relay, create_queue, create_found, delete_queue}
use cofferwire.Relay.Calls.{delete_missing, delete_owner, delete_other}
use cofferwire.Storage.Program.{meaning}
use cofferwire.Tables.{QueueRow, Db}
use cofferwire.Durable.{create_queue_tx, delete_queue_tx, delete_cascade}
use cofferwire.Durable.Rows.{rows_of-drop_elsewhere}
use cofferwire.Durable.View.{
  IsDb, IsQueueRow, view_config, authorize-none, authorize-other, authorize-owner, same_row-ok,
}
use cofferwire.Durable.Upkeep.{insert_queue-IsDb, delete_cascade-IsDb}
use cofferwire.Durable.Simulation.{Simulates, twin_none, Twin-some, Simulates-put}
use cofferwire.Durable.Agree.{Agree, Agree-rejected}

-- A configuration as the wire and `QueueLimits::new` admit it.
pub record IsConfig (c : QueueConfig) : Type 0 where
  pub messages_pos : 0 < c.limits.max_messages
  pub bytes_pos : 0 < c.limits.max_message_bytes
  pub messages_fit : c.limits.max_messages < u64_mod
  pub bytes_fit : c.limits.max_message_bytes < u64_mod

abbrev row_for : QueueConfig → QueueRow
row_for c = record {
  sender = c.sender;
  recipient = c.recipient;
  max_messages = to_be 8 c.limits.max_messages;
  max_message_bytes = to_be 8 c.limits.max_message_bytes;
}

row_for-IsQueueRow : (c : QueueConfig) → IsConfig c → IsQueueRow (row_for c)
row_for-IsQueueRow c h = record {
  messages_length = length-to_be 8 c.limits.max_messages;
  bytes_length = length-to_be 8 c.limits.max_message_bytes;
  messages_pos = rw (from_be-to_be 8 c.limits.max_messages h.messages_fit) h.messages_pos;
  bytes_pos = rw (from_be-to_be 8 c.limits.max_message_bytes h.bytes_fit) h.bytes_pos;
}

view-row_for : (c : QueueConfig) → IsConfig c → view_config (row_for c) ≡ c
view-row_for c h =
    rw (from_be-to_be 8 c.limits.max_messages h.messages_fit)
      (rw (from_be-to_be 8 c.limits.max_message_bytes h.bytes_fit) refl)

-- A creation is answered by the durable relay as by the one in memory.
pub create_queue-Agree :
    (id : QueueId) (c : QueueConfig) (now : Timestamp) (db : Db) (r : Relay)
    → IsConfig c
    → IsDb db
    → Simulates now db r
    → Agree now db (meaning (create_queue_tx id c) db) (create_queue id c r)
unfolding create_queue_tx create_queue meaning
create_queue-Agree id c now db r h v s = elim (Option-cases (Map.get id db.queues)) [
  | inl e ↦
      let db' : Db = record db { queues = Map.insert id (row_for c) db.queues } in
      let durable : meaning (create_queue_tx id c) db ≡ (ok created, db') = ground arith in
      let memory : create_queue id c r ≡ (
        ok created,
        record { queues = Map.insert id (record { config = c; messages = [] }) r.queues },
      ) =
        rw (twin_none now id db r s e, create_found) refl in
      rw durable (
        rw memory (record {
          answer = refl;
          state =
              Simulates-put now id db r s db' (record { config = c; messages = [] })
                (λ j ne. rw (get-insert_ne id j (row_for c) db.queues ne) refl)
                (rw get-insert_self (rw (v.owned id e) (rw (view-row_for c h) refl)));
          order = insert_queue-IsDb id (row_for c) db v (row_for-IsQueueRow c h);
        }))
  | inr (row, e) ↦
      let t = Twin-some now id db r s row e in
      elim (Bool-cases (same_config (view_config row) c)) [
        | inl same ↦
            rw (e, meaning)
              (rw (same_row-ok row c (v.rows id row e)) (
                rw (t.found, create_found)
                  (rw t.config (rw same (record { answer = refl; state = s; order = v })))))
        | inr other ↦
            rw (e, meaning)
              (rw (same_row-ok row c (v.rows id row e)) (
                rw (t.found, create_found)
                  (rw t.config (rw other (Agree-rejected now id db r v s queue_id_conflict db)))))
      ]
]

delete_cascade-Simulates :
    (id : QueueId) (now : Timestamp) (db : Db) (r : Relay)
    → Simulates now db r
    → Simulates now (delete_cascade id db) (record { queues = Map.remove id r.queues })
delete_cascade-Simulates id now db r s = record {
  at = λ j. elim (Bool-cases (id == j)) [
    | inl same ↦ rw (← (bytes_beq_iff id j).0 same) (rw get-remove_self (rw get-remove_self refl))
    | inr other ↦
        let ne : id ≢ j = ground (arith, bytes_beq_iff id j) in
        rw (get-remove_ne id j db.queues ne) (
          rw (get-remove_ne id j r.queues ne)
            (rw (rows_of-drop_elsewhere id j db.messages ne) (s.at j)))
  ];
}

-- A deletion is answered by the durable relay as by the one in memory.
pub delete_queue-Agree :
    (id : QueueId) (p : Principal) (now : Timestamp) (db : Db) (r : Relay)
    → IsDb db
    → Simulates now db r
    → Agree now db (meaning (delete_queue_tx id p) db) (delete_queue id p r)
unfolding delete_queue_tx meaning
delete_queue-Agree id p now db r v s = elim (Option-cases (Map.get id db.queues)) [
  | inl e ↦ rw (authorize-none id db p _ e) (
      rw (delete_missing id r (twin_none now id db r s e) p)
        (Agree-rejected now id db r v s queue_not_found db))
  | inr (row, e) ↦
      let t = Twin-some now id db r s row e in
      elim (Bool-cases (row.recipient == p)) [
        | inr other ↦ rw (authorize-other id db p _ row (v.rows id row e) e (ground arith)) (
            rw
              (delete_other id r t.found p
                (ground (arith, t.config, bytes_beq_iff row.recipient p)))
              (Agree-rejected now id db r v s unauthorized db))
        | inl owner ↦ rw (authorize-owner id db p _ row (v.rows id row e) e (ground arith)) (
            rw
              (delete_owner id r t.found p
                (ground (arith, t.config, bytes_beq_iff row.recipient p)))
              (record {
                answer = refl;
                state = delete_cascade-Simulates id now db r s;
                order = delete_cascade-IsDb id db v;
              }))
      ]
]
