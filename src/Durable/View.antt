-- ===== src/Durable/View.antt =====
-- The queues that the tables stand for, and when the tables are in order.
use cofferwire.Base.{
  ℕ, ◌<◌, ◌≡◌, refl, none, some, Option, List, [], arith, length, true, false, ◌!=◌, Each,
  bytes_same, nat_same, err,
}
use cofferwire.Base.Map
use cofferwire.Base.BigEndian.{from_be}
use cofferwire.Types.{QueueId, Principal, Timestamp}
use cofferwire.Policy.{QueueConfig, queue_not_found, unauthorized, new_limits, same_config}
use cofferwire.Relay.{Queue, QueuedMessage}
use cofferwire.Storage.{relay}
use cofferwire.Storage.Program.{ret, meaning, ◌>>=◌}
use cofferwire.Tables.{QueueRow, Db, delete_expired}
use cofferwire.Durable.Rows.{viewed, rows_of, IsMessageRow}
use cofferwire.Durable.Rows.Sequence.{Ascending}
use cofferwire.Durable.{
  Tx, read_u64, decode_queue, same_row, read_queue, authorize_recipient, discard_expired,
}

abbrev pub view_config : QueueRow → QueueConfig
view_config row = record {
  sender = row.sender;
  recipient = row.recipient;
  limits = record {
    max_messages = from_be row.max_messages;
    max_message_bytes = from_be row.max_message_bytes;
  };
}

abbrev pub view_queue : Option QueueRow → List QueuedMessage → Option Queue
view_queue none ms = none
view_queue (some row) ms = some (record { config = view_config row; messages = ms })

-- The queue with an identifier.
abbrev pub view : Db → QueueId → Option Queue
view db id = view_queue (Map.get id db.queues) (viewed id db.messages)

pub record IsQueueRow (row : QueueRow) : Type 0 where
  pub messages_length : length row.max_messages ≡ 8
  pub bytes_length : length row.max_message_bytes ≡ 8
  pub messages_pos : 0 < from_be row.max_messages
  pub bytes_pos : 0 < from_be row.max_message_bytes

-- Limits and times are strings of 8 bytes, limits are not 0, the numbers of the messages rise along
-- the table, and a message stands in a queue that is there.
pub record IsDb (db : Db) : Type 0 where
  pub rows : (id : QueueId) (row : QueueRow) → Map.get id db.queues ≡ some row → IsQueueRow row
  pub times : Each IsMessageRow db.messages
  pub ascending : Ascending db.messages
  pub owned : (id : QueueId) → Map.get id db.queues ≡ none → rows_of id db.messages ≡ []

read_u64-ok : (bytes : List ℕ) → length bytes ≡ 8 → read_u64 bytes ≡ ret (from_be bytes)
unfolding read_u64
read_u64-ok bytes h = rw h

pub read_time : (bytes : List ℕ) → length bytes ≡ 8 → read_u64 bytes ≡ ret (from_be bytes)
read_time bytes h = read_u64-ok bytes h

limits-ok :
    (a b : ℕ)
    → 0 < a
    → 0 < b
    → new_limits a b ≡ some (record { max_messages = a; max_message_bytes = b })
limits-ok a b h k = ground arith

decode-some :
    (row : QueueRow) → IsQueueRow row → decode_queue (some row) ≡ ret (some (view_config row))
unfolding decode_queue
decode-some row v = rw (read_u64-ok row.max_messages v.messages_length) (
    rw (read_u64-ok row.max_message_bytes v.bytes_length) (
      rw
        (limits-ok (from_be row.max_messages) (from_be row.max_message_bytes) v.messages_pos
          v.bytes_pos)
        refl))

pub same_row-ok :
    (row : QueueRow) (config : QueueConfig)
    → IsQueueRow row
    → same_row row config ≡ ret (same_config (view_config row) config)
unfolding same_row
same_row-ok row config v =
    rw (read_u64-ok row.max_messages v.messages_length)
      (rw (read_u64-ok row.max_message_bytes v.bytes_length) refl)

module _ {A : Type 0} (id : QueueId) (db : Db) where
  pub read_queue-none :
      (k : Option QueueConfig → Tx A)
      → Map.get id db.queues ≡ none
      → meaning (read_queue id >>= k) db ≡ meaning (k none) db
  unfolding read_queue meaning decode_queue
  read_queue-none k h = rw (h, meaning)

  pub read_queue-some :
      (k : Option QueueConfig → Tx A) (row : QueueRow)
      → IsQueueRow row
      → Map.get id db.queues ≡ some row
      → meaning (read_queue id >>= k) db ≡ meaning (k (some (view_config row))) db
  unfolding read_queue meaning
  read_queue-some k row v h = rw (h, meaning) (rw (decode-some row v))

  pub discard_expired-meaning :
      (now : Timestamp) (k : Unit {0} → Tx A)
      → meaning (discard_expired id now >>= k) db ≡ meaning (k tt) (delete_expired id now db)
  unfolding discard_expired meaning
  discard_expired-meaning now k = refl

  pub authorize-none :
      (p : Principal) (k : Unit {0} → Tx A)
      → Map.get id db.queues ≡ none
      → meaning (authorize_recipient id p >>= k) db ≡ (err (relay queue_not_found), db)
  unfolding authorize_recipient read_queue decode_queue meaning
  authorize-none p k h = rw (h, meaning)

  pub authorize-other :
      (p : Principal) (k : Unit {0} → Tx A) (row : QueueRow)
      → IsQueueRow row
      → Map.get id db.queues ≡ some row
      → row.recipient != p ≡ true
      → meaning (authorize_recipient id p >>= k) db ≡ (err (relay unauthorized), db)
  unfolding authorize_recipient read_queue meaning
  authorize-other p k row v h e = rw (h, meaning) (rw (decode-some row v) (rw e))

  pub authorize-owner :
      (p : Principal) (k : Unit {0} → Tx A) (row : QueueRow)
      → IsQueueRow row
      → Map.get id db.queues ≡ some row
      → row.recipient != p ≡ false
      → meaning (authorize_recipient id p >>= k) db ≡ meaning (k tt) db
  unfolding authorize_recipient read_queue meaning
  authorize-owner p k row v h e = rw (h, meaning) (rw (decode-some row v) (rw e))
