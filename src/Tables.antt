-- ===== src/Tables.antt =====
-- crates/cofferwire-relay/src/durable.rs: the SQL tables of the durable relay, and its SQL statements, each
-- a function of the tables. The integers in the tables are strings of 8 bytes, and SQLite gives a
-- new message the number that follows the largest.
use cofferwire.Base.{
  ℕ, suc, Bool, true, false, not, ◌&&◌, Option, none, some, List, [], ◌∷◌, ◌++◌, ltb, ◌==◌, ◌!=◌,
  nat_same, bytes_same, if◌then◌else◌, Bytes, retain, find, map,
}
use cofferwire.Base.Map
use cofferwire.Base.Map.{Map}
use cofferwire.Base.BigEndian.{to_be, bytes_le}
use cofferwire.Types.{QueueId, Principal, MessageId, RequestId, Timestamp}
use cofferwire.Policy.{QueueConfig}

-- A row of the table `queues`, its key apart.
pub record QueueRow : Type 0 where
  pub sender : Bytes
  pub recipient : Bytes
  pub max_messages : Bytes
  pub max_message_bytes : Bytes

-- A row of the table `messages`.
pub record MessageRow : Type 0 where
  pub sequence : ℕ
  pub queue_id : Bytes
  pub message_id : Bytes
  pub payload : Bytes
  pub expires_at : Bytes
  pub delivered : Bool

-- The key of a row of the table `queue_replays`: its principal and its request identifier.
abbrev pub ReplayKey : Type 0
ReplayKey = Principal × RequestId

-- A row of the table, its key apart: the bytes of the request and of its response.
abbrev pub ReplayRow : Type 0
ReplayRow = Bytes × Bytes

pub record Db : Type 0 where
  pub queues : Map QueueId QueueRow
  pub messages : List MessageRow
  pub replays : Map ReplayKey ReplayRow

-- DELETE FROM messages WHERE queue_id = ?1 AND expires_at <= ?2
abbrev pub is_expired : QueueId → Bytes → MessageRow → Bool
is_expired queue_id now row = row.queue_id == queue_id && bytes_le row.expires_at now

unfoldable pub delete_expired : QueueId → Timestamp → Db → Db
delete_expired queue_id now db = record db {
  messages = retain (λ row. not (is_expired queue_id (to_be 8 now) row)) db.messages;
}

-- WHERE queue_id = ?1
abbrev pub in_queue : QueueId → MessageRow → Bool
in_queue queue_id row = row.queue_id == queue_id

-- WHERE queue_id = ?1 AND message_id = ?2
abbrev pub is_message : QueueId → MessageId → MessageRow → Bool
is_message queue_id message_id row = row.queue_id == queue_id && row.message_id == message_id

-- The sequence that INTEGER PRIMARY KEY gives to a new row: one more than the largest.
unfoldable pub next_sequence : List MessageRow → ℕ
next_sequence [] = 1
next_sequence (row ∷ rows) =
    let rest = next_sequence rows in if ltb row.sequence rest then rest else suc row.sequence

-- INSERT INTO messages; its queue has to exist, and its identifier to be new there.
abbrev pub insert_message : QueueId → MessageId → Bytes → Timestamp → Db → Option ((Unit {0}) × Db)
insert_message queue_id message_id payload expires_at db = elim (Map.get queue_id db.queues) [
  | none ↦ none
  | some _ ↦ elim (find (is_message queue_id message_id) db.messages) [
    | some _ ↦ none
    | none ↦ some (
      tt,
      record db {
        messages =
            db.messages
            ++ record {
              sequence = next_sequence db.messages;
              queue_id = queue_id;
              message_id = message_id;
              payload = payload;
              expires_at = to_be 8 expires_at;
              delivered = false;
            }
              ∷ [];
      },
    )
  ]
]

-- ORDER BY sequence LIMIT 1
unfoldable pub earliest : List MessageRow → Option MessageRow
earliest [] = none
earliest (row ∷ rows) = elim (earliest rows) [
  | none ↦ some row
  | some least ↦ if ltb least.sequence row.sequence then some least else some row
]

abbrev pub select_first : QueueId → Db → Option MessageRow
select_first queue_id db = earliest (retain (in_queue queue_id) db.messages)

-- UPDATE messages SET delivered = 1 WHERE sequence = ?1
unfoldable pub mark_delivered : ℕ → List MessageRow → List MessageRow
mark_delivered sequence =
    map (λ row. if row.sequence == sequence then record row { delivered = true } else row)

-- DELETE FROM messages WHERE sequence = ?1
unfoldable pub delete_sequence : ℕ → List MessageRow → List MessageRow
delete_sequence sequence = retain (λ row. row.sequence != sequence)

-- INSERT INTO queues
abbrev pub insert_queue : QueueId → QueueConfig → Db → Option ((Unit {0}) × Db)
insert_queue id config db = elim (Map.get id db.queues) [
  | some _ ↦ none
  | none ↦ some (
    tt,
    record db {
      queues =
          Map.insert id
            (record {
              sender = config.sender;
              recipient = config.recipient;
              max_messages = to_be 8 config.limits.max_messages;
              max_message_bytes = to_be 8 config.limits.max_message_bytes;
            })
            db.queues;
    },
  )
]
