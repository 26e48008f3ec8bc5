-- ===== src/Durable.antt =====
-- crates/cofferwire-relay/src/durable.rs: the commands of the durable relay, each as the
-- statements that it makes inside its transaction.
pub mod Rows
pub mod View
pub mod Upkeep
pub mod Simulation
pub mod Agree
pub mod Refines
mod Tests
use cofferwire.Base.{
  ℕ, suc, ◌+◌, ◌<◌, Bool, true, false, not, ◌&&◌, Option, none, some, List, [], ◌∷◌, ◌++◌, ltb, leb,
  ◌==◌, ◌!=◌, nat_same, bytes_same, if◌then◌else◌, Bytes, length, retain, find, map,
}
use cofferwire.Base.Map
use cofferwire.Base.Map.{Map}
use cofferwire.Base.BigEndian.{to_be, from_be, bytes_le}
use cofferwire.Types.{QueueId, Principal, MessageId, RequestId, Timestamp, checked_add}
use cofferwire.Policy.{
  QueueLimits, QueueConfig, new_limits, Letter, RelayError, queue_not_found, unauthorized,
  queue_id_conflict, message_id_conflict, message_too_large, queue_full, expiry_overflow,
  ack_mismatch, not_delivered, CreateQueueOutcome, created, already_exists, SendOutcome, accepted,
  duplicate,
}
use cofferwire.Tables.{
  QueueRow, MessageRow, ReplayRow, Db, is_expired, delete_expired, in_queue, is_message,
  next_sequence, insert_message, earliest, select_first, mark_delivered, delete_sequence,
  insert_queue,
}
use cofferwire.Storage.{DurableRelayError, relay, storage, other, Engine}
use cofferwire.Storage.Program.{Program, ret, fail, update, query, write, ◌>>=◌, ◌>>◌}

abbrev pub Tx : Type 0 → Type 1
Tx = Program Db

-- blob_u64
abbrev pub blob_u64 : Bytes → Option ℕ
blob_u64 value = if length value == 8 then some (from_be value) else none

abbrev pub invalid_data : {A : Type 0} → Tx A
invalid_data = fail (storage other)

abbrev pub reject : {A : Type 0} → RelayError → Tx A
reject error = fail (relay error)

-- `ok_or(error)?`
abbrev pub or_reject : {A : Type 0} → Option A → RelayError → Tx A
or_reject none error = reject error
or_reject (some a) error = ret a

abbrev pub or_invalid : {A : Type 0} → Option A → Tx A
or_invalid none = invalid_data
or_invalid (some a) = ret a

-- blob_u64 of a column.
unfoldable pub read_u64 : Bytes → Tx ℕ
read_u64 value = or_invalid (blob_u64 value)

-- read_queue: the row, if it is there, with its limits decoded; a usize has 64 bits.
unfoldable pub decode_queue : Option QueueRow → Tx (Option QueueConfig)
decode_queue none = ret none
decode_queue (some row) = do
  max_messages ← read_u64 row.max_messages
  max_message_bytes ← read_u64 row.max_message_bytes
  limits ← or_invalid (new_limits max_messages max_message_bytes)
  ret (some (record { sender = row.sender; recipient = row.recipient; limits = limits }))

unfoldable pub read_queue : QueueId → Tx (Option QueueConfig)
read_queue queue_id = do row ← query (λ db. Map.get queue_id db.queues); decode_queue row

unfoldable pub authorize_recipient : QueueId → Principal → Tx (Unit {0})
authorize_recipient queue_id recipient = do
  found ← read_queue queue_id
  config ← or_reject found queue_not_found
  if config.recipient != recipient then reject unauthorized else ret tt

unfoldable pub discard_expired : QueueId → Timestamp → Tx (Unit {0})
discard_expired queue_id now = write (delete_expired queue_id now)

unfoldable pub same_row : QueueRow → QueueConfig → Tx Bool
same_row row config = do
  max_messages ← read_u64 row.max_messages
  max_message_bytes ← read_u64 row.max_message_bytes
  ret (
      if row.sender != config.sender
      then false
      else if row.recipient != config.recipient
      then false
      else if max_messages != config.limits.max_messages
      then false
      else max_message_bytes == config.limits.max_message_bytes)

abbrev pub create_existing : QueueId → QueueConfig → Option QueueRow → Tx CreateQueueOutcome
create_existing id config (some row) = do
  same ← same_row row config
  if same then ret already_exists else reject queue_id_conflict
create_existing id config none = do update (insert_queue id config); ret created

unfoldable pub create_queue_tx : QueueId → QueueConfig → Tx CreateQueueOutcome
create_queue_tx id config = do
  existing ← query (λ db. Map.get id db.queues)
  create_existing id config existing

abbrev pub send_new : QueueConfig → QueueId → MessageId → Bytes → Timestamp → ℕ → Tx SendOutcome
send_new config queue_id message_id payload now ttl =
    if ltb config.limits.max_message_bytes (length payload) then reject message_too_large else do
      count ← query (λ db. length (retain (in_queue queue_id) db.messages))
      if leb config.limits.max_messages count then reject queue_full else do
        expires_at ← or_reject (checked_add now ttl) expiry_overflow
        update (insert_message queue_id message_id payload expires_at)
        ret accepted

abbrev pub send_existing :
    QueueConfig → QueueId → MessageId → Bytes → Timestamp → ℕ → Option Bytes → Tx SendOutcome
send_existing config queue_id message_id payload now ttl (some existing) =
    if existing == payload then ret duplicate else reject message_id_conflict
send_existing config queue_id message_id payload now ttl none =
    send_new config queue_id message_id payload now ttl

-- SELECT payload FROM messages WHERE queue_id = ?1 AND message_id = ?2
abbrev pub select_payload : QueueId → MessageId → Db → Option Bytes
select_payload queue_id message_id db = elim (find (is_message queue_id message_id) db.messages) [
  | none ↦ none
  | some row ↦ some row.payload
]

unfoldable pub send_tx : QueueId → Principal → MessageId → Bytes → Timestamp → ℕ → Tx SendOutcome
send_tx queue_id sender message_id payload now ttl = do
  found ← read_queue queue_id
  config ← or_reject found queue_not_found
  if config.sender != sender then reject unauthorized else do
    discard_expired queue_id now
    existing ← query (select_payload queue_id message_id)
    send_existing config queue_id message_id payload now ttl existing

-- The row of `fetch`, its expiry decoded.
abbrev pub deliver : Option MessageRow → Tx (Option Letter)
deliver none = ret none
deliver (some row) = do
  expires_at ← read_u64 row.expires_at
  write (λ db. record db { messages = mark_delivered row.sequence db.messages })
  ret (some (record { id = row.message_id; payload = row.payload; expires_at = expires_at }))

unfoldable pub fetch_tx : QueueId → Principal → Timestamp → Tx (Option Letter)
fetch_tx queue_id recipient now = do
  authorize_recipient queue_id recipient
  discard_expired queue_id now
  message ← query (select_first queue_id)
  deliver message

abbrev pub remove_current : MessageId → MessageRow → Tx (Unit {0})
remove_current message_id current =
    if current.message_id != message_id
    then reject ack_mismatch
    else if current.delivered
    then write (λ db. record db { messages = delete_sequence current.sequence db.messages })
    else reject not_delivered

unfoldable pub acknowledge_tx : QueueId → Principal → MessageId → Timestamp → Tx (Unit {0})
acknowledge_tx queue_id recipient message_id now = do
  authorize_recipient queue_id recipient
  discard_expired queue_id now
  found ← query (select_first queue_id)
  current ← or_reject found ack_mismatch
  remove_current message_id current

-- DELETE FROM queues WHERE queue_id = ?1, which takes the messages of the queue with it.
abbrev pub delete_cascade : QueueId → Db → Db
delete_cascade queue_id db = record db {
  queues = Map.remove queue_id db.queues;
  messages = retain (λ row. not (in_queue queue_id row)) db.messages;
}

unfoldable pub delete_queue_tx : QueueId → Principal → Tx (Unit {0})
delete_queue_tx queue_id recipient = do
  authorize_recipient queue_id recipient
  write (delete_cascade queue_id)
