-- ===== src/Requests/Records.antt =====
-- The queue commands leave the table of the records alone.
use cofferwire.Base.{
  inl, inr, refl, Option, none, some, Bytes, bytes_same, ℕ, find, Option-cases, arith,
}
use cofferwire.Base.Map
use cofferwire.Types.{QueueId, Principal, MessageId, Timestamp}
use cofferwire.Policy.{QueueConfig, Letter}
use cofferwire.Storage.Program.{ret}
use cofferwire.Tables.{
  QueueRow, MessageRow, delete_expired, insert_queue, insert_message, is_message, delete_sequence,
}
use cofferwire.Durable.{
  read_u64, decode_queue, read_queue, authorize_recipient, discard_expired, same_row,
  create_existing, create_queue_tx, send_new, send_existing, send_tx, deliver, fetch_tx,
  remove_current, acknowledge_tx, delete_queue_tx,
}
use cofferwire.Wire.{WireRequest, create_queue, send, fetch, ack, delete_queue}
use cofferwire.Requests.{execute_queue_request, wire_delivery}
use cofferwire.Requests.Quiet.{
  Quiet, Untouched, Untouched-bind, Quiet-write, Untouched-read_u64, Untouched-ret,
  Untouched-statement, untouched_rules, Quiet-some,
}

Untouched-decode_queue : (row : Option QueueRow) → Untouched (decode_queue row)
unfolding decode_queue
Untouched-decode_queue none = search untouched_rules
Untouched-decode_queue (some row) = search untouched_rules

Untouched-read_queue : (id : QueueId) → Untouched (read_queue id)
unfolding read_queue
Untouched-read_queue id = search (untouched_rules, Untouched-decode_queue)

Untouched-authorize_recipient :
    (id : QueueId) (recipient : Principal) → Untouched (authorize_recipient id recipient)
unfolding authorize_recipient
Untouched-authorize_recipient id recipient = search (untouched_rules, Untouched-read_queue)

Untouched-discard_expired : (id : QueueId) (now : Timestamp) → Untouched (discard_expired id now)
unfolding discard_expired delete_expired
Untouched-discard_expired id now =
    Untouched-statement _ ret (Quiet-write (delete_expired id now) (λ db. refl))
      (λ b. Untouched-ret b)

Quiet-insert_queue : (id : QueueId) (config : QueueConfig) → Quiet (insert_queue id config)
Quiet-insert_queue id config db b db' h = elim (Option-cases (Map.get id db.queues)) [
  | inl free ↦ let made = rw (insert_queue, free) at h in Quiet-some tt b _ db' made
  | inr (row, taken) ↦ let made = rw (insert_queue, taken) at h in absurd (ground (arith, made))
]

Untouched-same_row : (row : QueueRow) (config : QueueConfig) → Untouched (same_row row config)
unfolding same_row
Untouched-same_row row config = search untouched_rules

Untouched-create_existing :
    (id : QueueId) (config : QueueConfig) (row : Option QueueRow)
    → Untouched (create_existing id config row)
Untouched-create_existing id config none = search (untouched_rules, Quiet-insert_queue)
Untouched-create_existing id config (some row) = search (untouched_rules, Untouched-same_row)

Quiet-insert_message :
    (id : QueueId) (message_id : MessageId) (payload : Bytes) (expires_at : Timestamp)
    → Quiet (insert_message id message_id payload expires_at)
Quiet-insert_message id message_id payload expires_at db b db' h =
    elim (Option-cases (Map.get id db.queues)) [
      | inl gone ↦ let made = rw (insert_message, gone) at h in absurd (ground (arith, made))
      | inr (row, there) ↦ elim (Option-cases (find (is_message id message_id) db.messages)) [
        | inl free ↦ let made = rw (insert_message, there, free) at h in Quiet-some tt b _ db' made
        | inr (old, taken) ↦
            let made = rw (insert_message, there, taken) at h in absurd (ground (arith, made))
      ]
    ]

Untouched-create_queue_tx :
    (id : QueueId) (config : QueueConfig) → Untouched (create_queue_tx id config)
unfolding create_queue_tx
Untouched-create_queue_tx id config = search (untouched_rules, Untouched-create_existing)

Untouched-send_new :
    (config : QueueConfig) (id : QueueId) (message_id : MessageId) (payload : Bytes)
    (now : Timestamp) (ttl : ℕ)
    → Untouched (send_new config id message_id payload now ttl)
Untouched-send_new config id message_id payload now ttl =
    search (untouched_rules, Quiet-insert_message) depth 9

Untouched-send_existing :
    (config : QueueConfig) (id : QueueId) (message_id : MessageId) (payload : Bytes)
    (now : Timestamp) (ttl : ℕ) (existing : Option Bytes)
    → Untouched (send_existing config id message_id payload now ttl existing)
Untouched-send_existing config id message_id payload now ttl none =
    Untouched-send_new config id message_id payload now ttl
Untouched-send_existing config id message_id payload now ttl (some existing) =
    search untouched_rules

Untouched-send_tx :
    (id : QueueId) (sender : Principal) (message_id : MessageId) (payload : Bytes) (now : Timestamp)
    (ttl : ℕ)
    → Untouched (send_tx id sender message_id payload now ttl)
unfolding send_tx
Untouched-send_tx id sender message_id payload now ttl =
    search
      (untouched_rules, Untouched-read_queue, Untouched-discard_expired, Untouched-send_existing)
      depth 9

Untouched-deliver : (row : Option MessageRow) → Untouched (deliver row)
Untouched-deliver none = search untouched_rules
Untouched-deliver (some row) =
    Untouched-bind (read_u64 row.expires_at) _ (Untouched-read_u64 row.expires_at)
      (λ t. Untouched-statement _ _ (Quiet-write _ (λ db. refl)) (λ b. search untouched_rules))

Untouched-fetch_tx :
    (id : QueueId) (recipient : Principal) (now : Timestamp) → Untouched (fetch_tx id recipient now)
unfolding fetch_tx
Untouched-fetch_tx id recipient now =
    search
      (untouched_rules, Untouched-authorize_recipient, Untouched-discard_expired, Untouched-deliver)

Quiet-delete_sequence :
    (sequence : ℕ)
    → Quiet (λ db. some (tt {0}, record db { messages = delete_sequence sequence db.messages }))
Quiet-delete_sequence sequence = Quiet-write _ (λ db. refl)

Untouched-remove_current :
    (message_id : MessageId) (row : MessageRow) → Untouched (remove_current message_id row)
Untouched-remove_current message_id row = search (untouched_rules, Quiet-delete_sequence)

Untouched-acknowledge_tx :
    (id : QueueId) (recipient : Principal) (message_id : MessageId) (now : Timestamp)
    → Untouched (acknowledge_tx id recipient message_id now)
unfolding acknowledge_tx
Untouched-acknowledge_tx id recipient message_id now = search (
  untouched_rules, Untouched-authorize_recipient, Untouched-discard_expired,
  Untouched-remove_current,
)

Untouched-delete_queue_tx :
    (id : QueueId) (recipient : Principal) → Untouched (delete_queue_tx id recipient)
unfolding delete_queue_tx
Untouched-delete_queue_tx id recipient =
    Untouched-bind (authorize_recipient id recipient) _ (Untouched-authorize_recipient id recipient)
      (λ u. Untouched-statement _ _ (Quiet-write _ (λ db. refl)) (λ b. search untouched_rules))

Untouched-wire_delivery : (letter : Option Letter) → Untouched (wire_delivery letter)
Untouched-wire_delivery none = search untouched_rules
Untouched-wire_delivery (some letter) = search untouched_rules

ruleset command_rules = (
  untouched_rules, Untouched-create_queue_tx, Untouched-send_tx, Untouched-fetch_tx,
  Untouched-acknowledge_tx, Untouched-delete_queue_tx, Untouched-wire_delivery,
)

pub Untouched-execute_queue_request :
    (request : WireRequest) (now : Timestamp) → Untouched (execute_queue_request request now)
unfolding execute_queue_request
Untouched-execute_queue_request (create_queue request) now = search command_rules
Untouched-execute_queue_request (send request) now = search command_rules
Untouched-execute_queue_request (fetch request) now = search command_rules
Untouched-execute_queue_request (ack request) now = search command_rules
Untouched-execute_queue_request (delete_queue request) now = search command_rules
