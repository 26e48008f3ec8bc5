-- ===== src/Relay.antt =====
-- crates/cofferwire-relay/src/lib.rs: the in-memory state machine of relay queues. A method takes
-- the state and returns its result with the new state, also when the result is an error.
pub mod Keeps
pub mod Run
pub mod Sound
pub mod Access
pub mod Retry
pub mod Spared
pub mod Redelivery
pub mod Delivery
pub mod Fifo
pub mod Calls
mod Tests
use cofferwire.Base.{
  ℕ, ◌<◌, Bool, true, false, Option, none, some, List, [], ◌∷◌, ◌++◌, ltb, leb, ◌==◌, ◌!=◌,
  nat_same, bytes_same, if◌then◌else◌, Bytes, Result, ok, err, length, retain, find, Comparable,
}
use cofferwire.Base.Map
use cofferwire.Base.Map.{Map}
use cofferwire.Policy.{
  QueueLimits, QueueConfig, same_config, Letter, RelayError, queue_not_found, unauthorized,
  queue_id_conflict, message_id_conflict, message_too_large, queue_full, expiry_overflow,
  ack_mismatch, not_delivered, CreateQueueOutcome, created, already_exists, SendOutcome, accepted,
  duplicate,
}
use cofferwire.Types.{QueueId, Principal, MessageId, Timestamp, checked_add}

pub record QueuedMessage : Type 0 where
  pub id : MessageId
  pub payload : Bytes
  pub expires_at : Timestamp
  pub delivered : Bool

pub record Queue : Type 0 where
  pub config : QueueConfig
  pub messages : List QueuedMessage

abbrev pub Queues : Type 0
Queues = Map QueueId Queue

pub record Relay : Type 0 where
  pub queues : Queues

abbrev pub new : Relay
new = record { queues = [] }

-- The test that keeps a message at `now`.
abbrev pub is_live : Timestamp → QueuedMessage → Bool
is_live now message = ltb now message.expires_at

-- Queue::discard_expired
unfoldable pub discard_expired : Timestamp → Queue → Queue
discard_expired now queue = record queue { messages = retain (is_live now) queue.messages }

abbrev pub create_found :
    QueueId → QueueConfig → Relay → Option Queue → Result RelayError CreateQueueOutcome × Relay
create_found id config r (some existing) =
    if same_config existing.config config
    then (ok already_exists, r)
    else (err queue_id_conflict, r)
create_found id config r none = (
  ok created,
  record { queues = Map.insert id (record { config = config; messages = [] }) r.queues },
)

unfoldable pub create_queue :
    QueueId → QueueConfig → Relay → Result RelayError CreateQueueOutcome × Relay
create_queue id config r = create_found id config r (Map.get id r.queues)

abbrev pub new_message : MessageId → Bytes → Timestamp → QueuedMessage
new_message id payload expires_at = record {
  id = id;
  payload = payload;
  expires_at = expires_at;
  delivered = false;
}

-- `send` on the sender's queue, expired messages gone.
unfoldable pub offer :
    MessageId → Bytes → Timestamp → ℕ → Queue → Result RelayError SendOutcome × Queue
offer message_id payload now ttl queue =
    elim (find (λ message. message.id == message_id) queue.messages) [
      | some existing ↦
          if existing.payload == payload
          then (ok duplicate, queue)
          else (err message_id_conflict, queue)
      | none ↦
          if ltb queue.config.limits.max_message_bytes (length payload)
          then (err message_too_large, queue)
          else if leb queue.config.limits.max_messages (length queue.messages)
          then (err queue_full, queue)
          else elim (checked_add now ttl) [
            | none ↦ (err expiry_overflow, queue)
            | some expires_at ↦ (
              ok accepted,
              record queue {
                messages = queue.messages ++ new_message message_id payload expires_at ∷ [];
              },
            )
          ]
    ]

-- A change of one queue inside the map of queues.
abbrev pub put_back :
    {A : Type 0} → QueueId → Relay → Result RelayError A × Queue → Result RelayError A × Relay
put_back id r (result, queue) = (result, record { queues = Map.insert id queue r.queues })

unfoldable pub send :
    QueueId
    → Principal
    → MessageId
    → Bytes
    → Timestamp
    → ℕ
    → Relay
    → Result RelayError SendOutcome × Relay
send queue_id sender message_id payload now ttl r = elim (Map.get queue_id r.queues) [
  | none ↦ (err queue_not_found, r)
  | some queue ↦
      if queue.config.sender != sender
      then (err unauthorized, r)
      else put_back queue_id r (offer message_id payload now ttl (discard_expired now queue))
]

-- `recipient_queue_mut`, and a change of the queue that it finds.
unfoldable pub on_recipient_queue :
    {A : Type 0}
    → QueueId
    → Principal
    → (Queue → Result RelayError A × Queue)
    → Relay
    → Result RelayError A × Relay
on_recipient_queue queue_id recipient change r = elim (Map.get queue_id r.queues) [
  | none ↦ (err queue_not_found, r)
  | some queue ↦
      if queue.config.recipient != recipient
      then (err unauthorized, r)
      else put_back queue_id r (change queue)
]

abbrev pub to_letter : QueuedMessage → Letter
to_letter message = record {
  id = message.id;
  payload = message.payload;
  expires_at = message.expires_at;
}

abbrev pub take_front : QueueConfig → List QueuedMessage → Result RelayError (Option Letter) × Queue
take_front config [] = (ok none, record { config = config; messages = [] })
take_front config (message ∷ rest) = (
  ok (some (to_letter message)),
  record { config = config; messages = record message { delivered = true } ∷ rest },
)

unfoldable pub fetch_from : Timestamp → Queue → Result RelayError (Option Letter) × Queue
unfolding discard_expired
fetch_from now queue = take_front queue.config (discard_expired now queue).messages

unfoldable pub fetch :
    QueueId → Principal → Timestamp → Relay → Result RelayError (Option Letter) × Relay
unfolding on_recipient_queue fetch_from
fetch queue_id recipient now r = on_recipient_queue queue_id recipient (fetch_from now) r

abbrev pub pop_front :
    MessageId → QueueConfig → List QueuedMessage → Result RelayError (Unit {0}) × Queue
pop_front message_id config [] = (err ack_mismatch, record { config = config; messages = [] })
pop_front message_id config (message ∷ rest) =
    if message.id != message_id
    then (err ack_mismatch, record { config = config; messages = message ∷ rest })
    else if message.delivered
    then (ok tt, record { config = config; messages = rest })
    else (err not_delivered, record { config = config; messages = message ∷ rest })

unfoldable pub acknowledge_in : MessageId → Timestamp → Queue → Result RelayError (Unit {0}) × Queue
unfolding discard_expired
acknowledge_in message_id now queue =
    pop_front message_id queue.config (discard_expired now queue).messages

unfoldable pub acknowledge :
    QueueId → Principal → MessageId → Timestamp → Relay → Result RelayError (Unit {0}) × Relay
unfolding on_recipient_queue acknowledge_in
acknowledge queue_id recipient message_id now r =
    on_recipient_queue queue_id recipient (acknowledge_in message_id now) r

unfoldable pub delete_queue : QueueId → Principal → Relay → Result RelayError (Unit {0}) × Relay
delete_queue queue_id recipient r = elim (Map.get queue_id r.queues) [
  | none ↦ (err queue_not_found, r)
  | some queue ↦
      if queue.config.recipient != recipient
      then (err unauthorized, r)
      else (ok tt, record { queues = Map.remove queue_id r.queues })
]
