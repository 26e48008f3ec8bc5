-- ===== src/Relay/Run.antt =====
-- Sequences of calls on a relay.
use cofferwire.Base.{ℕ, List, [], ◌∷◌, Option, Bytes, Result, ok, err}
use cofferwire.Types.{QueueId, Principal, MessageId, Timestamp}
use cofferwire.Policy.{QueueConfig, Letter, RelayError, CreateQueueOutcome, SendOutcome}
use cofferwire.Relay.{Relay, create_queue, send, fetch, acknowledge, delete_queue}

-- The calls of a client; a send carries its lifetime.
pub data Call : Type 0 where
  creates : QueueConfig → Call
  sends : Principal → MessageId → Bytes → ℕ → Call
  fetches : Principal → Call
  acknowledges : Principal → MessageId → Call
  deletes : Principal → Call

-- What a call that succeeds returns.
pub data Reply : Type 0 where
  create_reply : CreateQueueOutcome → Reply
  send_reply : SendOutcome → Reply
  fetch_reply : Option Letter → Reply
  ack_reply delete_reply : Reply

-- A call names its queue and comes at a time.
abbrev pub Event : Type 0
Event = QueueId × Timestamp × Call

abbrev pub map_ok {ℓ} : {E A B : Type ℓ} → (A → B) → Result E A → Result E B
map_ok f (ok a) = ok (f a)
map_ok f (err e) = err e

abbrev pub reply_with :
    {A : Type 0} → (A → Reply) → Result RelayError A × Relay → Result RelayError Reply × Relay
reply_with f x = (map_ok f x.0, x.1)

unfoldable pub perform : Relay → Event → Result RelayError Reply × Relay
perform r (id, now, creates config) = reply_with create_reply (create_queue id config r)
perform r (id, now, sends sender message_id payload ttl) =
    reply_with send_reply (send id sender message_id payload now ttl r)
perform r (id, now, fetches recipient) = reply_with fetch_reply (fetch id recipient now r)
perform r (id, now, acknowledges recipient message_id) =
    reply_with (λ _. ack_reply) (acknowledge id recipient message_id now r)
perform r (id, now, deletes recipient) =
    reply_with (λ _. delete_reply) (delete_queue id recipient r)

unfoldable pub step : Relay → Event → Relay
unfolding perform
step r e = (perform r e).1

unfoldable pub run : Relay → List Event → Relay
run r [] = r
run r (e ∷ es) = run (step r e) es
