-- ===== src/Relay/Access.antt =====
-- Who may call, and what a call cannot touch.
use cofferwire.Base.{
  ◌≡◌, ◌≢◌, inl, inr, some, arith, Option-cases, Bool-cases, err, Result, bytes_same, bytes_beq_iff,
  ◌!=◌,
}
use cofferwire.Base.Map
use cofferwire.Base.Map.{get-insert, get-remove}
use cofferwire.Types.{QueueId, Timestamp, Principal}
use cofferwire.Policy.{QueueConfig, RelayError, unauthorized}
use cofferwire.Relay.Run.{Call, creates, sends, fetches, acknowledges, deletes, perform, step}
use cofferwire.Relay.Calls.{send_other, recipient_other, delete_other}
use cofferwire.Relay.{
  Queue, Relay, create_queue, send, fetch, acknowledge, delete_queue, on_recipient_queue,
}

-- The principal that a call comes from is the one that the queue admits for it.
abbrev pub IsEntitled : QueueConfig → Call → Type 0
IsEntitled config (creates c) = Unit
IsEntitled config (sends p m payload ttl) = config.sender ≡ p
IsEntitled config (fetches p) = config.recipient ≡ p
IsEntitled config (acknowledges p m) = config.recipient ≡ p
IsEntitled config (deletes p) = config.recipient ≡ p

-- A call on an existing queue by a principal that the queue does not admit for it is answered
-- with `unauthorized` and leaves the relay as it was.
pub perform_unauthorized :
    (r : Relay) (id : QueueId) (now : Timestamp) (c : Call) (q : Queue)
    → Map.get id r.queues ≡ some q
    → ¬ IsEntitled q.config c
    → perform r (id, now, c) ≡ (err unauthorized, r)
unfolding perform fetch acknowledge
perform_unauthorized r id now (creates config) q found h = absurd (h tt)
perform_unauthorized r id now (sends p m payload ttl) q found h =
    rw (send_other id r found p m payload now ttl h)
perform_unauthorized r id now (fetches p) q found h = rw (recipient_other id r found p _ h)
perform_unauthorized r id now (acknowledges p m) q found h = rw (recipient_other id r found p _ h)
perform_unauthorized r id now (deletes p) q found h = rw (delete_other id r found p h)

-- The queue with another identifier is not touched.
insert_elsewhere :
    (id j : QueueId) (q : Queue) (r : Relay)
    → id ≢ j
    → Map.get j (Map.insert id q r.queues) ≡ Map.get j r.queues
insert_elsewhere id j q r h = ground (arith, get-insert id j q r.queues, bytes_beq_iff id j)

remove_elsewhere :
    (id j : QueueId) (r : Relay) → id ≢ j → Map.get j (Map.remove id r.queues) ≡ Map.get j r.queues
remove_elsewhere id j r h = ground (arith, get-remove id j r.queues, bytes_beq_iff id j)

recipient_elsewhere :
    {A : Type 0} (id j : QueueId) (p : Principal) (change : Queue → Result RelayError A × Queue)
    (r : Relay)
    → id ≢ j
    → Map.get j (on_recipient_queue id p change r).1.queues ≡ Map.get j r.queues
unfolding on_recipient_queue
recipient_elsewhere id j p change r h = elim (Option-cases (Map.get id r.queues)) [
  | inl e ↦ rw (e, on_recipient_queue)
  | inr (q, e) ↦ elim (Bool-cases (q.config.recipient != p)) [
    | inl other ↦ rw (e, on_recipient_queue) (rw other)
    | inr owner ↦ rw (e, on_recipient_queue) (rw owner (insert_elsewhere id j _ r h))
  ]
]

-- A call changes no queue but the one that it names, whatever its outcome.
pub step_elsewhere :
    (r : Relay) (id j : QueueId) (now : Timestamp) (c : Call)
    → id ≢ j
    → Map.get j (step r (id, now, c)).queues ≡ Map.get j r.queues
unfolding step fetch acknowledge create_queue send delete_queue
step_elsewhere r id j now (creates config) h = grind (arith, insert_elsewhere)
step_elsewhere r id j now (sends p m payload ttl) h = grind (arith, insert_elsewhere)
step_elsewhere r id j now (fetches p) h = recipient_elsewhere id j p _ r h
step_elsewhere r id j now (acknowledges p m) h = recipient_elsewhere id j p _ r h
step_elsewhere r id j now (deletes p) h = ground (arith, remove_elsewhere id j r)
