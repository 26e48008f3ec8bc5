-- ===== src/Relay/Keeps.antt =====
-- A property of single queues that the operations on a queue keep is kept by the relay.
use cofferwire.Base.{
  ℕ, ◌≡◌, inl, inr, some, List, [], ◌∷◌, arith, Bytes, Option-cases, Bool-cases, Result, bytes_same,
  ◌!=◌,
}
use cofferwire.Base.Map
use cofferwire.Base.Map.{get-insert, get-remove}
use cofferwire.Types.{QueueId, Timestamp, Principal, MessageId}
use cofferwire.Policy.{QueueConfig, RelayError, same_config}
use cofferwire.Relay.Run.{Event, creates, sends, fetches, acknowledges, deletes, step, run}
use cofferwire.Relay.{
  Queue, Relay, create_found, new, discard_expired, create_queue, offer, send, on_recipient_queue,
  fetch_from, fetch, acknowledge_in, acknowledge, delete_queue,
}

-- P holds of every queue of a relay.
pub record Everywhere (P : Queue → Type 0) (r : Relay) : Type 0 where
  pub at : (id : QueueId) (q : Queue) → Map.get id r.queues ≡ some q → P q

module _ (P : Queue → Type 0) where
  insert_keeps :
      (id : QueueId) (q : Queue) (r : Relay)
      → Everywhere P r
      → P q
      → Everywhere P (record { queues = Map.insert id q r.queues })
  insert_keeps id q r s h = record { at = λ j p e. grind (arith, get-insert id j q r.queues, s.at) }

  on_recipient_queue_keeps :
      {A : Type 0} (id : QueueId) (p : Principal) (change : Queue → Result RelayError A × Queue)
      (r : Relay)
      → ((q : Queue) → P q → P (change q).1)
      → Everywhere P r
      → Everywhere P (on_recipient_queue id p change r).1
  unfolding on_recipient_queue
  on_recipient_queue_keeps id p change r keep s = elim (Option-cases (Map.get id r.queues)) [
    | inl e ↦ rw (e, on_recipient_queue) s
    | inr (q, e) ↦ elim (Bool-cases (q.config.recipient != p)) [
      | inl other ↦ rw (e, on_recipient_queue) (rw other s)
      | inr owner ↦
          rw (e, on_recipient_queue)
            (rw owner (insert_keeps id (change q).1 r s (keep q (s.at id q e))))
    ]
  ]

  remove_keeps :
      (id : QueueId) (r : Relay)
      → Everywhere P r
      → Everywhere P (record { queues = Map.remove id r.queues })
  remove_keeps id r s = record { at = λ j p e. grind (arith, get-remove id j r.queues, s.at) }

  delete_queue_keeps :
      (id : QueueId) (p : Principal) (r : Relay)
      → Everywhere P r
      → Everywhere P (delete_queue id p r).1
  unfolding delete_queue
  delete_queue_keeps id p r s = elim (Option-cases (Map.get id r.queues)) [
    | inl e ↦ rw (e, delete_queue) s
    | inr (q, e) ↦ elim (Bool-cases (q.config.recipient != p)) [
      | inl other ↦ rw (e, delete_queue) (rw other s)
      | inr owner ↦ rw (e, delete_queue) (rw owner (remove_keeps id r s))
    ]
  ]

  module _ (fresh : (c : QueueConfig) → P (record { config = c; messages = [] }))
      (kept_offer : (m : MessageId) (payload : Bytes) (now : Timestamp) (ttl : ℕ) (q : Queue)
        → P q
        → P (offer m payload now ttl (discard_expired now q)).1)
      (kept_fetch : (now : Timestamp) (q : Queue) → P q → P (fetch_from now q).1)
      (kept_ack : (m : MessageId) (now : Timestamp) (q : Queue)
        → P q
        → P (acknowledge_in m now q).1) where
    create_queue_keeps :
        (id : QueueId) (c : QueueConfig) (r : Relay)
        → Everywhere P r
        → Everywhere P (create_queue id c r).1
    unfolding create_queue
    create_queue_keeps id c r s = elim (Option-cases (Map.get id r.queues)) [
      | inl e ↦ rw (e, create_found) (insert_keeps id _ r s (fresh c))
      | inr (q, e) ↦ elim (Bool-cases (same_config q.config c)) [
        | inl same ↦ rw (e, create_found) (rw same s)
        | inr other ↦ rw (e, create_found) (rw other s)
      ]
    ]

    send_keeps :
        (id : QueueId) (p : Principal) (m : MessageId) (payload : Bytes) (now : Timestamp) (ttl : ℕ)
        (r : Relay)
        → Everywhere P r
        → Everywhere P (send id p m payload now ttl r).1
    unfolding send
    send_keeps id p m payload now ttl r s = elim (Option-cases (Map.get id r.queues)) [
      | inl e ↦ rw (e, send) s
      | inr (q, e) ↦ elim (Bool-cases (q.config.sender != p)) [
        | inl other ↦ rw (e, send) (rw other s)
        | inr owner ↦
            rw (e, send)
              (rw owner (insert_keeps id _ r s (kept_offer m payload now ttl q (s.at id q e))))
      ]
    ]

    pub step_keeps : (r : Relay) (c : Event) → Everywhere P r → Everywhere P (step r c)
    unfolding step fetch acknowledge
    step_keeps r (id, now, creates c) s = create_queue_keeps id c r s
    step_keeps r (id, now, sends p m payload ttl) s = send_keeps id p m payload now ttl r s
    step_keeps r (id, now, fetches p) s =
        on_recipient_queue_keeps id p (fetch_from now) r (kept_fetch now) s
    step_keeps r (id, now, acknowledges p m) s =
        on_recipient_queue_keeps id p (acknowledge_in m now) r (kept_ack m now) s
    step_keeps r (id, now, deletes p) s = delete_queue_keeps id p r s

    pub run_keeps : (r : Relay) (cs : List (Event)) → Everywhere P r → Everywhere P (run r cs)
    unfolding run
    run_keeps r [] s = s
    run_keeps r (c ∷ cs) s = run_keeps (step r c) cs (step_keeps r c s)

    pub run-new_keeps :
        (cs : List (Event)) (id : QueueId) (q : Queue)
        → Map.get id (run new cs).queues ≡ some q
        → P q
    unfolding Map.get
    run-new_keeps cs = (run_keeps new cs (record { at = λ id q e. cc })).at
