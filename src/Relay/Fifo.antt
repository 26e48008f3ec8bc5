-- ===== src/Relay/Fifo.antt =====
-- The order of a queue over a whole history: what is acknowledged was accepted, once for each
-- acceptance, in the order of acceptance.
pub mod Order
use mathlib.Core.List.{Sublist, append-nil, nil-sublist}
use mathlib.Core.List.Sublist
use cofferwire.Base.{
  ℕ, ◌≡◌, ◌≢◌, ◌++◌, refl, inl, inr, none, some, Option-cases, Bool-cases, ok, err, Result, List,
  [], ◌∷◌, true, false, Bool, Bytes, bytes_same, bytes_beq_iff, ◌==◌, ◌!=◌, retain, if◌then◌else◌,
  arith, sym, ap,
}
use cofferwire.Base.Map
use cofferwire.Base.Map.{get-insert_self, get-remove_self}
use cofferwire.Types.{QueueId, Timestamp, Principal, MessageId}
use cofferwire.Policy.{RelayError, QueueConfig, same_config}
use cofferwire.Relay.Run.{
  Event, Call, Reply, map_ok, creates, sends, fetches, acknowledges, deletes, send_reply,
  fetch_reply, create_reply, ack_reply, perform, step,
}
use cofferwire.Relay.Calls.{send_owner, recipient_owner, delete_owner}
use cofferwire.Relay.Access.{step_elsewhere}
use cofferwire.Relay.{
  Queue, Relay, new, is_live, offer, fetch_from, acknowledge_in, discard_expired, send, fetch,
  acknowledge, on_recipient_queue, delete_queue, create_queue, create_found,
}
use Order.{
  Log, empty_log, note, observe, ids, held, ids-retain, ids-offer, take_front-ids, InOrder,
  InOrder-shrink, InOrder-after_offer, InOrder-pop_front, after_offer,
}

abbrev OrderAt : QueueId → Relay → Log → Type 0
OrderAt id r log = InOrder log (held (Map.get id r.queues))

module _ (id : QueueId) (r : Relay) (log : Log) (s : OrderAt id r log) where
  held-discard :
      (q : Queue) (now : Timestamp)
      → Map.get id r.queues ≡ some q
      → InOrder log (ids (retain (is_live now) q.messages))
  held-discard q now e = InOrder-shrink log (ids-retain (is_live now) q.messages) (rw e at s)

  send-OrderAt :
      (p : Principal) (m : MessageId) (payload : Bytes) (now : Timestamp) (ttl : ℕ)
      → let (result, r') = send id p m payload now ttl r in
        OrderAt id r' (note (sends p m payload ttl) (map_ok send_reply result) log)
  unfolding send discard_expired
  send-OrderAt p m payload now ttl = elim (Option-cases (Map.get id r.queues)) [
    | inl e ↦ rw (e, send) (rw e (rw e at s))
    | inr (q, e) ↦ elim (Bool-cases (q.config.sender != p)) [
      | inl other ↦ rw (e, send) (rw other s)
      | inr owner ↦
          let q' : Queue = discard_expired now q in
          rw (e, send)
            (rw owner (
              rw get-insert_self (
                rw (ids-offer m payload now ttl q') (
                  InOrder-after_offer log p m payload ttl (offer m payload now ttl q').0
                    (ids q'.messages) (held-discard q now e)))))
    ]
  ]

  recipient-OrderAt :
      {A : Type 0} (p : Principal) (change : Queue → Result RelayError A × Queue) (c : Call)
      (reply : A → Reply)
      → ((e : RelayError) → note c (err e) log ≡ log)
      → ((q : Queue)
          → Map.get id r.queues ≡ some q
          → InOrder (note c (map_ok reply (change q).0) log) (ids (change q).1.messages))
      → let (result, r') = on_recipient_queue id p change r in
        OrderAt id r' (note c (map_ok reply result) log)
  unfolding on_recipient_queue
  recipient-OrderAt p change c reply errs keep = elim (Option-cases (Map.get id r.queues)) [
    | inl e ↦ rw (e, on_recipient_queue) (rw errs (rw e (rw e at s)))
    | inr (q, e) ↦ elim (Bool-cases (q.config.recipient != p)) [
      | inl other ↦ rw (e, on_recipient_queue) (rw other (rw errs s))
      | inr owner ↦ rw (e, on_recipient_queue) (rw owner (rw get-insert_self (keep q e)))
    ]
  ]

  fetch-OrderAt :
      (p : Principal) (now : Timestamp)
      → let (result, r') = fetch id p now r in
        OrderAt id r' (note (fetches p) (map_ok fetch_reply result) log)
  unfolding fetch fetch_from discard_expired
  fetch-OrderAt p now =
      recipient-OrderAt p (fetch_from now) (fetches p) fetch_reply (λ e. refl)
        λ q e. rw (take_front-ids q.config (retain (is_live now) q.messages)) (held-discard q now e)

  acknowledge-OrderAt :
      (p : Principal) (m : MessageId) (now : Timestamp)
      → let (result, r') = acknowledge id p m now r in
        OrderAt id r' (note (acknowledges p m) (map_ok (λ _. ack_reply) result) log)
  unfolding acknowledge acknowledge_in discard_expired
  acknowledge-OrderAt p m now =
      recipient-OrderAt p (acknowledge_in m now) (acknowledges p m) (λ _. ack_reply) (λ e. refl)
        λ q e.
          InOrder-pop_front log p m q.config (retain (is_live now) q.messages)
            (held-discard q now e)

  none_held : OrderAt id r log → InOrder log []
  none_held h = InOrder-shrink log (nil-sublist _) h

  create_queue-OrderAt : (c : QueueConfig) → OrderAt id (create_queue id c r).1 log
  unfolding create_queue
  create_queue-OrderAt c = elim (Option-cases (Map.get id r.queues)) [
    | inl e ↦ rw (e, create_found) (rw get-insert_self (none_held s))
    | inr (q, e) ↦ elim (Bool-cases (same_config q.config c)) [
      | inl same ↦ rw (e, create_found) (rw same s)
      | inr other ↦ rw (e, create_found) (rw other s)
    ]
  ]

  delete_queue-OrderAt : (p : Principal) → OrderAt id (delete_queue id p r).1 log
  unfolding delete_queue
  delete_queue-OrderAt p = elim (Option-cases (Map.get id r.queues)) [
    | inl e ↦ rw (e, delete_queue) s
    | inr (q, e) ↦ elim (Bool-cases (q.config.recipient != p)) [
      | inl other ↦ rw (e, delete_queue) (rw other s)
      | inr owner ↦ rw (e, delete_queue) (rw owner (rw get-remove_self (none_held s)))
    ]
  ]

  perform-OrderAt :
      (now : Timestamp) (c : Call)
      → let (reply, r') = perform r (id, now, c) in OrderAt id r' (note c reply log)
  unfolding perform
  perform-OrderAt now (creates c) = create_queue-OrderAt c
  perform-OrderAt now (sends p m payload ttl) = send-OrderAt p m payload now ttl
  perform-OrderAt now (fetches p) = fetch-OrderAt p now
  perform-OrderAt now (acknowledges p m) = acknowledge-OrderAt p m now
  perform-OrderAt now (deletes p) = delete_queue-OrderAt p

event-OrderAt :
    (id j : QueueId) (r : Relay) (log : Log) (now : Timestamp) (c : Call)
    → OrderAt id r log
    → let (reply, r') = perform r (j, now, c) in
      OrderAt id r' (if j == id then note c reply log else log)
event-OrderAt id j r log now c s = elim (Bool-cases (j == id)) [
  | inl here ↦ rw here (rw ((bytes_beq_iff j id).0 here) (perform-OrderAt id r log s now c))
  | inr elsewhere ↦
      let kept : Map.get id (perform r (j, now, c)).1.queues ≡ Map.get id r.queues =
        unfold step in step_elsewhere r j id now c (λ e. ground (arith, bytes_beq_iff j id)) in
      rw elsewhere (rw kept s)
]

observe-OrderAt :
    (id : QueueId) (events : List Event) (r : Relay) (log : Log)
    → OrderAt id r log
    → let (r', log') = observe id (r, log) events in OrderAt id r' log'
unfolding observe
observe-OrderAt id [] r log s = s
observe-OrderAt id ((j, now, c) ∷ events) r log s =
    observe-OrderAt id events (perform r (j, now, c)).1
      (if j == id then note c (perform r (j, now, c)).0 log else log)
      (event-OrderAt id j r log now c s)

-- In any history of a new relay, the identifiers that were acknowledged on a queue, followed by
-- those that it still holds, are a part of those that were accepted, in the order of acceptance:
-- a queue is first in, first out, nothing is acknowledged that was not accepted, and nothing
-- oftener than it was accepted.
pub observe-InOrder :
    (id : QueueId) (events : List Event)
    → let (r, log) = observe id (new, empty_log) events in
      Sublist (log.acknowledged_ids ++ held (Map.get id r.queues)) log.accepted_ids
observe-InOrder id events =
    observe-OrderAt id events new empty_log (unfold Map.get in Sublist.refl [])
