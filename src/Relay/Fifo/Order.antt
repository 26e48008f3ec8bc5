-- ===== src/Relay/Fifo/Order.antt =====
-- The log of one queue, and how each operation of a queue keeps it in order.
use mathlib.Core.List.{Sublist, append_assoc, map-append}
use mathlib.Core.List.Sublist
use cofferwire.Base.{
  ℕ, ◌≡◌, ◌++◌, refl, inl, inr, none, some, Option, arith, Bool-cases, ok, Result, List, [], ◌∷◌,
  ◌+◌, sym, Bool, Bytes, map, bytes_same, bytes_beq_iff, ◌==◌, retain, if◌then◌else◌,
}
use cofferwire.Types.{QueueId, Timestamp, Principal, MessageId}
use cofferwire.Policy.{QueueConfig, RelayError, SendOutcome, accepted}
use cofferwire.Relay.Run.{
  Event, Call, Reply, map_ok, sends, acknowledges, send_reply, ack_reply, perform,
}
use cofferwire.Relay.{pop_front, take_front, new_message, Queue, Relay, QueuedMessage, offer}

-- The identifiers that were accepted and acknowledged on one queue, oldest first.
pub record Log : Type 0 where
  pub accepted_ids : List MessageId
  pub acknowledged_ids : List MessageId

abbrev pub empty_log : Log
empty_log = record { accepted_ids = []; acknowledged_ids = [] }

-- What the answer to a call adds to the log.
abbrev pub note : Call → Result RelayError Reply → Log → Log
note (sends p m payload ttl) (ok (send_reply accepted)) log = record log {
  accepted_ids = log.accepted_ids ++ m ∷ [];
}
note (acknowledges p m) (ok ack_reply) log = record log {
  acknowledged_ids = log.acknowledged_ids ++ m ∷ [];
}
note _ _ log = log

-- The calls of a history, with the log of one queue.
unfoldable pub observe : QueueId → Relay × Log → List Event → Relay × Log
unfolding perform
observe id (r, log) [] = (r, log)
observe id (r, log) ((j, now, c) ∷ events) =
    let (reply, r') = perform r (j, now, c) in
    observe id (r', if j == id then note c reply log else log) events

abbrev pub ids : List QueuedMessage → List MessageId
ids = map (λ m. m.id)

-- The identifiers that a queue holds; a missing queue holds none.
abbrev pub held : Option Queue → List MessageId
held none = []
held (some q) = ids q.messages

pub ids-retain :
    (p : QueuedMessage → Bool) (ms : List QueuedMessage) → Sublist (ids (retain p ms)) (ids ms)
unfolding retain
ids-retain p [] = Sublist.refl []
ids-retain p (m ∷ ms) = elim (Bool-cases (p m)) [
  | inl keep ↦ rw keep (Sublist.cons-cons m.id (ids-retain p ms))
  | inr drop ↦ rw drop (Sublist.cons m.id (ids-retain p ms))
]

-- What is acknowledged, then what is held, is a part of what was accepted, in its order.
abbrev pub InOrder : Log → List MessageId → Type 0
InOrder log xs = Sublist (log.acknowledged_ids ++ xs) log.accepted_ids

pub InOrder-shrink :
    (log : Log) {xs ys : List MessageId} → Sublist xs ys → InOrder log ys → InOrder log xs
InOrder-shrink log h s = Sublist.trans (Sublist.append (Sublist.refl log.acknowledged_ids) h) s

pub InOrder-accept :
    (log : Log) (xs : List MessageId) (m : MessageId)
    → InOrder log xs
    → InOrder (record log { accepted_ids = log.accepted_ids ++ m ∷ [] }) (xs ++ m ∷ [])
InOrder-accept log xs m s =
    rw (← append_assoc log.acknowledged_ids xs (m ∷ [])) (Sublist.append s (Sublist.refl (m ∷ [])))

pub InOrder-acknowledge :
    (log : Log) (xs : List MessageId) (m : MessageId)
    → InOrder log (m ∷ xs)
    → InOrder (record log { acknowledged_ids = log.acknowledged_ids ++ m ∷ [] }) xs
InOrder-acknowledge log xs m s = rw (append_assoc log.acknowledged_ids (m ∷ []) xs) s

-- The effect of an offer on the identifiers.
abbrev pub after_offer : MessageId → Result RelayError SendOutcome → List MessageId → List MessageId
after_offer m (ok accepted) xs = xs ++ m ∷ []
after_offer m _ xs = xs

ids-snoc : (ms : List QueuedMessage) (m : QueuedMessage) → ids (ms ++ m ∷ []) ≡ ids ms ++ m.id ∷ []
ids-snoc ms m = map-append (λ (x : QueuedMessage). x.id) ms (m ∷ [])

pub ids-offer :
    (m : MessageId) (payload : Bytes) (now : Timestamp) (ttl : ℕ) (q : Queue)
    → ids (offer m payload now ttl q).1.messages
      ≡ after_offer m (offer m payload now ttl q).0 (ids q.messages)
unfolding offer
ids-offer m payload now ttl q =
    ground (arith, ids-snoc q.messages (new_message m payload (now + ttl)))

pub InOrder-after_offer :
    (log : Log) (p : Principal) (m : MessageId) (payload : Bytes) (ttl : ℕ)
    (r : Result RelayError SendOutcome) (xs : List MessageId)
    → InOrder log xs
    → InOrder (note (sends p m payload ttl) (map_ok send_reply r) log) (after_offer m r xs)
InOrder-after_offer log p m payload ttl (ok accepted) xs s = InOrder-accept log xs m s
InOrder-after_offer log p m payload ttl _ xs s = s

pub take_front-ids :
    (c : QueueConfig) (ms : List QueuedMessage) → ids (take_front c ms).1.messages ≡ ids ms
take_front-ids c [] = refl
take_front-ids c (m ∷ ms) = refl

pub InOrder-pop_front :
    (log : Log) (p : Principal) (m : MessageId) (c : QueueConfig) (ms : List QueuedMessage)
    → InOrder log (ids ms)
    → InOrder
        (note (acknowledges p m) (map_ok (λ _. ack_reply) (pop_front m c ms).0) log)
        (ids (pop_front m c ms).1.messages)
InOrder-pop_front log p m c [] s = s
InOrder-pop_front log p m c (x ∷ ms) s = elim (Bool-cases (x.id == m)) [
  | inr other ↦ rw other s
  | inl same ↦ elim (Bool-cases x.delivered) [
    | inl seen ↦
        rw same (
          rw seen (InOrder-acknowledge log (ids ms) m (rw (sym ((bytes_beq_iff x.id m).0 same)) s)))
    | inr unseen ↦ rw same (rw unseen s)
  ]
]
