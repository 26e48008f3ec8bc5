-- ===== src/Relay/Calls.antt =====
-- What the calls on a queue come down to, once the queue is found and the caller is checked.
use cofferwire.Base.{
  refl, ◌⊎◌, inl, inr, List, [], ◌∷◌, ◌++◌, find, length, ltb, leb, nat_same, ◌==◌, Option-cases,
  Bool-cases, ℕ, ◌≡◌, ◌≢◌, some, none, arith, true, false, Bytes, Result, ok, err, bytes_same,
  bytes_beq_iff, bytes_eq_refl, ◌!=◌,
}
use cofferwire.Base.Map
use cofferwire.Types.{checked_add, QueueId, Timestamp, Principal, MessageId}
use cofferwire.Policy.{RelayError, unauthorized, queue_not_found}
use cofferwire.Relay.{
  QueuedMessage, new_message, Queue, Relay, put_back, discard_expired, offer, send,
  on_recipient_queue, delete_queue,
}

pub not_same : (a b : Bytes) → a ≢ b → a != b ≡ true
not_same a b h = ground (arith, bytes_beq_iff a b)

pub same_self : (a : Bytes) → a != a ≡ false
same_self a = rw (bytes_eq_refl a)

module _ (id : QueueId) (r : Relay) (missing : Map.get id r.queues ≡ none) where
  pub send_missing :
      (p : Principal) (m : MessageId) (payload : Bytes) (now : Timestamp) (ttl : ℕ)
      → send id p m payload now ttl r ≡ (err queue_not_found, r)
  unfolding send
  send_missing p m payload now ttl = rw (missing, send)

  pub recipient_missing :
      {A : Type 0} (p : Principal) (change : Queue → Result RelayError A × Queue)
      → on_recipient_queue id p change r ≡ (err queue_not_found, r)
  unfolding on_recipient_queue
  recipient_missing p change = rw (missing, on_recipient_queue)

  pub delete_missing : (p : Principal) → delete_queue id p r ≡ (err queue_not_found, r)
  unfolding delete_queue
  delete_missing p = rw (missing, delete_queue)

module _ (id : QueueId) (r : Relay) {q : Queue} (found : Map.get id r.queues ≡ some q) where
  pub send_owner :
      (p : Principal) (m : MessageId) (payload : Bytes) (now : Timestamp) (ttl : ℕ)
      → q.config.sender ≡ p
      → send id p m payload now ttl r
        ≡ put_back id r (offer m payload now ttl (discard_expired now q))
  unfolding send
  send_owner p m payload now ttl e = rw (found, send) (rw e (rw (same_self p)))

  pub send_other :
      (p : Principal) (m : MessageId) (payload : Bytes) (now : Timestamp) (ttl : ℕ)
      → q.config.sender ≢ p
      → send id p m payload now ttl r ≡ (err unauthorized, r)
  unfolding send
  send_other p m payload now ttl e = rw (found, send) (rw (not_same _ _ e))

  pub recipient_owner :
      {A : Type 0} (p : Principal) (change : Queue → Result RelayError A × Queue)
      → q.config.recipient ≡ p
      → on_recipient_queue id p change r ≡ put_back id r (change q)
  unfolding on_recipient_queue
  recipient_owner p change e = rw (found, on_recipient_queue) (rw e (rw (same_self p)))

  pub recipient_other :
      {A : Type 0} (p : Principal) (change : Queue → Result RelayError A × Queue)
      → q.config.recipient ≢ p
      → on_recipient_queue id p change r ≡ (err unauthorized, r)
  unfolding on_recipient_queue
  recipient_other p change e = rw (found, on_recipient_queue) (rw (not_same _ _ e))

  pub delete_owner :
      (p : Principal)
      → q.config.recipient ≡ p
      → delete_queue id p r ≡ (ok tt, record { queues = Map.remove id r.queues })
  unfolding delete_queue
  delete_owner p e = rw (found, delete_queue) (rw e (rw (same_self p)))

  pub delete_other :
      (p : Principal) → q.config.recipient ≢ p → delete_queue id p r ≡ (err unauthorized, r)
  unfolding delete_queue
  delete_other p e = rw (found, delete_queue) (rw (not_same _ _ e))

-- An offer leaves the queue as it is, or adds to its end.
pub offer_cases :
    (m : MessageId) (payload : Bytes) (now : Timestamp) (ttl : ℕ) (q : Queue)
    → ((offer m payload now ttl q).1 ≡ q)
      ⊎ ((added : List QueuedMessage) × ((offer m payload now ttl q).1
            ≡ record q { messages = q.messages ++ added }))
unfolding offer
offer_cases m payload now ttl q =
    elim (Option-cases (find (λ (message : QueuedMessage). message.id == m) q.messages)) [
      | inr (existing, found) ↦ inl (rw (found, offer) (ground arith))
      | inl fresh ↦ elim (Bool-cases (ltb q.config.limits.max_message_bytes (length payload))) [
        | inl large ↦ inl (rw (fresh, offer, large) refl)
        | inr small ↦ elim (Bool-cases (leb q.config.limits.max_messages (length q.messages))) [
          | inl full ↦ inl (rw (fresh, offer, small, full) refl)
          | inr room ↦ elim (Option-cases (checked_add now ttl)) [
            | inl over ↦ inl (rw (fresh, offer, small, room, over) refl)
            | inr (expires, sum) ↦
                inr (new_message m payload expires ∷ [], rw (fresh, offer, small, room, sum) refl)
          ]
        ]
      ]
    ]
