-- ===== src/Relay/Retry.antt =====
-- Sending is idempotent: a retry of an accepted message.
mod Contents
use cofferwire.Base.{
  Each, true, ℕ, ◌≡◌, ◌<◌, ◌+◌, ◌++◌, refl, inl, inr, none, some, arith, Bytes, Option-cases,
  Bool-cases, ok, err, ap, if◌then◌else◌, List, [], ◌∷◌, bytes_same, bytes_beq_iff, bytes_eq_refl,
  ◌==◌, find, Bool, ◌∙◌,
}
use cofferwire.Base.Map
use cofferwire.Base.Map.{get-insert}
use cofferwire.Types.{QueueId, Timestamp, Principal, MessageId}
use cofferwire.Policy.{Letter, accepted, duplicate, message_id_conflict}
use cofferwire.Relay.Sound.Messages.{has_id}
use cofferwire.Relay.Calls.{send_owner}
use cofferwire.Relay.Run.{Event, run}
use cofferwire.Relay.Spared.{spares, Holds-run}
use cofferwire.Relay.Retry.Contents.{Contains, Contains-discard, Listed, Listed-Kept}
use cofferwire.Relay.{
  put_back, Queue, Relay, QueuedMessage, send, offer, discard_expired, new_message,
}

find-append :
    (p : QueuedMessage → Bool) (xs ys : List QueuedMessage)
    → find p xs ≡ none
    → find p (xs ++ ys) ≡ find p ys
unfolding find
find-append p [] ys h = refl
find-append p (x ∷ xs) ys h = ground (arith, find-append p xs ys)

-- What an accepted offer has done to the queue.
offer-accepted :
    (m : MessageId) (payload : Bytes) (now : Timestamp) (ttl : ℕ) (q : Queue)
    → (offer m payload now ttl q).0 ≡ ok accepted
    → (find (has_id m) q.messages ≡ none)
      × ((offer m payload now ttl q).1
          ≡ record q { messages = q.messages ++ new_message m payload (now + ttl) ∷ [] })
unfolding offer
offer-accepted m payload now ttl q h = ground arith

find_new :
    (m : MessageId) (payload : Bytes) (expires : Timestamp) (ms : List QueuedMessage)
    → find (has_id m) ms ≡ none
    → find (has_id m) (ms ++ new_message m payload expires ∷ [])
      ≡ some (new_message m payload expires)
unfolding find
find_new m payload expires ms h =
    find-append (has_id m) ms (new_message m payload expires ∷ []) h ∙ rw (bytes_eq_refl m) refl

-- A second offer of a message that is still there.
offer_again :
    (d : Letter) (payload : Bytes) (now : Timestamp) (ttl : ℕ) (q : Queue)
    → Contains d q
    → offer d.id payload now ttl q
      ≡ (if d.payload == payload then ok duplicate else err message_id_conflict, q)
unfolding offer
offer_again d payload now ttl q h =
    let same : h.message.payload ≡ d.payload = ground (arith, h.letter) in
    rw (h.there, offer, same) (ground arith)

-- What an accepted send has done to the relay.
send-accepted :
    (id : QueueId) (p : Principal) (m : MessageId) (payload : Bytes) (now : Timestamp) (ttl : ℕ)
    (r : Relay)
    → (send id p m payload now ttl r).0 ≡ ok accepted
    → (q : Queue) × (q.config.sender ≡ p)
      × (find (has_id m) q.messages ≡ none)
      × ((send id p m payload now ttl r).1 ≡ record {
        queues =
            Map.insert id
              (record q { messages = q.messages ++ new_message m payload (now + ttl) ∷ [] })
              r.queues;
      })
unfolding send discard_expired
send-accepted id p m payload now ttl r h = elim (Option-cases (Map.get id r.queues)) [
  | inl e ↦ absurd (ground arith)
  | inr (q, e) ↦ elim (Bool-cases (q.config.sender == p)) [
    | inl owner ↦
        let same : q.config.sender ≡ p = (bytes_beq_iff q.config.sender p).0 owner in
        let now_at = send_owner id r e p m payload now ttl same in
        let (fresh, after) =
          offer-accepted m payload now ttl (discard_expired now q) (rw now_at at h) in
        (
          discard_expired now q,
          same,
          fresh,
          rw now_at (ap (λ (x : Queue). record { queues = Map.insert id x r.queues }) after),
        )
    | inr other ↦ absurd (ground arith)
  ]
]

-- After a send was accepted, and whatever calls follow, on this queue or others, as long as each comes
-- before the expiry of the message and none is its acknowledgement or the deletion of the queue by the
-- recipient, the queue is there, and a send by the same sender of the same identifier before that
-- expiry is answered `duplicate` for the same payload and `message_id_conflict` for any other; it
-- changes nothing but that it drops the expired messages, so no message is added and the expiry stays.
pub send_retry :
    (id : QueueId) (s p : Principal) (m : MessageId) (payload payload' : Bytes)
    (now later : Timestamp) (ttl ttl' : ℕ) (r : Relay) (q₀ : Queue) (events : List Event)
    → (send id s m payload now ttl r).0 ≡ ok accepted
    → Map.get id (send id s m payload now ttl r).1.queues ≡ some q₀
    → q₀.config.recipient ≡ p
    → Each
        (λ e. spares id p (record { id = m; payload = payload; expires_at = now + ttl }) e ≡ true)
        events
    → later < now + ttl
    → (q : Queue) × (Map.get id (run (send id s m payload now ttl r).1 events).queues ≡ some q)
      × (send id s m payload' later ttl' (run (send id s m payload now ttl r).1 events) ≡ (
        if payload == payload' then ok duplicate else err message_id_conflict,
        record {
          queues =
              Map.insert id
                (discard_expired later q)
                (run (send id s m payload now ttl r).1 events).queues;
        },
      ))
send_retry id s p m payload payload' now later ttl ttl' r q₀ events h found recipient spared live =
    let d : Letter = record { id = m; payload = payload; expires_at = now + ttl } in
    let (q₁, same, fresh, after) = send-accepted id s m payload now ttl r h in
    let here : q₀ ≡ record q₁ { messages = q₁.messages ++ new_message m payload (now + ttl) ∷ [] } =
      ground (
        arith,
        found,
        after,
        get-insert id id
            (record q₁ { messages = q₁.messages ++ new_message m payload (now + ttl) ∷ [] })
            r.queues,
        bytes_eq_refl id,
      ) in
    let sent : Contains d q₀ = rw here (record {
      message = new_message m payload (now + ttl);
      there = find_new m payload (now + ttl) q₁.messages fresh;
      letter = refl;
    }) in
    let w =
      Holds-run id p d (Listed s p d) (Listed-Kept s p d) events (send id s m payload now ttl r).1
        spared
        (record {
          queue = q₀;
          found = found;
          holds = record { sender = rw here same; recipient = recipient; contains = sent };
        }) in
    (
      w.queue,
      w.found,
      rw
          (send_owner id (run (send id s m payload now ttl r).1 events) w.found s m payload' later
            ttl' w.holds.sender)
          (ap (put_back id (run (send id s m payload now ttl r).1 events)) (
            offer_again d payload' later ttl' (discard_expired later w.queue)
              (Contains-discard d w.queue later live w.holds.contains))),
    )
