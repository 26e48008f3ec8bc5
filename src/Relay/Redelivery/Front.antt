-- ===== src/Relay/Redelivery/Front.antt =====
-- A delivered message in front of its queue, through the changes of the queue.
use cofferwire.Base.{
  ◌≡◌, ◌<◌, refl, inl, inr, some, arith, ok, err, List, ◌∷◌, ◌++◌, true, false, Bytes, ℕ,
  bytes_same, nat_same, bytes_beq_iff, ◌==◌, ◌!=◌, retain, if◌then◌else◌,
}
use cofferwire.Types.{Timestamp, Principal, MessageId}
use cofferwire.Policy.{Letter, ack_mismatch}
use cofferwire.Relay.Calls.{offer_cases}
use cofferwire.Relay.{
  Queue, QueuedMessage, is_live, to_letter, fetch_from, acknowledge_in, discard_expired, offer,
}

-- The message is in front of the queue, delivered.
pub record Pending (p : Principal) (d : Letter) (q : Queue) : Type 0 where
  pub front : QueuedMessage
  pub rest : List QueuedMessage
  pub owner : q.config.recipient ≡ p
  pub messages : q.messages ≡ front ∷ rest
  pub letter : to_letter front ≡ d
  pub delivered : front.delivered ≡ true

pub Pending-discard :
    (p : Principal) (d : Letter) (q : Queue) (now : Timestamp)
    → now < d.expires_at
    → Pending p d q
    → Pending p d (discard_expired now q)
unfolding discard_expired retain
Pending-discard p d q now live h = record {
  front = h.front;
  rest = retain (is_live now) h.rest;
  owner = h.owner;
  messages =
      let early : is_live now h.front ≡ true = ground (arith, h.letter) in
      rw (h.messages, retain, early) refl;
  letter = h.letter;
  delivered = h.delivered;
}

-- The changes of a queue that are not the acknowledgement.
Pending-append :
    (p : Principal) (d : Letter) (q : Queue) (added : List QueuedMessage)
    → Pending p d q
    → Pending p d (record q { messages = q.messages ++ added })
Pending-append p d q added h = record {
  front = h.front;
  rest = h.rest ++ added;
  owner = h.owner;
  messages = rw h.messages refl;
  letter = h.letter;
  delivered = h.delivered;
}

pub Pending-offer :
    (p : Principal) (d : Letter) (q : Queue) (m : MessageId) (payload : Bytes) (now : Timestamp)
    (ttl : ℕ)
    → Pending p d q
    → Pending p d (offer m payload now ttl q).1
Pending-offer p d q m payload now ttl h = elim (offer_cases m payload now ttl q) [
  | inl kept ↦ rw kept h
  | inr (added, made) ↦ rw made (Pending-append p d q added h)
]

pub Pending-fetch :
    (p : Principal) (d : Letter) (q : Queue) (now : Timestamp)
    → now < d.expires_at
    → Pending p d q
    → ((fetch_from now q).0 ≡ ok (some d)) × Pending p d (fetch_from now q).1
unfolding fetch_from
Pending-fetch p d q now live h =
    let kept = Pending-discard p d q now live h in
    rw kept.messages (
      rw kept.letter refl,
      record {
        front = record kept.front { delivered = true };
        rest = kept.rest;
        owner = h.owner;
        messages = refl;
        letter = kept.letter;
        delivered = refl;
      },
    )

pub Pending-mismatch :
    (p : Principal) (d : Letter) (q : Queue) (m : MessageId) (now : Timestamp)
    → now < d.expires_at
    → m == d.id ≡ false
    → Pending p d q
    → Pending p d (acknowledge_in m now q).1
unfolding acknowledge_in
Pending-mismatch p d q m now live other h =
    let kept = Pending-discard p d q now live h in
    let differs : kept.front.id != m ≡ true =
      ground (arith, kept.letter, other, bytes_beq_iff kept.front.id m, bytes_beq_iff m d.id) in
    rw (kept.messages, differs)
      (record {
        front = kept.front;
        rest = kept.rest;
        owner = h.owner;
        messages = refl;
        letter = kept.letter;
        delivered = kept.delivered;
      })

pub Pending-acknowledge :
    (p : Principal) (d : Letter) (q : Queue) (m : MessageId) (now : Timestamp)
    → now < d.expires_at
    → Pending p d q
    → (acknowledge_in m now q).0 ≡ (if d.id == m then ok tt else err ack_mismatch)
unfolding acknowledge_in
Pending-acknowledge p d q m now live h =
    let kept = Pending-discard p d q now live h in
    let named : kept.front.id ≡ d.id = ground (arith, kept.letter) in
    rw (kept.messages, named, kept.delivered) (ground arith)
