-- ===== src/Relay/Retry/Contents.antt =====
-- A message that a queue holds, in any place, through the changes of the queue.
use cofferwire.Base.{
  ◌≡◌, ◌<◌, refl, ℕ, inl, inr, some, arith, Bool-cases, List, [], ◌∷◌, ◌++◌, true, false, Bytes,
  bytes_same, bytes_beq_iff, nat_same, ◌==◌, ◌!=◌, find, retain,
}
use cofferwire.Types.{Timestamp, Principal, MessageId}
use cofferwire.Policy.{QueueConfig, Letter}
use cofferwire.Relay.Sound.Messages.{has_id}
use cofferwire.Relay.Calls.{offer_cases}
use cofferwire.Relay.Spared.{Kept}
use cofferwire.Relay.{
  Queue, QueuedMessage, is_live, to_letter, offer, fetch_from, acknowledge_in, discard_expired,
  take_front, pop_front,
}

-- The first message with the identifier of a letter has its content.
pub record Contains (d : Letter) (q : Queue) : Type 0 where
  pub message : QueuedMessage
  pub there : find (has_id d.id) q.messages ≡ some message
  pub letter : to_letter message ≡ d

find-retain_live :
    (m : MessageId) (now : Timestamp) (ms : List QueuedMessage) (x : QueuedMessage)
    → find (has_id m) ms ≡ some x
    → is_live now x ≡ true
    → find (has_id m) (retain (is_live now) ms) ≡ some x
unfolding find retain
find-retain_live m now [] x h live = absurd (ground (arith, h))
find-retain_live m now (y ∷ ms) x h live = ground (arith, find-retain_live m now ms x)

find-append_some :
    (m : MessageId) (xs ys : List QueuedMessage) (x : QueuedMessage)
    → find (has_id m) xs ≡ some x
    → find (has_id m) (xs ++ ys) ≡ some x
unfolding find
find-append_some m [] ys x h = absurd (ground (arith, h))
find-append_some m (y ∷ xs) ys x h = ground (arith, find-append_some m xs ys x)

pub Contains-discard :
    (d : Letter) (q : Queue) (now : Timestamp)
    → now < d.expires_at
    → Contains d q
    → Contains d (discard_expired now q)
unfolding discard_expired
Contains-discard d q now early h = record {
  message = h.message;
  there = find-retain_live d.id now q.messages h.message h.there (ground (arith, h.letter));
  letter = h.letter;
}

Contains-take :
    (d : Letter) (config : QueueConfig) (ms : List QueuedMessage)
    → Contains d (record { config = config; messages = ms })
    → Contains d (take_front config ms).1
unfolding find
Contains-take d config [] h = h
Contains-take d config (x ∷ ms) h = elim (Bool-cases (x.id == d.id)) [
  | inl first ↦
      let here : x ≡ h.message = let at = rw first at h.there in ground (arith, at) in
      record {
        message = record x { delivered = true };
        there = rw first refl;
        letter = let same = h.letter in rw (← here) at same;
      }
  | inr later ↦ record {
    message = h.message;
    there = rw later (rw later at h.there);
    letter = h.letter;
  }
]

Contains-pop :
    (d : Letter) (m : MessageId) (config : QueueConfig) (ms : List QueuedMessage)
    → m == d.id ≡ false
    → Contains d (record { config = config; messages = ms })
    → Contains d (pop_front m config ms).1
unfolding find
Contains-pop d m config [] other h = h
Contains-pop d m config (x ∷ ms) other h = elim (Bool-cases (x.id != m)) [
  | inl differs ↦ rw differs h
  | inr same ↦ elim (Bool-cases x.delivered) [
    | inr fresh ↦ simp (same, fresh) h
    | inl delivered ↦
        let past : x.id == d.id ≡ false = ground (
          arith,
          same,
          other,
          bytes_beq_iff x.id m,
          bytes_beq_iff x.id d.id,
          bytes_beq_iff m d.id,
        ) in
        rw (same, delivered)
          (record { message = h.message; there = rw past at h.there; letter = h.letter })
  ]
]

-- The queue of a sender and a recipient, with the message.
pub record Listed (s p : Principal) (d : Letter) (q : Queue) : Type 0 where
  pub sender : q.config.sender ≡ s
  pub recipient : q.config.recipient ≡ p
  pub contains : Contains d q

Listed-offer :
    (s p : Principal) (d : Letter) (q : Queue) (m : MessageId) (payload : Bytes) (now : Timestamp)
    (ttl : ℕ)
    → Listed s p d q
    → Listed s p d (offer m payload now ttl q).1
Listed-offer s p d q m payload now ttl h = elim (offer_cases m payload now ttl q) [
  | inl kept ↦ rw kept h
  | inr (added, made) ↦ rw made (record {
    sender = h.sender;
    recipient = h.recipient;
    contains = record {
      message = h.contains.message;
      there = find-append_some d.id q.messages added h.contains.message h.contains.there;
      letter = h.contains.letter;
    };
  })
]

take_front-config :
    (config : QueueConfig) (ms : List QueuedMessage) → (take_front config ms).1.config ≡ config
take_front-config config [] = refl
take_front-config config (x ∷ ms) = refl

pop_front-config :
    (m : MessageId) (config : QueueConfig) (ms : List QueuedMessage)
    → (pop_front m config ms).1.config ≡ config
pop_front-config m config [] = refl
pop_front-config m config (x ∷ ms) = ground arith

pub Listed-Kept : (s p : Principal) (d : Letter) → Kept p d (Listed s p d)
unfolding fetch_from acknowledge_in discard_expired
Listed-Kept s p d = record {
  owner = λ q h. h.recipient;
  kept_offer = λ m payload now ttl q early h.
      Listed-offer s p d (discard_expired now q) m payload now ttl (record {
        sender = h.sender;
        recipient = h.recipient;
        contains = Contains-discard d q now early h.contains;
      });
  kept_fetch = λ now q early h. record {
    sender = rw (take_front-config q.config (retain (is_live now) q.messages)) h.sender;
    recipient = rw (take_front-config q.config (retain (is_live now) q.messages)) h.recipient;
    contains =
        Contains-take d q.config (retain (is_live now) q.messages)
          (Contains-discard d q now early h.contains);
  };
  kept_ack = λ m now q early other h. record {
    sender = rw (pop_front-config m q.config (retain (is_live now) q.messages)) h.sender;
    recipient = rw (pop_front-config m q.config (retain (is_live now) q.messages)) h.recipient;
    contains =
        Contains-pop d m q.config (retain (is_live now) q.messages) other
          (Contains-discard d q now early h.contains);
  };
}
