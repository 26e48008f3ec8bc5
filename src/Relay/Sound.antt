-- ===== src/Relay/Sound.antt =====
-- The well-formedness of a queue, kept by every call of the relay.
pub mod Messages
use Messages.{
  Distinct, Waiting, HeadOnly, Distinct-retain, Distinct-snoc, HeadOnly-retain, HeadOnly-snoc,
  Waiting-HeadOnly, has_id,
}
use cofferwire.Base.{
  ◌++◌, false, ◌+◌, ℕ, ◌≤◌, ◌<◌, ◌≡◌, inl, inr, none, some, List, [], ◌∷◌, Each, arith, Bytes,
  Comparable, bytes_beq_iff, length, length-append, length-retain-le, Each-retain, Each-append,
  Option-cases, retain, true, find, bytes_same, ◌==◌,
}
use cofferwire.Base.Map
use cofferwire.Base.Map.{get-insert, get-remove}
use cofferwire.Types.{QueueId, Timestamp, Principal, MessageId, u64_mod}
use cofferwire.Relay.Keeps.{run-new_keeps}
use cofferwire.Policy.{QueueConfig, RelayError, same_config}
use cofferwire.Relay.Run.{Event, Call, creates, sends, fetches, acknowledges, deletes, step, run}
use cofferwire.Relay.{
  QueuedMessage, Queue, Relay, take_front, pop_front, create_found, new, is_live, discard_expired,
  create_queue, offer, send, on_recipient_queue, fetch_from, fetch, acknowledge_in, acknowledge,
  delete_queue,
}

-- A stored message respects the limits of its queue.
abbrev pub Fits : QueueConfig → QueuedMessage → Type 0
Fits config m = (length m.payload ≤ config.limits.max_message_bytes) × (m.expires_at < u64_mod)

pub record IsSound (q : Queue) : Type 0 where
  pub room : length q.messages ≤ q.config.limits.max_messages
  pub fits : Each (Fits q.config) q.messages
  pub distinct : Distinct q.messages
  pub head_only : HeadOnly q.messages

pub discard_expired-IsSound :
    (now : Timestamp) (q : Queue) → IsSound q → IsSound (discard_expired now q)
unfolding discard_expired
discard_expired-IsSound now q s = record {
  room = omega (arith, length-retain-le (is_live now) q.messages, s.room);
  fits = Each-retain (Fits q.config) (is_live now) q.messages s.fits;
  distinct = Distinct-retain (is_live now) q.messages s.distinct;
  head_only = HeadOnly-retain (is_live now) q.messages s.head_only;
}

-- A message that fits joins a queue with room for it.
push-IsSound :
    (q : Queue) (m : QueuedMessage)
    → IsSound q
    → Fits q.config m
    → length q.messages < q.config.limits.max_messages
    → find (has_id m.id) q.messages ≡ none
    → m.delivered ≡ false
    → IsSound (record q { messages = q.messages ++ m ∷ [] })
push-IsSound q m s fits room new_id waiting = record {
  room = omega (arith, length-append q.messages (m ∷ []));
  fits = Each-append (Fits q.config) q.messages (m ∷ []) s.fits (fits, tt);
  distinct = Distinct-snoc q.messages m s.distinct new_id;
  head_only = HeadOnly-snoc q.messages m s.head_only waiting;
}

abbrev message_at : MessageId → Bytes → Timestamp → ℕ → QueuedMessage
message_at id payload now ttl = record {
  id = id;
  payload = payload;
  expires_at = now + ttl;
  delivered = false;
}

pub offer-IsSound :
    (message_id : MessageId) (payload : Bytes) (now : Timestamp) (ttl : ℕ) (q : Queue)
    → IsSound q
    → IsSound (offer message_id payload now ttl q).1
unfolding offer
offer-IsSound message_id payload now ttl q s =
    ground (arith, push-IsSound q (message_at message_id payload now ttl) s)

take_front-IsSound :
    (c : QueueConfig) (ms : List QueuedMessage)
    → IsSound (record { config = c; messages = ms })
    → IsSound (take_front c ms).1
take_front-IsSound c [] s = s
take_front-IsSound c (m ∷ ms) s = record {
  room = s.room;
  fits = s.fits;
  distinct = s.distinct;
  head_only = s.head_only;
}

pub fetch_from-IsSound : (now : Timestamp) (q : Queue) → IsSound q → IsSound (fetch_from now q).1
unfolding fetch_from
fetch_from-IsSound now q s = take_front-IsSound q.config _ (discard_expired-IsSound now q s)

pop_front-IsSound :
    (id : MessageId) (c : QueueConfig) (ms : List QueuedMessage)
    → IsSound (record { config = c; messages = ms })
    → IsSound (pop_front id c ms).1
pop_front-IsSound id c [] s = s
pop_front-IsSound id c (m ∷ ms) s = ground (arith, Waiting-HeadOnly ms, tail)
  where
    tail : IsSound (record { config = c; messages = ms })
    tail = record {
      room = omega (arith, s.room);
      fits = s.fits.1;
      distinct = s.distinct.1;
      head_only = Waiting-HeadOnly ms s.head_only;
    }

pub acknowledge_in-IsSound :
    (id : MessageId) (now : Timestamp) (q : Queue) → IsSound q → IsSound (acknowledge_in id now q).1
unfolding acknowledge_in
acknowledge_in-IsSound id now q s =
    pop_front-IsSound id q.config _ (discard_expired-IsSound now q s)

-- Whatever the calls on a new relay, every queue has room for its messages, none of them larger
-- than the limit and all with expiry times of 64 bits, no identifier occurs twice, and only the
-- first message may have been delivered.
pub run-IsSound :
    (calls : List (Event)) (id : QueueId) (q : Queue)
    → Map.get id (run new calls).queues ≡ some q
    → IsSound q
run-IsSound calls id q =
    run-new_keeps IsSound
      (λ c. record { room = omega arith; fits = tt; distinct = tt; head_only = tt })
      (λ m p now ttl x s. offer-IsSound m p now ttl _ (discard_expired-IsSound now x s))
      fetch_from-IsSound acknowledge_in-IsSound calls id q
