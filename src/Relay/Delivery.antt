-- ===== src/Relay/Delivery.antt =====
-- Fetching and acknowledging: what is delivered, and never past the expiry.
use cofferwire.Base.{
  ◌≡◌, ◌<◌, refl, inl, inr, none, some, arith, Option-cases, Bool-cases, ok, List, [], ◌∷◌, true,
  Bool, bytes_same, bytes_beq_iff, bytes_eq_refl, ◌==◌, find, retain,
}
use cofferwire.Base.Map
use cofferwire.Base.Map.{get-insert}
use cofferwire.Types.{QueueId, Timestamp, Principal, MessageId}
use cofferwire.Policy.{QueueConfig, Letter}
use cofferwire.Relay.Keeps.{Everywhere}
use cofferwire.Relay.Sound.{IsSound}
use cofferwire.Relay.Sound.Messages.{Distinct, Distinct-retain, has_id}
use cofferwire.Relay.Calls.{recipient_owner}
use cofferwire.Relay.{
  Queue, Relay, QueuedMessage, is_live, to_letter, fetch, acknowledge, fetch_from, acknowledge_in,
  discard_expired, put_back, take_front, pop_front,
}

-- What a fetch that finds a message has done to the relay.
pub record Fetched (id : QueueId) (p : Principal) (now : Timestamp) (r : Relay) (d : Letter)
    : Type 0 where
  pub queue : Queue
  pub front : QueuedMessage
  pub rest : List QueuedMessage
  pub found : Map.get id r.queues ≡ some queue
  pub owner : queue.config.recipient ≡ p
  pub current : retain (is_live now) queue.messages ≡ front ∷ rest
  pub letter : to_letter front ≡ d
  pub left : (fetch id p now r).1 ≡ record {
    queues =
        Map.insert id
          (record { config = queue.config; messages = record front { delivered = true } ∷ rest })
          r.queues;
  }

take_front-some :
    (q : Queue) (ms : List QueuedMessage) (d : Letter)
    → (take_front q.config ms).0 ≡ ok (some d)
    → (m : QueuedMessage) × (rest : List QueuedMessage) × (ms ≡ m ∷ rest) × (to_letter m ≡ d)
take_front-some q [] d h = absurd (ground arith)
take_front-some q (m ∷ rest) d h = (m, rest, refl, ground arith)

pub fetch-Fetched :
    (id : QueueId) (p : Principal) (now : Timestamp) (r : Relay) (d : Letter)
    → (fetch id p now r).0 ≡ ok (some d)
    → Fetched id p now r d
unfolding fetch discard_expired
fetch-Fetched id p now r d h = elim (Option-cases (Map.get id r.queues)) [
  | inl e ↦ absurd (ground arith)
  | inr (q, e) ↦ elim (Bool-cases (q.config.recipient == p)) [
    | inl owner ↦
        let same : q.config.recipient ≡ p = (bytes_beq_iff q.config.recipient p).0 owner in
        let now_at = recipient_owner id r e p (fetch_from now) same in
        let (m, rest, current, letter) =
          take_front-some q (retain (is_live now) q.messages) d (rw now_at at h) in
        record {
          queue = q;
          front = m;
          rest = rest;
          found = e;
          owner = same;
          current = current;
          letter = letter;
          left = rw now_at (rw current);
        }
    | inr other ↦ absurd (ground arith)
  ]
]

retain-head :
    (p : QueuedMessage → Bool) (ms : List QueuedMessage) (m : QueuedMessage)
    (rest : List QueuedMessage)
    → retain p ms ≡ m ∷ rest
    → p m ≡ true
unfolding retain
retain-head p [] m rest h = absurd (ground arith)
retain-head p (x ∷ ms) m rest h = ground (arith, retain-head p ms m rest)

-- A message is never delivered at or after its expiry.
pub fetch_unexpired :
    (id : QueueId) (p : Principal) (now : Timestamp) (r : Relay) (d : Letter)
    → (fetch id p now r).0 ≡ ok (some d)
    → now < d.expires_at
fetch_unexpired id p now r d h =
    let f = fetch-Fetched id p now r d h in
    let live = retain-head (is_live now) f.queue.messages f.front f.rest f.current in
    ground (arith, f.letter, live)

-- The queue that a fetch has left, its first message marked.
abbrev marked :
    {id : QueueId} {p : Principal} {now : Timestamp} {r : Relay} {d : Letter}
    → Fetched id p now r d
    → Queue
marked f = record {
  config = f.queue.config;
  messages = record f.front { delivered = true } ∷ f.rest;
}

module _ (id : QueueId) (p : Principal) (now later : Timestamp) (r : Relay) (d : Letter) where
  get-marked : (f : Fetched id p now r d) → Map.get id (fetch id p now r).1.queues ≡ some (marked f)
  get-marked f = ground (arith, f.left, get-insert id id (marked f) r.queues, bytes_eq_refl id)

  -- A fetched message is fetched again, the same, by a next fetch that comes before its expiry.
  pub fetch_again :
      (fetch id p now r).0 ≡ ok (some d)
      → later < d.expires_at
      → (fetch id p later (fetch id p now r).1).0 ≡ ok (some d)
  fetch_again h live =
      let f = fetch-Fetched id p now r d h in
      rw (fetch_owner (fetch id p now r).1 (get-marked f) f.owner) (take_marked f live)
    where
      fetch_owner :
          (s : Relay) {q : Queue}
          → Map.get id s.queues ≡ some q
          → q.config.recipient ≡ p
          → fetch id p later s ≡ put_back id s (fetch_from later q)
      fetch_owner s e o = unfold fetch in recipient_owner id s e p (fetch_from later) o

      take_marked :
          (f : Fetched id p now r d)
          → later < d.expires_at
          → (fetch_from later (marked f)).0 ≡ ok (some d)
      take_marked f l = unfold fetch_from retain in ground (arith, f.letter)

pop_front-ok :
    (m : MessageId) (config : QueueConfig) (ms : List QueuedMessage)
    → Distinct ms
    → (pop_front m config ms).0 ≡ ok tt
    → find (has_id m) (pop_front m config ms).1.messages ≡ none
pop_front-ok m config [] d h = absurd (ground arith)
pop_front-ok m config (x ∷ rest) d h = ground (arith, d.0, bytes_beq_iff x.id m)

-- In a relay whose queues are sound, an acknowledgement that succeeds leaves no message with the
-- acknowledged identifier in the queue.
pub acknowledge_removes :
    (id : QueueId) (p : Principal) (m : MessageId) (now : Timestamp) (r : Relay) (q : Queue)
    → Everywhere IsSound r
    → (acknowledge id p m now r).0 ≡ ok tt
    → Map.get id (acknowledge id p m now r).1.queues ≡ some q
    → find (has_id m) q.messages ≡ none
unfolding acknowledge acknowledge_in discard_expired
acknowledge_removes id p m now r q s h found = elim (Option-cases (Map.get id r.queues)) [
  | inl e ↦ absurd (ground arith)
  | inr (q₀, e) ↦ elim (Bool-cases (q₀.config.recipient == p)) [
    | inl owner ↦
        let now_at =
          recipient_owner id r e p (acknowledge_in m now)
            ((bytes_beq_iff q₀.config.recipient p).0 owner) in
        let gone =
          pop_front-ok m q₀.config (retain (is_live now) q₀.messages)
            (Distinct-retain (is_live now) q₀.messages (s.at id q₀ e).distinct) (rw now_at at h) in
        let here : q ≡ (acknowledge_in m now q₀).1 = ground (
          arith,
          now_at,
          get-insert id id (acknowledge_in m now q₀).1 r.queues,
          bytes_eq_refl id,
        ) in
        rw here gone
    | inr other ↦ absurd (ground arith)
  ]
]
