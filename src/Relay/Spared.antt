-- ===== src/Relay/Spared.antt =====
-- A property of a queue through calls that do not take a message out of it.
use cofferwire.Base.{
  ◌≡◌, sym, ◌∙◌, ◌<◌, inl, inr, some, arith, Bool-cases, List, [], ◌∷◌, true, false, Bool, not,
  ◌&&◌, Bytes, ℕ, Each, bytes_same, bytes_beq_iff, ltb, ◌==◌, Result,
}
use cofferwire.Base.Map
use cofferwire.Base.Map.{get-insert_self}
use cofferwire.Types.{QueueId, Timestamp, Principal, MessageId}
use cofferwire.Policy.{QueueConfig, same_config, Letter, RelayError}
use cofferwire.Relay.{
  Queue, Relay, fetch, acknowledge, fetch_from, acknowledge_in, discard_expired, put_back,
  create_queue, delete_queue, offer, send, on_recipient_queue,
}
use cofferwire.Relay.Access.{step_elsewhere}
use cofferwire.Relay.Calls.{recipient_owner, recipient_other, send_owner, send_other, delete_other}
use cofferwire.Relay.Run.{Call, Event, creates, sends, fetches, acknowledges, deletes, step, run}

-- Whether a call on the queue takes the message out: its acknowledgement, or the deletion.
abbrev pub removes : Principal → Letter → Call → Bool
removes p d (acknowledges who m) = who == p && m == d.id
removes p d (deletes who) = who == p
removes p d _ = false

-- A call that comes before the expiry and does not take the message out.
abbrev pub spares : QueueId → Principal → Letter → Event → Bool
spares id p d (other, now, call) = ltb now d.expires_at && not (other == id && removes p d call)

-- A predicate on the queue of a recipient that the changes of a queue keep, before the expiry of a
-- letter and but for its acknowledgement.
pub record Kept (p : Principal) (d : Letter) (P : Queue → Type 0) : Type 0 where
  pub owner : (q : Queue) → P q → q.config.recipient ≡ p
  pub kept_offer :
      (m : MessageId) (payload : Bytes) (now : Timestamp) (ttl : ℕ) (q : Queue)
      → now < d.expires_at
      → P q
      → P (offer m payload now ttl (discard_expired now q)).1
  pub kept_fetch : (now : Timestamp) (q : Queue) → now < d.expires_at → P q → P (fetch_from now q).1
  pub kept_ack :
      (m : MessageId) (now : Timestamp) (q : Queue)
      → now < d.expires_at
      → m == d.id ≡ false
      → P q
      → P (acknowledge_in m now q).1

-- The queue is there, with the predicate.
pub record Holds (id : QueueId) (P : Queue → Type 0) (r : Relay) : Type 0 where
  pub queue : Queue
  pub found : Map.get id r.queues ≡ some queue
  pub holds : P queue

module _ (id : QueueId) (p : Principal) (d : Letter) (P : Queue → Type 0) (k : Kept p d P) where
  Holds-put_back :
      {A : Type 0} (r : Relay) (changed : Result RelayError A × Queue)
      → P changed.1
      → Holds id P (put_back id r changed).1
  Holds-put_back r (result, q) h = record {
    queue = q;
    found = get-insert_self id q r.queues;
    holds = h;
  }

  Holds-recipient :
      {A : Type 0} (r : Relay) (who : Principal) (change : Queue → Result RelayError A × Queue)
      → (w : Holds id P r) → (who ≡ p → P (change w.queue).1)
      → Holds id P (on_recipient_queue id who change r).1
  Holds-recipient r who change w keeps = elim (Bool-cases (who == p)) [
    | inl same ↦
        let named : who ≡ p = (bytes_beq_iff who p).0 same in
        rw (recipient_owner id r w.found who change (k.owner w.queue w.holds ∙ sym named))
          (Holds-put_back r (change w.queue) (keeps named))
    | inr other ↦
        rw
          (recipient_other id r w.found who change
            (λ named. ground (arith, named, other, k.owner w.queue w.holds, bytes_beq_iff who p)))
          w
  ]

  Holds-send :
      (r : Relay) (who : Principal) (m : MessageId) (payload : Bytes) (now : Timestamp) (ttl : ℕ)
      → now < d.expires_at
      → Holds id P r
      → Holds id P (send id who m payload now ttl r).1
  Holds-send r who m payload now ttl live w = elim (Bool-cases (w.queue.config.sender == who)) [
    | inl same ↦ rw (send_owner id r w.found who m payload now ttl ((bytes_beq_iff _ who).0 same)) (
        Holds-put_back r (offer m payload now ttl (discard_expired now w.queue))
          (k.kept_offer m payload now ttl w.queue live w.holds))
    | inr other ↦
        rw
          (send_other id r w.found who m payload now ttl
            (λ named. ground (arith, named, other, bytes_beq_iff w.queue.config.sender who)))
          w
  ]

  Holds-create :
      (r : Relay) (config : QueueConfig) → Holds id P r → Holds id P (create_queue id config r).1
  unfolding create_queue
  Holds-create r config w = elim (Bool-cases (same_config w.queue.config config)) [
    | inl same ↦ rw (w.found, same) w
    | inr other ↦ rw (w.found, other) w
  ]

  Holds-delete :
      (r : Relay) (who : Principal)
      → who == p ≡ false
      → Holds id P r
      → Holds id P (delete_queue id who r).1
  Holds-delete r who other w =
      rw
        (delete_other id r w.found who
          (λ named. ground (arith, named, other, k.owner w.queue w.holds, bytes_beq_iff who p)))
        w

  Holds-call :
      (r : Relay) (now : Timestamp) (c : Call)
      → now < d.expires_at
      → removes p d c ≡ false
      → Holds id P r
      → Holds id P (step r (id, now, c))
  unfolding step fetch acknowledge
  Holds-call r now (creates config) live safe w = Holds-create r config w
  Holds-call r now (sends who m payload ttl) live safe w = Holds-send r who m payload now ttl live w
  Holds-call r now (fetches who) live safe w =
      Holds-recipient r who (fetch_from now) w (λ _. k.kept_fetch now w.queue live w.holds)
  Holds-call r now (acknowledges who m) live safe w =
      Holds-recipient r who (acknowledge_in m now) w (λ named.
        k.kept_ack m now w.queue live (ground (arith, named, safe, bytes_beq_iff who p)) w.holds)
  Holds-call r now (deletes who) live safe w = Holds-delete r who safe w

  Holds-step :
      (r : Relay) (e : Event) → spares id p d e ≡ true → Holds id P r → Holds id P (step r e)
  Holds-step r (other, now, c) h w = elim (Bool-cases (other == id)) [
    | inl same ↦
        let live : now < d.expires_at = ground (arith, h) in
        let safe : removes p d c ≡ false = ground (arith, h, same) in
        rw ((bytes_beq_iff other id).0 same) (Holds-call r now c live safe w)
    | inr elsewhere ↦ record {
      queue = w.queue;
      found =
          step_elsewhere r other id now c
            (λ same. ground (arith, same, elsewhere, bytes_beq_iff other id))
          ∙ w.found;
      holds = w.holds;
    }
  ]

  pub Holds-run :
      (events : List Event) (r : Relay)
      → Each (λ e. spares id p d e ≡ true) events
      → Holds id P r
      → Holds id P (run r events)
  unfolding run
  Holds-run [] r h w = w
  Holds-run (e ∷ events) r h w = Holds-run events (step r e) h.1 (Holds-step r e h.0 w)
