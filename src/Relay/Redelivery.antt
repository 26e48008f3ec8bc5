-- ===== src/Relay/Redelivery.antt =====
-- A message that was fetched stays in front of its queue until it is acknowledged, it expires, or the
-- queue is deleted.
mod Front
use cofferwire.Base.{
  ◌≡◌, ◌<◌, refl, some, arith, ok, err, List, ◌∷◌, true, Each, bytes_same, nat_same, ◌==◌,
  if◌then◌else◌,
}
use cofferwire.Base.Map
use cofferwire.Base.Map.{get-insert_self}
use cofferwire.Types.{QueueId, Timestamp, Principal, MessageId}
use cofferwire.Policy.{Letter, ack_mismatch}
use cofferwire.Relay.{
  Queue, Relay, fetch, acknowledge, fetch_from, acknowledge_in, discard_expired, offer,
}
use cofferwire.Relay.Redelivery.Front.{
  Pending, Pending-discard, Pending-offer, Pending-fetch, Pending-mismatch, Pending-acknowledge,
}
use cofferwire.Relay.Spared.{spares, Kept, Holds, Holds-run}
use cofferwire.Relay.Calls.{recipient_owner}
use cofferwire.Relay.Delivery.{fetch-Fetched}
use cofferwire.Relay.Run.{Event, run}

module _ (id : QueueId) (p : Principal) (d : Letter) where
  Pending-Kept : Kept p d (Pending p d)
  Pending-Kept = record {
    owner = λ q h. h.owner;
    kept_offer = λ m payload now ttl q live h.
        Pending-offer p d (discard_expired now q) m payload now ttl
          (Pending-discard p d q now live h);
    kept_fetch = λ now q live h. (Pending-fetch p d q now live h).1;
    kept_ack = λ m now q live other h. Pending-mismatch p d q m now live other h;
  }

  fetch-Holds :
      (now : Timestamp) (r : Relay)
      → (fetch id p now r).0 ≡ ok (some d)
      → Holds id (Pending p d) (fetch id p now r).1
  fetch-Holds now r h =
      let f = fetch-Fetched id p now r d h in
      let left : Queue = record {
        config = f.queue.config;
        messages = record f.front { delivered = true } ∷ f.rest;
      } in
      rw f.left (record {
        queue = left;
        found = get-insert_self id left r.queues;
        holds = record {
          front = record f.front { delivered = true };
          rest = f.rest;
          owner = f.owner;
          messages = refl;
          letter = f.letter;
          delivered = refl;
        };
      })

  -- A message that was fetched stays fetchable and acknowledgeable. Whatever calls follow, on this queue
  -- or others, as long as each comes before the expiry of the message and none is its acknowledgement or
  -- the deletion of the queue by the recipient, a fetch by the recipient before the expiry returns the
  -- same message, and an acknowledgement by the recipient then succeeds for its identifier and is
  -- answered `ack_mismatch` for any other.
  pub fetch_until_acknowledged :
      (now later : Timestamp) (r : Relay) (events : List Event) (m : MessageId)
      → (fetch id p now r).0 ≡ ok (some d)
      → Each (λ e. spares id p d e ≡ true) events
      → later < d.expires_at
      → ((fetch id p later (run (fetch id p now r).1 events)).0 ≡ ok (some d))
        × ((acknowledge id p m later (run (fetch id p now r).1 events)).0
            ≡ (if d.id == m then ok tt else err ack_mismatch))
  unfolding fetch acknowledge
  fetch_until_acknowledged now later r events m h spared live =
      let w =
        Holds-run id p d (Pending p d) Pending-Kept events (fetch id p now r).1 spared
          (fetch-Holds now r h) in
      let s = run (fetch id p now r).1 events in
      (
        rw (recipient_owner id s w.found p (fetch_from later) w.holds.owner)
            (Pending-fetch p d w.queue later live w.holds).0,
        rw (recipient_owner id s w.found p (acknowledge_in m later) w.holds.owner)
            (Pending-acknowledge p d w.queue m later live w.holds),
      )
