-- ===== src/Relay/Tests.antt =====
-- A queue of two messages: a history of it, and the theorems at its inputs.
use mathlib.Core.List.{Sublist}
use cofferwire.Base.{
  ◌<◌, ◌++◌, ◌≡◌, refl, none, some, List, [], ◌∷◌, arith, Bytes, ok, err, bytes_beq, bytes_same,
  retain, find,
}
use cofferwire.Base.Map
use cofferwire.Policy.{QueueConfig, Letter, message_id_conflict, unauthorized}
use cofferwire.Relay.Run.{Event, creates, sends, fetches, acknowledges, deletes, perform, step, run}
use cofferwire.Relay.Sound.{IsSound, run-IsSound}
use cofferwire.Relay.Sound.Messages.{has_id}
use cofferwire.Relay.Access.{perform_unauthorized, step_elsewhere}
use cofferwire.Relay.Retry.{send_retry}
use cofferwire.Relay.Redelivery.{fetch_until_acknowledged}
use cofferwire.Relay.Delivery.{fetch_unexpired, fetch_again, acknowledge_removes}
use cofferwire.Relay.Fifo.{observe-InOrder}
use cofferwire.Relay.Fifo.Order.{observe, empty_log, held}
use cofferwire.Relay.{
  Queue, Relay, new, new_message, create_queue, send, fetch, acknowledge, discard_expired, offer,
}

abbrev inbox : Bytes
inbox = 1 ∷ []

abbrev alice : Bytes
alice = 2 ∷ []

abbrev bob : Bytes
bob = 3 ∷ []

abbrev mallory : Bytes
mallory = 4 ∷ []

abbrev first_id : Bytes
first_id = 5 ∷ []

abbrev second_id : Bytes
second_id = 6 ∷ []

abbrev policy : QueueConfig
policy = record {
  sender = alice;
  recipient = bob;
  limits = record { max_messages = 2; max_message_bytes = 4 };
}

abbrev empty_queue : Queue
empty_queue = record { config = policy; messages = [] }

abbrev opened : Relay
opened = record { queues = (inbox, empty_queue) ∷ [] }

abbrev one_queue : Queue
one_queue = record { config = policy; messages = new_message first_id (9 ∷ []) 160 ∷ [] }

abbrev one : Relay
one = record { queues = (inbox, one_queue) ∷ [] }

abbrev first_letter : Letter
first_letter = record { id = first_id; payload = 9 ∷ []; expires_at = 160 }

abbrev history : List Event
history =
    (inbox, 100, creates policy)
    ∷ (inbox, 100, sends alice first_id (9 ∷ []) 60)
    ∷ (inbox, 101, sends alice second_id (8 ∷ 8 ∷ []) 60)
    ∷ (inbox, 102, acknowledges bob first_id)
    ∷ (inbox, 103, fetches bob)
    ∷ (inbox, 104, acknowledges bob first_id)
    ∷ (inbox, 105, fetches mallory)
    ∷ []

history_log :
    (observe inbox (new, empty_log) history).1
    ≡ record { accepted_ids = first_id ∷ second_id ∷ []; acknowledged_ids = first_id ∷ [] }
unfolding observe create_queue send offer discard_expired fetch acknowledge Map.get Map.insert
    bytes_beq retain find
history_log = refl

observe-InOrder_example :
    Sublist
      ((observe inbox (new, empty_log) history).1.acknowledged_ids
        ++ held (Map.get inbox (observe inbox (new, empty_log) history).0.queues))
      (observe inbox (new, empty_log) history).1.accepted_ids
observe-InOrder_example = observe-InOrder inbox history

run-IsSound_example : IsSound one_queue
unfolding run step create_queue send offer discard_expired Map.get Map.insert bytes_beq retain find
run-IsSound_example =
    run-IsSound ((inbox, 100, creates policy) ∷ (inbox, 100, sends alice first_id (9 ∷ []) 60) ∷ [])
      inbox one_queue refl

perform_unauthorized_example : perform one (inbox, 100, fetches mallory) ≡ (err unauthorized, one)
unfolding Map.get bytes_beq
perform_unauthorized_example =
    perform_unauthorized one inbox 100 (fetches mallory) one_queue refl (λ e. ground arith)

step_elsewhere_example :
    Map.get mallory (step one (inbox, 100, fetches bob)).queues ≡ Map.get mallory one.queues
step_elsewhere_example = step_elsewhere one inbox mallory 100 (fetches bob) (λ e. ground arith)

abbrev resent : Relay
resent = (send inbox alice first_id (9 ∷ []) 100 60 opened).1

fetch_unexpired_example : 100 < first_letter.expires_at
unfolding fetch Map.get bytes_beq retain
fetch_unexpired_example = fetch_unexpired inbox bob 100 one first_letter refl

fetched_again_at_once : (fetch inbox bob 159 (fetch inbox bob 100 one).1).0 ≡ ok (some first_letter)
unfolding fetch Map.get bytes_beq retain
fetched_again_at_once = fetch_again inbox bob 100 159 one first_letter refl (omega arith)

abbrev delivery : List Event
delivery =
    (inbox, 100, creates policy)
    ∷ (inbox, 100, sends alice first_id (9 ∷ []) 60)
    ∷ (inbox, 101, sends alice second_id (8 ∷ []) 60)
    ∷ (inbox, 102, fetches bob)
    ∷ []

abbrev second_queue : Queue
second_queue = record { config = policy; messages = new_message second_id (8 ∷ []) 161 ∷ [] }

acknowledged_letter_gone : find (has_id first_id) second_queue.messages ≡ none
unfolding run step create_queue send offer discard_expired fetch acknowledge Map.get Map.insert
    bytes_beq retain find
acknowledged_letter_gone =
    acknowledge_removes inbox bob first_id 103 (run new delivery) second_queue
      (record { at = run-IsSound delivery }) refl refl

-- Between two fetches: a call of another queue, another message, an acknowledgement of another
-- identifier, and a deletion by one who is not the recipient.
abbrev meanwhile : List Event
meanwhile =
    (first_id, 110, creates policy)
    ∷ (inbox, 120, sends alice second_id (8 ∷ []) 60)
    ∷ (inbox, 130, acknowledges bob second_id)
    ∷ (inbox, 140, deletes alice)
    ∷ []

fetch_until_acknowledged_example :
    ((fetch inbox bob 159 (run (fetch inbox bob 100 one).1 meanwhile)).0 ≡ ok (some first_letter))
    × ((acknowledge inbox bob first_id 159 (run (fetch inbox bob 100 one).1 meanwhile)).0 ≡ ok tt)
unfolding fetch Map.get bytes_beq retain
fetch_until_acknowledged_example =
    fetch_until_acknowledged inbox bob first_letter 100 159 one meanwhile first_id refl
      (refl, (refl, (refl, (refl, tt)))) (omega arith)

-- A retry after the message was fetched and another was sent.
send_retry_example :
    (q : Queue) × (Map.get inbox (run resent meanwhile).queues ≡ some q)
    × (send inbox alice first_id (7 ∷ []) 150 60 (run resent meanwhile) ≡ (
      err message_id_conflict,
      record { queues = Map.insert inbox (discard_expired 150 q) (run resent meanwhile).queues },
    ))
unfolding send offer discard_expired Map.get Map.insert bytes_beq retain find
send_retry_example =
    send_retry inbox alice bob first_id (9 ∷ []) (7 ∷ []) 100 150 60 60 opened one_queue meanwhile
      refl refl refl (refl, (refl, (refl, (refl, tt)))) (omega arith)
