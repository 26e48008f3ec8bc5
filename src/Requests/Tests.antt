-- ===== src/Requests/Tests.antt =====
-- Requests on the engine in memory, and the theorems at them.
use cofferwire.Base.{
  ◌≡◌, ◌⊎◌, refl, [], ◌∷◌, Bytes, Result, ok, err, bytes_beq, bytes_same, retain, find,
}
use cofferwire.Base.Map
use cofferwire.Base.BigEndian.{to_be, from_be, bytes_le}
use cofferwire.Policy.{RelayError}
use cofferwire.Storage.{StorageErrorKind, storage}
use cofferwire.Storage.Memory.{memory_engine}
use cofferwire.Storage.Program.{run, meaning}
use cofferwire.Tables.{Db, delete_expired, next_sequence, earliest}
use cofferwire.Durable.{
  create_queue_tx, send_tx, fetch_tx, read_queue, decode_queue, read_u64, same_row,
  authorize_recipient, discard_expired,
}
use cofferwire.Replay.{respond, conflict, exchange, conclude, lookup}
use cofferwire.Replay.Exact.{Exchanged, promised, exchange-Exchanged}
use cofferwire.Wire.{create_queue, send, fetch, ResponseBody}
use cofferwire.Requests.{execute_queue_request, queue_request_exchange, queue_namespace}
use cofferwire.Requests.Once.{Arrival, arrive, arrive_all, request_once, request_keeps}

abbrev empty_db : Db
empty_db = record { queues = []; messages = []; replays = [] }

abbrev blank : Db × Db
blank = (empty_db, empty_db)

abbrev encode : Result RelayError ResponseBody → Bytes
encode (ok _) = 0 ∷ []
encode (err _) = 1 ∷ []

abbrev opening : Arrival
opening = record {
  principal = 2 ∷ [];
  request_id = 7 ∷ [];
  request_bytes = 11 ∷ [];
  request = create_queue (record {
    queue_id = 1 ∷ [];
    sender = 2 ∷ [];
    recipient = 3 ∷ [];
    limits = record { max_messages = 2; max_message_bytes = 4 };
  });
  now = 100;
  encode = encode;
}

abbrev sending : Arrival
sending = record {
  principal = 2 ∷ [];
  request_id = 8 ∷ [];
  request_bytes = 12 ∷ [];
  request = send (record {
    queue_id = 1 ∷ [];
    sender = 2 ∷ [];
    message_id = 5 ∷ [];
    payload = 9 ∷ [];
    ttl = 60;
  });
  now = 101;
  encode = encode;
}

-- The identifier of the send, used for a fetch of no queue.
abbrev reused : Arrival
reused = record {
  principal = 2 ∷ [];
  request_id = 8 ∷ [];
  request_bytes = 13 ∷ [];
  request = fetch (record { queue_id = 9 ∷ []; recipient = 2 ∷ [] });
  now = 102;
  encode = encode;
}

-- A send is answered, its retry gets the answer, and another request with its identifier a conflict.
answers :
    let c = (arrive memory_engine opening blank).1 in
    let c' = (arrive memory_engine sending c).1 in
    ((arrive memory_engine sending c).0 ≡ ok (respond (0 ∷ [])))
    × ((arrive memory_engine sending c').0 ≡ ok (respond (0 ∷ [])))
    × ((arrive memory_engine reused c').0 ≡ ok conflict)
    × ((arrive memory_engine reused c).0 ≡ ok (respond (1 ∷ [])))
unfolding arrive_all queue_request_exchange exchange conclude lookup run execute_queue_request
    create_queue_tx send_tx fetch_tx read_queue decode_queue read_u64 same_row authorize_recipient
    discard_expired delete_expired next_sequence earliest Map.get Map.insert retain find bytes_beq
    to_be from_be bytes_le
answers = (refl, refl, refl, refl)

request_once_example :
    let c' = arrive_all memory_engine (sending ∷ []) (arrive memory_engine opening blank).1 in
    let (r, last) = arrive memory_engine opening c' in
    (((k : StorageErrorKind) × (r ≡ err (storage k))) ⊎ (r ≡ ok (respond (0 ∷ []))))
    × (last.1 ≡ c'.1)
unfolding queue_request_exchange exchange conclude lookup run execute_queue_request create_queue_tx
    Map.get Map.insert to_be from_be bytes_beq
request_once_example =
    request_once memory_engine opening opening (sending ∷ []) (0 ∷ []) blank refl refl refl refl

exchange-Exchanged_example :
    Exchanged memory_engine queue_namespace empty_db
      (promised queue_namespace encode
        (2 ∷ [], 8 ∷ [])
        (12 ∷ [])
        empty_db
        (meaning (execute_queue_request sending.request 101) empty_db))
      (exchange memory_engine queue_namespace encode
        (2 ∷ [], 8 ∷ [])
        (12 ∷ [])
        (execute_queue_request sending.request 101)
        blank)
exchange-Exchanged_example =
    exchange-Exchanged memory_engine queue_namespace encode (2 ∷ [], 8 ∷ []) (12 ∷ [])
      (execute_queue_request sending.request 101) blank refl (request_keeps memory_engine sending)
