-- ===== src/Service/Tests.antt =====
-- The service at the sample primitives and the engine in memory, and the theorems at it.
use cofferwire.Base.{
  ap, bytes_beq, ◌≡◌, ◌⊎◌, refl, [], ◌∷◌, ◌++◌, Bytes, ok, err, arith, bytes_same,
}
use cofferwire.Base.Map
use cofferwire.Base.BigEndian.{to_be, from_be}
use cofferwire.Cbor.{encode_argument}
use cofferwire.Codec.Responses.{encode_response, encode_response_payload, encode_success_body}
use cofferwire.Storage.Program.{run}
use cofferwire.Durable.{create_queue_tx}
use cofferwire.Replay.{exchange, conclude, lookup}
use cofferwire.Requests.{queue_replay, queue_request_exchange, execute_queue_request}
use cofferwire.Wire.{WireRequest, create_queue}
use cofferwire.Codec.{encode_authenticated_request, DecodedRequest}
use cofferwire.Crypto.{sign_request}
use cofferwire.Crypto.Sample.{filled, sample, sample_signatures}
use cofferwire.Client.{signed_frame}
use cofferwire.Storage.Memory.{memory_engine}
use cofferwire.RateLimit.{admit}
use cofferwire.Tables.{Db}
use cofferwire.Service.{
  encode_queue_outcome, Service, new_service, exchange_at, admitted, ExchangeError,
}
use cofferwire.Service.Kept.{exchange_all}
use cofferwire.Service.Guards.{Carried, exchange_at-guards, exchange_at-signed_frame}
use cofferwire.Service.Retry.{exchange_retry}

abbrev blank : Db
blank = record { queues = []; messages = []; replays = [] }

abbrev fresh : Service sample memory_engine
fresh = new_service sample memory_engine (blank, blank)

abbrev opening : WireRequest
opening = create_queue (record {
  queue_id = filled 32 1;
  sender = filled 32 2;
  recipient = filled 32 3;
  limits = record { max_messages = 2; max_message_bytes = 4 };
})

abbrev opening_frame : Bytes
opening_frame = signed_frame sample tt (filled 16 7) opening

exchange_at-signed_frame_example :
    let covered = encode_authenticated_request (filled 16 7) opening in
    let d : DecodedRequest = record {
      frame = record {
        request_id = filled 16 7;
        request = opening;
        auth = sign_request sample tt covered;
      };
      authenticated_bytes = covered;
    } in
    exchange_at sample memory_engine opening_frame 100 fresh
    ≡ admitted sample memory_engine opening_frame d 100
        (admit fresh.queue_rate_limiter (filled 32 2) 100)
        fresh
exchange_at-signed_frame_example =
    exchange_at-signed_frame sample sample_signatures memory_engine tt (filled 16 7) opening 100
      fresh refl refl (refl, refl, refl, omega arith, refl)

exchange_at-guards_example :
    let (_, after) = exchange_at sample memory_engine opening_frame 100 fresh in
    (after.relay.1 ≡ blank) ⊎ Carried sample memory_engine opening_frame 100 fresh after
exchange_at-guards_example = exchange_at-guards sample memory_engine opening_frame 100 fresh refl

abbrev created_reply : Bytes
created_reply = 1 ∷ filled 16 7 ++ 132 ∷ 1 ∷ 1 ∷ 0 ∷ 129 ∷ 0 ∷ []

-- The queue is created, and the response recorded.
opening_answer : (exchange_at sample memory_engine opening_frame 100 fresh).0 ≡ ok created_reply
unfolding admit queue_replay queue_request_exchange lookup exchange conclude run
    execute_queue_request create_queue_tx Map.get Map.insert to_be from_be bytes_beq
    encode_queue_outcome encode_response encode_response_payload encode_success_body encode_argument
opening_answer =
    ap (λ r. r.0)
      (exchange_at-signed_frame sample sample_signatures memory_engine tt (filled 16 7) opening 100
        fresh refl refl (refl, refl, refl, omega arith, refl))

exchange_retry_example :
    let s' =
      exchange_all sample memory_engine
        (([], 101) ∷ [])
        (exchange_at sample memory_engine opening_frame 100 fresh).1 in
    let (answer, last) = exchange_at sample memory_engine opening_frame 130 s' in
    (((x : ExchangeError) × (answer ≡ err x)) ⊎ (answer ≡ ok created_reply))
    × (last.relay.1 ≡ s'.relay.1)
exchange_retry_example =
    exchange_retry sample memory_engine opening_frame 100 130 (([], 101) ∷ []) created_reply fresh
      refl opening_answer
