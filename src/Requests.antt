-- ===== src/Requests.antt =====
-- crates/cofferwire-relay/src/durable.rs: a request of the wire, run on the durable relay with the record of
-- its response.
pub mod Quiet
pub mod Records
pub mod Once
mod Tests
use cofferwire.Base.{
  Option, none, some, Result, ok, err, Bytes, bytes_same, if◌then◌else◌, ◌==◌, refl,
}
use cofferwire.Types.{Principal, RequestId, Timestamp}
use cofferwire.Policy.{
  new_limits, ttl_from_secs, Letter, RelayError, limit_out_of_range, message_too_large,
}
use cofferwire.Storage.{Engine, DurableRelayError}
use cofferwire.Storage.Program.{ret, ◌>>=◌, ◌>>◌}
use cofferwire.Tables.{Db, ReplayRow}
use cofferwire.Durable.{
  Tx, or_reject, create_queue_tx, send_tx, fetch_tx, acknowledge_tx, delete_queue_tx,
}
use cofferwire.Replay.{Namespace, ReplayExchange, exchange, lookup}
use cofferwire.Wire.{
  WireRequest, create_queue, send, fetch, ack, delete_queue, WireDelivery, ResponseBody,
  create_queue_response, send_response, fetch_response, ack_response, delete_queue_response,
  new_payload,
}

-- The delivery of a response, whose payload is measured once more.
abbrev pub wire_delivery : Option Letter → Tx (Option WireDelivery)
wire_delivery none = ret none
wire_delivery (some letter) = do
  payload ← or_reject (new_payload letter.payload) message_too_large
  ret (some (record { message_id = letter.id; payload = payload; expires_at = letter.expires_at }))

-- A usize has 64 bits, so the conversions from u64 succeed.
unfoldable pub execute_queue_request : WireRequest → Timestamp → Tx ResponseBody
execute_queue_request (create_queue request) now = do
  limits ←
      or_reject (new_limits request.limits.max_messages request.limits.max_message_bytes)
        limit_out_of_range
  outcome ←
      create_queue_tx request.queue_id
        (record { sender = request.sender; recipient = request.recipient; limits = limits })
  ret (create_queue_response outcome)
execute_queue_request (send request) now = do
  ttl ← or_reject (ttl_from_secs request.ttl) limit_out_of_range
  outcome ← send_tx request.queue_id request.sender request.message_id request.payload now ttl
  ret (send_response outcome)
execute_queue_request (fetch request) now = do
  letter ← fetch_tx request.queue_id request.recipient now
  delivery ← wire_delivery letter
  ret (fetch_response delivery)
execute_queue_request (ack request) now = do
  acknowledge_tx request.queue_id request.recipient request.message_id now
  ret ack_response
execute_queue_request (delete_queue request) now = do
  delete_queue_tx request.queue_id request.recipient
  ret delete_queue_response

-- The table queue_replays.
abbrev pub queue_namespace : Namespace Db
queue_namespace = record {
  records = λ db. db.replays;
  with_records = λ m db. record db { replays = m };
  records-with_records = λ m db. refl;
}

module _ (e : Engine Db) where
  open e use {Connection}

  unfoldable pub queue_replay :
      Principal → RequestId → Connection → Result DurableRelayError (Option ReplayRow) × Connection
  queue_replay principal request_id c = lookup e queue_namespace (principal, request_id) c

  unfoldable pub queue_request_exchange :
      Principal
      → RequestId
      → Bytes
      → WireRequest
      → Timestamp
      → (Result RelayError ResponseBody → Bytes)
      → Connection
      → Result DurableRelayError ReplayExchange × Connection
  queue_request_exchange principal request_id request_bytes request now encode c =
      exchange e queue_namespace encode (principal, request_id) request_bytes
        (execute_queue_request request now) c
