-- ===== src/Service.antt =====
-- apps/cofferwired/src/lib.rs: the exchange of a queue frame for its response.
pub mod Kept
pub mod Retry
pub mod Guards
mod Tests
use cofferwire.Base.{
  ℕ, Bool, true, false, Option, none, some, [], ◌∷◌, ◌++◌, ltb, ◌==◌, ◌!=◌, nat_same, bytes_same,
  pair_same, if◌then◌else◌, Bytes, length, Result, ok, err,
}
use cofferwire.Types.{Principal, RequestId, Timestamp}
use cofferwire.Policy.{
  RelayError, queue_not_found, unauthorized, queue_id_conflict, message_id_conflict,
  message_too_large, queue_full, expiry_overflow, limit_out_of_range, ack_mismatch, not_delivered,
  ttl_from_secs,
}
use cofferwire.Cbor.{DecodeError, unsupported_version, frame_too_large, split_at}
use cofferwire.Wire.{
  Command, WireRequest, create_queue, send, fetch, ack, delete_queue, request_command, ResponseBody,
}
use cofferwire.Status.{
  Status, queue_not_found_status, unauthorized_status, queue_id_conflict_status,
  message_id_conflict_status, message_too_large_status, queue_full_status, expiry_overflow_status,
  limit_out_of_range_status, ack_mismatch_status, not_delivered_status, unsupported_version_status,
  frame_too_large_status, malformed_frame, auth_invalid, auth_replay, Response, success, failure,
}
use cofferwire.Codec.{DecodedRequest, decode_request, take_bytes}
use cofferwire.Codec.Responses.{encode_response}
use cofferwire.Crypto.{CryptoError, verify_request}
use cofferwire.Crypto.Suite.{Primitives}
use cofferwire.Storage.{Engine, DurableRelayError}
use cofferwire.Tables.{Db, ReplayRow}
use cofferwire.Replay.{ReplayExchange, respond, conflict}
use cofferwire.Requests.{queue_replay, queue_request_exchange}
use cofferwire.RateLimit.{RateLimiter, admit, new_limiter}

pub data ExchangeError : Type 0 where
  overloaded storage_failed internal : ExchangeError

abbrev pub relay_status : RelayError → Status
relay_status queue_not_found = queue_not_found_status
relay_status unauthorized = unauthorized_status
relay_status queue_id_conflict = queue_id_conflict_status
relay_status message_id_conflict = message_id_conflict_status
relay_status message_too_large = message_too_large_status
relay_status queue_full = queue_full_status
relay_status expiry_overflow = expiry_overflow_status
relay_status limit_out_of_range = limit_out_of_range_status
relay_status ack_mismatch = ack_mismatch_status
relay_status not_delivered = not_delivered_status

-- No caller gives a status of success, so that ErrorResponse::new does not fail.
abbrev pub error_response : RequestId → Option Command → Status → Bytes
error_response request_id command status = encode_response (record {
  request_id = request_id;
  response = failure (record { command = command; status = status });
})

-- The bytes from 1 to 17, or zeros.
abbrev pub request_id_from_prefix : Bytes → RequestId
request_id_from_prefix bytes = elim (split_at 17 bytes) [
  | some (_ ∷ source, _) ↦ source
  | _ ↦ 0 ∷ 0 ∷ 0 ∷ 0 ∷ 0 ∷ 0 ∷ 0 ∷ 0 ∷ 0 ∷ 0 ∷ 0 ∷ 0 ∷ 0 ∷ 0 ∷ 0 ∷ 0 ∷ []
]

abbrev pub decode_error_response : Bytes → DecodeError → Bytes
decode_error_response bytes (unsupported_version _ request_id) =
    error_response request_id none unsupported_version_status
decode_error_response bytes (frame_too_large _) =
    error_response (request_id_from_prefix bytes) none frame_too_large_status
decode_error_response bytes _ = error_response (request_id_from_prefix bytes) none malformed_frame

abbrev pub request_principal : WireRequest → Principal
request_principal (create_queue value) = value.sender
request_principal (send value) = value.sender
request_principal (fetch value) = value.recipient
request_principal (ack value) = value.recipient
request_principal (delete_queue value) = value.recipient

-- A usize has 64 bits, so that only the lifetime of a send is refused.
abbrev pub validate_queue_request : WireRequest → Result Status (Unit {0})
validate_queue_request (send value) = elim (ttl_from_secs value.ttl) [
  | none ↦ err limit_out_of_range_status
  | some _ ↦ ok tt
]
validate_queue_request _ = ok tt

unfoldable pub encode_queue_outcome : RequestId → Command → Result RelayError ResponseBody → Bytes
encode_queue_outcome request_id command (ok body) =
    encode_response (record { request_id = request_id; response = success body })
encode_queue_outcome request_id command (err error) =
    error_response request_id (some command) (relay_status error)

module _ (p : Primitives) (e : Engine Db) where
  open e use {Connection}

  -- RelayService, of which queue frames use the relay behind its lock, and a limiter. `poisoned` is
  -- the state of the lock.
  pub record Service : Type 0 where
    pub relay : Connection
    pub poisoned : Bool
    pub queue_rate_limiter : RateLimiter Principal

  -- RelayService::new
  abbrev pub new_service : Connection → Service
  new_service relay = record {
    relay = relay;
    poisoned = false;
    queue_rate_limiter = new_limiter 60 300 100000;
  }

  module _ (bytes : Bytes) (d : DecodedRequest) (now : Timestamp) where
    abbrev pub principal : Principal
    principal = request_principal d.frame.request

    abbrev pub refusal : Status → Bytes
    refusal status =
        error_response d.frame.request_id (some (request_command d.frame.request)) status

    abbrev pub exchange_answer :
        Result DurableRelayError ReplayExchange → Result ExchangeError Bytes
    exchange_answer (ok (respond response)) = ok response
    exchange_answer (ok conflict) = ok (refusal auth_replay)
    exchange_answer (err _) = err storage_failed

    -- What a stored record answers.
    abbrev pub replay_answer : ReplayRow → Bytes
    replay_answer (stored_request, stored_response) =
        if stored_request == bytes then stored_response else refusal auth_replay

    abbrev pub after_replay :
        Result DurableRelayError (Option ReplayRow) × Connection
        → Result ExchangeError Bytes × Connection
    after_replay (err _, c) = (err storage_failed, c)
    after_replay (ok (some row), c) = (ok (replay_answer row), c)
    after_replay (ok none, c) =
        let (answer, c') =
          queue_request_exchange e principal d.frame.request_id bytes d.frame.request now
            (encode_queue_outcome d.frame.request_id (request_command d.frame.request)) c in
        (exchange_answer answer, c')

    -- What is done on the relay, under its lock.
    abbrev pub under_lock : Service → Result ExchangeError Bytes × Service
    under_lock s =
        if s.poisoned
        then (err storage_failed, s)
        else (let (answer, c) =
              after_replay (queue_replay e principal d.frame.request_id s.relay) in
            (answer, record s { relay = c }))

    abbrev pub validated : Result Status (Unit {0}) → Service → Result ExchangeError Bytes × Service
    validated (err status) s = (ok (refusal status), s)
    validated (ok _) s = under_lock s

    abbrev pub admitted :
        Bool × RateLimiter Principal → Service → Result ExchangeError Bytes × Service
    admitted (false, l) s = (err overloaded, record s { queue_rate_limiter = l })
    admitted (true, l) s =
        validated (validate_queue_request d.frame.request) (record s { queue_rate_limiter = l })

    abbrev pub verified :
        Result CryptoError (Unit {0}) → Service → Result ExchangeError Bytes × Service
    verified (err _) s = (ok (refusal auth_invalid), s)
    verified (ok _) s = admitted (admit s.queue_rate_limiter principal now) s

  abbrev pub decoded_exchange :
      Bytes
      → Timestamp
      → Result DecodeError DecodedRequest
      → Service
      → Result ExchangeError Bytes × Service
  decoded_exchange bytes now (err x) s = (ok (decode_error_response bytes x), s)
  decoded_exchange bytes now (ok d) s =
      verified bytes d now
        (verify_request p (request_principal d.frame.request) d.authenticated_bytes d.frame.auth) s

  unfoldable pub exchange_at : Bytes → Timestamp → Service → Result ExchangeError Bytes × Service
  exchange_at bytes now s = decoded_exchange bytes now (decode_request bytes) s
