-- ===== src/Service/Kept.antt =====
-- What holds of the relay's connection in every exchange of the service.
use cofferwire.Base.{
  Bool, true, false, Option, none, some, Bytes, Result, ok, err, Result-cases, inl, inr, List, [],
  ◌∷◌,
}
use cofferwire.Types.{Principal, RequestId, Timestamp}
use cofferwire.Policy.{RelayError}
use cofferwire.Cbor.{DecodeError}
use cofferwire.Wire.{WireRequest, ResponseBody, request_command}
use cofferwire.Status.{Status}
use cofferwire.Codec.{DecodedRequest, decode_request}
use cofferwire.Crypto.{verify_request}
use cofferwire.Crypto.Suite.{Primitives}
use cofferwire.Storage.{Engine, DurableRelayError}
use cofferwire.Tables.{Db, ReplayRow}
use cofferwire.Requests.{queue_replay, queue_request_exchange}
use cofferwire.RateLimit.{RateLimiter}
use cofferwire.Service.{
  Service, encode_queue_outcome, exchange_at, decoded_exchange, admitted, validated,
  validate_queue_request, under_lock, after_replay, principal, request_principal,
}

module _ (p : Primitives) (e : Engine Db) where
  open e use {Connection}

  -- A property of a connection that lookups and request exchanges keep.
  pub record KeepsRelay (P : Connection → Type 0) : Type 0 where
    pub lookup_keeps :
        (who : Principal) (id : RequestId) (c : Connection) → P c → P (queue_replay e who id c).1
    pub exchange_keeps :
        (who : Principal) (id : RequestId) (bytes : Bytes) (request : WireRequest) (now : Timestamp)
        (encode : Result RelayError ResponseBody → Bytes) (c : Connection)
        → P c
        → P (queue_request_exchange e who id bytes request now encode c).1

  module _ {P : Connection → Type 0} (k : KeepsRelay P) where
    after_replay-keeps :
        (bytes : Bytes) (d : DecodedRequest) (now : Timestamp)
        (found : Result DurableRelayError (Option ReplayRow)) (c : Connection)
        → P c
        → P (after_replay p e bytes d now (found, c)).1
    after_replay-keeps bytes d now (err x) c h = h
    after_replay-keeps bytes d now (ok (some row)) c h = h
    after_replay-keeps bytes d now (ok none) c h =
        k.exchange_keeps (principal p e bytes d now) d.frame.request_id bytes d.frame.request now
          (encode_queue_outcome d.frame.request_id (request_command d.frame.request)) c h

    under_lock-keeps :
        (bytes : Bytes) (d : DecodedRequest) (now : Timestamp) (poisoned : Bool) (c : Connection)
        (l : RateLimiter Principal)
        → P c
        → P
            (under_lock p e bytes d now
              (record { relay = c; poisoned = poisoned; queue_rate_limiter = l })).1.relay
    under_lock-keeps bytes d now true c l h = h
    under_lock-keeps bytes d now false c l h =
        let (found, c') = queue_replay e (principal p e bytes d now) d.frame.request_id c in
        after_replay-keeps bytes d now found c'
          (k.lookup_keeps (principal p e bytes d now) d.frame.request_id c h)

    validated-keeps :
        (bytes : Bytes) (d : DecodedRequest) (now : Timestamp) (v : Result Status (Unit {0}))
        (s : Service p e)
        → P s.relay
        → P (validated p e bytes d now v s).1.relay
    validated-keeps bytes d now (err refused) s h = h
    validated-keeps bytes d now (ok _) s h =
        under_lock-keeps bytes d now s.poisoned s.relay s.queue_rate_limiter h

    admitted-keeps :
        (bytes : Bytes) (d : DecodedRequest) (now : Timestamp) (a : Bool × RateLimiter Principal)
        (s : Service p e)
        → P s.relay
        → P (admitted p e bytes d now a s).1.relay
    admitted-keeps bytes d now (false, l) s h = h
    admitted-keeps bytes d now (true, l) s h =
        validated-keeps bytes d now (validate_queue_request d.frame.request) _ h

    decoded-keeps :
        (bytes : Bytes) (now : Timestamp) (r : Result DecodeError DecodedRequest) (s : Service p e)
        → P s.relay
        → P (decoded_exchange p e bytes now r s).1.relay
    decoded-keeps bytes now (err x) s h = h
    decoded-keeps bytes now (ok d) s h =
        elim (Result-cases (
          verify_request p (request_principal d.frame.request) d.authenticated_bytes
            d.frame.auth)) [
              | inl (_, valid) ↦ rw valid (admitted-keeps bytes d now _ s h)
              | inr (x, invalid) ↦ rw invalid h
            ]

    -- It holds after an exchange of a frame.
    pub exchange_at-keeps :
        (bytes : Bytes) (now : Timestamp) (s : Service p e)
        → P s.relay
        → P (exchange_at p e bytes now s).1.relay
    unfolding exchange_at
    exchange_at-keeps bytes now s h = decoded-keeps bytes now (decode_request bytes) s h

  -- Frames that arrive, each with its time, in turn.
  unfoldable pub exchange_all : List (Bytes × Timestamp) → Service p e → Service p e
  exchange_all [] s = s
  exchange_all ((bytes, now) ∷ frames) s = exchange_all frames (exchange_at p e bytes now s).1

  pub exchange_all-keeps :
      {P : Connection → Type 0}
      → KeepsRelay P
      → (frames : List (Bytes × Timestamp)) (s : Service p e) → P s.relay
      → P (exchange_all frames s).relay
  unfolding exchange_all
  exchange_all-keeps k [] s h = h
  exchange_all-keeps k ((bytes, now) ∷ frames) s h =
      exchange_all-keeps k frames _ (exchange_at-keeps k bytes now s h)
