-- ===== src/Service/Retry.antt =====
-- A frame that was answered is answered so again.
use cofferwire.Base.{
  Bool, true, false, ◌≡◌, ◌⊎◌, refl, Option, none, some, Bytes, Result, ok, err, Bool-cases,
  Result-cases, inl, inr, List, bytes_same, bytes_eq_refl, arith, sym, ap,
}
use cofferwire.Types.{Principal, Timestamp}
use cofferwire.Cbor.{DecodeError}
use cofferwire.Wire.{request_command}
use cofferwire.Status.{Status}
use cofferwire.Codec.{DecodedRequest, decode_request}
use cofferwire.Crypto.{verify_request}
use cofferwire.Crypto.Suite.{Primitives}
use cofferwire.Storage.{Engine}
use cofferwire.Storage.Program.Atomic.{IsIdle}
use cofferwire.Tables.{Db, ReplayRow, ReplayKey}
use cofferwire.Replay.{respond, conflict, stored}
use cofferwire.Replay.Lookup.{lookup-stored}
use cofferwire.Replay.Once.{Recorded, job-Recorded, job-stored, job-unrecorded, exchange_job}
use cofferwire.Requests.{queue_replay, queue_request_exchange, queue_namespace}
use cofferwire.Requests.Once.{Arrival, to_job, request_keeps}
use cofferwire.RateLimit.{RateLimiter, admit}
use cofferwire.Service.{
  Service, ExchangeError, storage_failed, overloaded, encode_queue_outcome, exchange_at,
  decoded_exchange, verified, admitted, validate_queue_request, under_lock, after_replay,
  request_principal, refusal, replay_answer,
}
use cofferwire.Service.Kept.{KeepsRelay, exchange_all, exchange_all-keeps}

module _ (p : Primitives) (e : Engine Db) where
  open e use {Connection, committed}

  pub Recorded-KeepsRelay :
      (key : ReplayKey) (row : ReplayRow) → KeepsRelay p e (Recorded e queue_namespace key row)
  unfolding queue_replay queue_request_exchange
  Recorded-KeepsRelay key row = record {
    lookup_keeps = λ who id c (idle, found).
        let (idle', kept, _) = lookup-stored e queue_namespace (who, id) c idle in
        (idle', rw kept found);
    exchange_keeps = λ who id bytes request now encode c recorded.
        let a : Arrival = record {
          principal = who;
          request_id = id;
          request_bytes = bytes;
          request = request;
          now = now;
          encode = encode;
        } in
        job-Recorded e queue_namespace (to_job e a) key row c (request_keeps e a) recorded;
  }

  -- The answer of a frame that was carried to the relay, once it has a record.
  abbrev RetryAnswer : Bytes → Result ExchangeError Bytes × Service p e → Service p e → Type 0
  RetryAnswer reply (answer, after) before =
      (((x : ExchangeError) × (answer ≡ err x)) ⊎ (answer ≡ ok reply))
      × (committed after.relay ≡ committed before.relay)

  module _ (bytes : Bytes) (d : DecodedRequest) where
    abbrev key_of : ReplayKey
    key_of = (request_principal d.frame.request, d.frame.request_id)

    abbrev HasRecord : Bytes → Connection → Type 0
    HasRecord reply c =
        (row : ReplayRow) × (Recorded e queue_namespace key_of row c)
        × (replay_answer p e bytes d 0 row ≡ reply)

    abbrev arrival : Timestamp → Arrival
    arrival now = record {
      principal = request_principal d.frame.request;
      request_id = d.frame.request_id;
      request_bytes = bytes;
      request = d.frame.request;
      now = now;
      encode = encode_queue_outcome d.frame.request_id (request_command d.frame.request);
    }

    -- The exchange of a request without a record, when it gives a reply.
    first_exchange :
        (now : Timestamp) (reply : Bytes) (c : Connection)
        → IsIdle e c
        → stored queue_namespace key_of (committed c) ≡ none
        → (after_replay p e bytes d now (ok none, c)).0 ≡ ok reply
        → HasRecord reply (after_replay p e bytes d now (ok none, c)).1
    unfolding queue_request_exchange
    first_exchange now reply c idle free h =
        let a = arrival now in
        elim (Result-cases (exchange_job e queue_namespace (to_job e a) c).0) [
          | inr (x, failed) ↦ absurd (let made = rw failed at h in ground (arith, made))
          | inl (conflict, failed) ↦
              absurd (
                job-unrecorded e queue_namespace (to_job e a) c idle (request_keeps e a) free
                  failed)
          | inl (respond response, answered) ↦
              let made : ◌≡◌ {A = Result ExchangeError Bytes} (ok response) (ok reply) =
                rw answered at h in
              let same : response ≡ reply = ground (arith, made) in
              (
                (bytes, response),
                job-stored e queue_namespace (to_job e a) response c idle (request_keeps e a)
                    answered,
                rw (bytes_eq_refl bytes) same,
              )
        ]

    after_first :
        (now : Timestamp) (reply : Bytes) (found : Option ReplayRow) (c : Connection)
        → IsIdle e c
        → found ≡ stored queue_namespace key_of (committed c)
        → (after_replay p e bytes d now (ok found, c)).0 ≡ ok reply
        → HasRecord reply (after_replay p e bytes d now (ok found, c)).1
    after_first now reply none c idle same h = first_exchange now reply c idle (sym same) h
    after_first now reply (some row) c idle same h =
        let given : replay_answer p e bytes d now row ≡ reply = ground (arith, h) in
        (row, (idle, sym same), given)

    -- The first time, on an idle connection, when it gives a reply.
    first_lookup :
        (now : Timestamp) (reply : Bytes) (s : Service p e)
        → IsIdle e s.relay
        → (under_lock p e bytes d now s).0 ≡ ok reply
        → HasRecord reply (under_lock p e bytes d now s).1.relay
    unfolding queue_replay
    first_lookup now reply s idle h = elim (Bool-cases s.poisoned) [
      | inl poisoned ↦ absurd (let made = rw poisoned at h in ground (arith, made))
      | inr whole ↦
          let (idle', kept, found) = lookup-stored e queue_namespace key_of s.relay idle in
          elim found [
            | inl (k, failed) ↦ absurd (let made = rw (whole, failed) at h in ground (arith, made))
            | inr read ↦
                rw (whole, read)
                  (after_first now reply _ _ idle' (ap (stored queue_namespace key_of) (sym kept))
                    (rw (whole, read) at h))
          ]
    ]

    -- Any other time, when there is a record.
    again_lookup :
        (now : Timestamp) (reply : Bytes) (s : Service p e)
        → HasRecord reply s.relay
        → RetryAnswer reply (under_lock p e bytes d now s) s
    unfolding queue_replay
    again_lookup now reply s (row, (idle, there), same) = elim (Bool-cases s.poisoned) [
      | inl poisoned ↦ rw poisoned (inl (storage_failed, refl), refl)
      | inr whole ↦
          let (idle', kept, found) = lookup-stored e queue_namespace key_of s.relay idle in
          elim found [
            | inl (k, failed) ↦ rw (whole, failed) (inl (storage_failed, refl), kept)
            | inr read ↦ rw (whole, read, there) (inr (ap (λ x. ok x) same), kept)
          ]
    ]

    first_admitted :
        (now : Timestamp) (reply : Bytes) (s : Service p e) (a : Bool × RateLimiter Principal)
        → IsIdle e s.relay
        → validate_queue_request d.frame.request ≡ ok tt
        → (admitted p e bytes d now a s).0 ≡ ok reply
        → HasRecord reply (admitted p e bytes d now a s).1.relay
    first_admitted now reply s (false, l) idle valid h = absurd (ground (arith, h))
    first_admitted now reply s (true, l) idle valid h =
        let s' : Service p e = record s { queue_rate_limiter = l } in
        rw valid (first_lookup now reply s' idle (rw valid at h))

    again_admitted :
        (now : Timestamp) (reply : Bytes) (s : Service p e) (a : Bool × RateLimiter Principal)
        → validate_queue_request d.frame.request ≡ ok tt
        → HasRecord reply s.relay
        → RetryAnswer reply (admitted p e bytes d now a s) s
    again_admitted now reply s (false, l) valid h = (inl (overloaded, refl), refl)
    again_admitted now reply s (true, l) valid h =
        let s' : Service p e = record s { queue_rate_limiter = l } in
        rw valid (again_lookup now reply s' h)

    refused_admitted :
        (now : Timestamp) (s : Service p e) (a : Bool × RateLimiter Principal) (status : Status)
        → validate_queue_request d.frame.request ≡ err status
        → RetryAnswer (refusal p e bytes d now status) (admitted p e bytes d now a s) s
    refused_admitted now s (false, l) refused invalid = (inl (overloaded, refl), refl)
    refused_admitted now s (true, l) refused invalid = rw invalid (inr refl, refl)

    first_verified :
        (now : Timestamp) (reply : Bytes) (s : Service p e)
        → IsIdle e s.relay
        → validate_queue_request d.frame.request ≡ ok tt
        → (verified p e bytes d now (ok tt) s).0 ≡ ok reply
        → HasRecord reply (verified p e bytes d now (ok tt) s).1.relay
    first_verified now reply s idle valid h =
        let a = admit s.queue_rate_limiter (request_principal d.frame.request) now in
        first_admitted now reply s a idle valid h

    again_verified :
        (now : Timestamp) (reply : Bytes) (s : Service p e)
        → validate_queue_request d.frame.request ≡ ok tt
        → HasRecord reply s.relay
        → RetryAnswer reply (verified p e bytes d now (ok tt) s) s
    again_verified now reply s valid h =
        again_admitted now reply s
          (admit s.queue_rate_limiter (request_principal d.frame.request) now) valid h

    -- A request that is refused for its values.
    refused_verified :
        (now : Timestamp) (s : Service p e) (status : Status)
        → validate_queue_request d.frame.request ≡ err status
        → RetryAnswer (refusal p e bytes d now status) (verified p e bytes d now (ok tt) s) s
    refused_verified now s refused invalid =
        refused_admitted now s (admit s.queue_rate_limiter (request_principal d.frame.request) now)
          refused invalid

  -- What is recorded in one state of the relay is so in another.
  abbrev Outlives : Service p e → Service p e → Type 0
  Outlives before after =
      (key : ReplayKey) (row : ReplayRow)
      → Recorded e queue_namespace key row before.relay
      → Recorded e queue_namespace key row after.relay

  retry_verified :
      (bytes : Bytes) (d : DecodedRequest) (now again : Timestamp) (reply : Bytes)
      (s middle : Service p e)
      → IsIdle e s.relay
      → (verified p e bytes d now (ok tt) s).0 ≡ ok reply
      → Outlives (verified p e bytes d now (ok tt) s).1 middle
      → RetryAnswer reply (verified p e bytes d again (ok tt) middle) middle
  retry_verified bytes d now again reply s middle idle h lasts =
      elim (Result-cases (validate_queue_request d.frame.request)) [
        | inl (_, valid) ↦
            let (row, recorded, same) = first_verified bytes d now reply s idle valid h in
            again_verified bytes d again reply middle valid
              (row, lasts (key_of bytes d) row recorded, same)
        | inr (refused, invalid) ↦
            let again_refused = refused_verified bytes d again middle refused invalid in
            elim (refused_verified bytes d now s refused invalid).0 [
              | inl (x, failed) ↦ absurd (ground (arith, failed, h))
              | inr answered ↦
                  let same : refusal p e bytes d now refused ≡ reply =
                    ground (arith, answered, h) in
                  rw same at again_refused
            ]
      ]

  retry_decoded :
      (bytes : Bytes) (r : Result DecodeError DecodedRequest) (now again : Timestamp)
      (reply : Bytes) (s middle : Service p e)
      → IsIdle e s.relay
      → (decoded_exchange p e bytes now r s).0 ≡ ok reply
      → Outlives (decoded_exchange p e bytes now r s).1 middle
      → RetryAnswer reply (decoded_exchange p e bytes again r middle) middle
  retry_decoded bytes (err x) now again reply s middle idle h lasts = (inr h, refl)
  retry_decoded bytes (ok d) now again reply s middle idle h lasts =
      elim (Result-cases
        (verify_request p (request_principal d.frame.request) d.authenticated_bytes d.frame.auth)) [
          | inr (x, invalid) ↦ rw invalid (inr (rw invalid at h), refl)
          | inl (_, valid) ↦ rw valid (
              retry_verified bytes d now again reply s middle idle (rw valid at h)
                (rw valid at lasts))
        ]

  -- On an idle connection, whatever the engine does within its contract: once a frame has been
  -- answered, and after any later frames, the same frame at any time is answered with the same
  -- bytes, or not answered, as the service is overloaded or its storage fails; and either way it
  -- commits nothing.
  pub exchange_retry :
      (bytes : Bytes) (now again : Timestamp) (frames : List (Bytes × Timestamp)) (reply : Bytes)
      (s : Service p e)
      → IsIdle e s.relay
      → (exchange_at p e bytes now s).0 ≡ ok reply
      → let s' = exchange_all p e frames (exchange_at p e bytes now s).1 in
        let (answer, last) = exchange_at p e bytes again s' in
        (((x : ExchangeError) × (answer ≡ err x)) ⊎ (answer ≡ ok reply))
        × (committed last.relay ≡ committed s'.relay)
  unfolding exchange_at
  exchange_retry bytes now again frames reply s idle h =
      let s' = exchange_all p e frames (exchange_at p e bytes now s).1 in
      retry_decoded bytes (decode_request bytes) now again reply s s' idle h
        (λ key row recorded. exchange_all-keeps p e (Recorded-KeepsRelay key row) frames _ recorded)
