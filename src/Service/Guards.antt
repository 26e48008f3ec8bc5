-- ===== src/Service/Guards.antt =====
-- What a frame must pass before it changes the tables, and that a client's frame passes.
use cofferwire.Base.{
  bytes_same, Bool, true, false, ◌≡◌, ◌⊎◌, refl, Option, none, some, Bytes, ok, Bool-cases,
  Result-cases, inl, inr, length, arith, sym, ◌∙◌, ap,
}
use cofferwire.Types.{Principal, RequestId, Timestamp}
use cofferwire.Wire.{WireRequest, request_command}
use cofferwire.Codec.{DecodedRequest, decode_request, encode_authenticated_request}
use cofferwire.Codec.Bodies.{IsWireRequest}
use cofferwire.Codec.Frames.{decode_request-encode_request}
use cofferwire.Crypto.{verify_request, sign_request, key_principal}
use cofferwire.Crypto.Proofs.{sign_request-length, verify_request-sign_request}
use cofferwire.Crypto.Suite.{Primitives, SignatureLaws}
use cofferwire.Client.{signed_frame}
use cofferwire.Storage.{Engine}
use cofferwire.Storage.Program.{meaning}
use cofferwire.Storage.Program.Atomic.{IsIdle}
use cofferwire.Tables.{Db, ReplayRow, ReplayKey}
use cofferwire.Replay.{stored}
use cofferwire.Replay.Lookup.{lookup-stored}
use cofferwire.Replay.Exact.{exchange-Exchanged, promised}
use cofferwire.Requests.{
  queue_replay, queue_request_exchange, queue_namespace, execute_queue_request,
}
use cofferwire.Requests.Once.{Arrival, request_keeps}
use cofferwire.RateLimit.{RateLimiter, admit}
use cofferwire.Service.{
  Service, encode_queue_outcome, exchange_at, admitted, validate_queue_request, under_lock,
  after_replay, request_principal,
}

module _ (p : Primitives) (e : Engine Db) where
  open e use {Connection, committed}

  abbrev pub request_key : DecodedRequest → ReplayKey
  request_key d = (request_principal d.frame.request, d.frame.request_id)

  -- What the exchange of a request makes of the tables.
  abbrev pub tables_after : Bytes → DecodedRequest → Timestamp → Db → Db
  tables_after bytes d now db =
      (promised queue_namespace
        (encode_queue_outcome d.frame.request_id (request_command d.frame.request)) (request_key d)
        bytes db (meaning (execute_queue_request d.frame.request now) db)).1

  -- A frame passed every guard, and was carried out.
  pub record Carried (bytes : Bytes) (now : Timestamp) (s after : Service p e) : Type 0 where
    pub decoded : DecodedRequest
    pub decodes : decode_request bytes ≡ ok decoded
    pub verifies :
        verify_request p
          (request_principal decoded.frame.request)
          decoded.authenticated_bytes
          decoded.frame.auth
        ≡ ok tt
    pub within_budget :
        (admit s.queue_rate_limiter (request_principal decoded.frame.request) now).0 ≡ true
    pub valid : validate_queue_request decoded.frame.request ≡ ok tt
    pub unpoisoned : s.poisoned ≡ false
    pub unrecorded : stored queue_namespace (request_key decoded) (committed s.relay) ≡ none
    pub carried : committed after.relay ≡ tables_after bytes decoded now (committed s.relay)

  abbrev Unchanged : Service p e → Service p e → Type 0
  Unchanged s after = committed after.relay ≡ committed s.relay

  module _ (bytes : Bytes) (d : DecodedRequest) (now : Timestamp) where
    replay_guard :
        (found : Option ReplayRow) (c : Connection)
        → IsIdle e c
        → found ≡ stored queue_namespace (request_key d) (committed c)
        → let (_, c') = after_replay p e bytes d now (ok found, c) in
          (committed c' ≡ committed c)
          ⊎ ((found ≡ none) × (committed c' ≡ tables_after bytes d now (committed c)))
    unfolding queue_request_exchange
    replay_guard (some row) c idle same = inl refl
    replay_guard none c idle same =
        let a : Arrival = record {
          principal = request_principal d.frame.request;
          request_id = d.frame.request_id;
          request_bytes = bytes;
          request = d.frame.request;
          now = now;
          encode = encode_queue_outcome d.frame.request_id (request_command d.frame.request);
        } in
        let (_, outcome) =
          exchange-Exchanged e queue_namespace a.encode (request_key d) bytes
            (execute_queue_request d.frame.request now) c idle (request_keeps e a) in
        elim outcome [ inl (k, failed, kept) ↦ inl kept | inr (answered, left) ↦ inr (refl, left) ]

    lock_guard :
        (s : Service p e)
        → IsIdle e s.relay
        → let (_, after) = under_lock p e bytes d now s in
          Unchanged s after
          ⊎ ((s.poisoned ≡ false)
              × (stored queue_namespace (request_key d) (committed s.relay) ≡ none)
              × (committed after.relay ≡ tables_after bytes d now (committed s.relay)))
    unfolding queue_replay
    lock_guard s idle = elim (Bool-cases s.poisoned) [
      | inl poisoned ↦ rw poisoned (inl refl)
      | inr whole ↦
          let (idle', kept, found) = lookup-stored e queue_namespace (request_key d) s.relay idle in
          elim found [
            | inl (k, failed) ↦ rw (whole, failed) (inl kept)
            | inr read ↦
                let table = ap (stored queue_namespace (request_key d)) (sym kept) in
                elim (replay_guard (stored queue_namespace (request_key d) (committed s.relay)) _
                  idle' table) [
                    | inl same ↦ rw (whole, read) (inl (same ∙ kept))
                    | inr (free, made) ↦
                        rw (whole, read)
                          (inr (refl, free, made ∙ ap (tables_after bytes d now) kept))
                  ]
          ]
    ]

    admitted_guard :
        (s : Service p e) (a : Bool × RateLimiter Principal)
        → IsIdle e s.relay
        → let (_, after) = admitted p e bytes d now a s in
          Unchanged s after
          ⊎ ((a.0 ≡ true)
              × (validate_queue_request d.frame.request ≡ ok tt)
              × (s.poisoned ≡ false)
              × (stored queue_namespace (request_key d) (committed s.relay) ≡ none)
              × (committed after.relay ≡ tables_after bytes d now (committed s.relay)))
    admitted_guard s (false, l) idle = inl refl
    admitted_guard s (true, l) idle = elim (Result-cases (validate_queue_request d.frame.request)) [
      | inr (refused, invalid) ↦ rw invalid (inl refl)
      | inl (_, valid) ↦
          let s' : Service p e = record s { queue_rate_limiter = l } in
          rw valid (elim (lock_guard s' idle) [
            | inl same ↦ inl same
            | inr (whole, free, made) ↦ inr (refl, refl, whole, free, made)
          ])
    ]

  -- On an idle connection, whatever the engine does within its contract: an exchange leaves the
  -- committed tables as they are, unless the frame decodes, its proof of authenticity verifies for
  -- the principal of its request, that principal is within its budget, the request's values are
  -- valid, the lock is sound, and no record has its principal and identifier. Then the tables are
  -- those of the request carried out, with the record of its response.
  pub exchange_at-guards :
      (bytes : Bytes) (now : Timestamp) (s : Service p e)
      → IsIdle e s.relay
      → let (_, after) = exchange_at p e bytes now s in
        (committed after.relay ≡ committed s.relay) ⊎ Carried bytes now s after
  unfolding exchange_at
  exchange_at-guards bytes now s idle = elim (Result-cases (decode_request bytes)) [
    | inr (x, bad) ↦ rw bad (inl refl)
    | inl (d, good) ↦
        elim (Result-cases (
          verify_request p (request_principal d.frame.request) d.authenticated_bytes
            d.frame.auth)) [
              | inr (x, invalid) ↦ rw (good, invalid) (inl refl)
              | inl (_, verifies) ↦
                  elim (admitted_guard bytes d now s
                    (admit s.queue_rate_limiter (request_principal d.frame.request) now) idle) [
                      | inl same ↦ rw (good, verifies) (inl same)
                      | inr (budget, valid, whole, free, made) ↦
                          rw (good, verifies)
                            (inr (record {
                              decoded = d;
                              decodes = good;
                              verifies = verifies;
                              within_budget = budget;
                              valid = valid;
                              unpoisoned = whole;
                              unrecorded = free;
                              carried = made;
                            }))
                    ]
            ]
  ]

module _ (p : Primitives) (signatures : SignatureLaws p) (e : Engine Db) where
  -- The frame of a request whose values are in range, signed with the key of its principal, gets as
  -- far as the limiter: it is neither malformed nor refused as unauthentic.
  pub exchange_at-signed_frame :
      (key : p.SigningKey) (request_id : RequestId) (request : WireRequest) (now : Timestamp)
      (s : Service p e)
      → key_principal p key ≡ request_principal request
      → length request_id ≡ 16
      → IsWireRequest request
      → let covered = encode_authenticated_request request_id request in
        let d : DecodedRequest = record {
          frame = record {
            request_id = request_id;
            request = request;
            auth = sign_request p key covered;
          };
          authenticated_bytes = covered;
        } in
        let frame = signed_frame p key request_id request in
        exchange_at p e frame now s
        ≡ admitted p e frame d now (admit s.queue_rate_limiter (key_principal p key) now) s
  unfolding exchange_at signed_frame
  exchange_at-signed_frame key request_id request now s owned size valid =
      let covered = encode_authenticated_request request_id request in
      let auth = sign_request p key covered in
      let read =
        decode_request-encode_request
          (record { request_id = request_id; request = request; auth = auth })
          (size, valid, omega (arith, sign_request-length p signatures key covered)) in
      let verified = rw owned at ((verify_request-sign_request p signatures key covered).1) in
      rw (read, verified, owned) refl
