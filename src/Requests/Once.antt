-- ===== src/Requests/Once.antt =====
-- A request of the wire is carried out once.
use cofferwire.Base.{
  ◌≡◌, ◌⊎◌, refl, List, Result, ok, err, Bytes, bytes_same, ap, [], ◌∷◌, if◌then◌else◌, ◌==◌, ◌∙◌,
}
use cofferwire.Types.{Principal, RequestId, Timestamp}
use cofferwire.Policy.{RelayError}
use cofferwire.Storage.{Engine, DurableRelayError, StorageErrorKind, storage}
use cofferwire.Storage.Program.Atomic.{IsIdle}
use cofferwire.Tables.{Db}
use cofferwire.Replay.{ReplayExchange, respond, conflict}
use cofferwire.Replay.Exact.{KeepsRecords}
use cofferwire.Replay.Once.{Job, exchanges, AllKeep, exchange_once}
use cofferwire.Wire.{WireRequest, ResponseBody}
use cofferwire.Requests.{execute_queue_request, queue_namespace, queue_request_exchange}
use cofferwire.Requests.Quiet.{Untouched-keeps}
use cofferwire.Requests.Records.{Untouched-execute_queue_request}

-- A request that reaches the durable relay.
pub record Arrival : Type 0 where
  pub principal : Principal
  pub request_id : RequestId
  pub request_bytes : Bytes
  pub request : WireRequest
  pub now : Timestamp
  pub encode : Result RelayError ResponseBody → Bytes

module _ (e : Engine Db) where
  open e use {Connection, committed}

  abbrev pub arrive : Arrival → Connection → Result DurableRelayError ReplayExchange × Connection
  arrive a c =
      queue_request_exchange e a.principal a.request_id a.request_bytes a.request a.now a.encode c

  -- Requests in turn.
  unfoldable pub arrive_all : List Arrival → Connection → Connection
  arrive_all [] c = c
  arrive_all (a ∷ arrivals) c = arrive_all arrivals (arrive a c).1

  abbrev pub to_job : Arrival → Job Db
  to_job a = record {
    Error = RelayError;
    Outcome = ResponseBody;
    key = (a.principal, a.request_id);
    request = a.request_bytes;
    effect = execute_queue_request a.request a.now;
    encode = a.encode;
  }

  abbrev to_jobs : List Arrival → List (Job Db)
  to_jobs [] = []
  to_jobs (a ∷ arrivals) = to_job a ∷ to_jobs arrivals

  pub request_keeps :
      (a : Arrival) → KeepsRecords queue_namespace (execute_queue_request a.request a.now)
  request_keeps a db =
      Untouched-keeps (execute_queue_request a.request a.now) db
        (Untouched-execute_queue_request a.request a.now)

  arrive_all-exchanges :
      (arrivals : List Arrival) (c : Connection)
      → exchanges e queue_namespace (to_jobs arrivals) c ≡ arrive_all arrivals c
  unfolding arrive_all exchanges queue_request_exchange
  arrive_all-exchanges [] c = refl
  arrive_all-exchanges (a ∷ arrivals) c = arrive_all-exchanges arrivals (arrive a c).1

  to_job-AllKeep : (arrivals : List Arrival) → AllKeep e queue_namespace (to_jobs arrivals)
  to_job-AllKeep [] = tt
  to_job-AllKeep (a ∷ arrivals) = (request_keeps a, to_job-AllKeep arrivals)

  -- On an idle connection, whatever the engine does within its contract: once a request has been
  -- given a response, and after any later requests of any principals, a request of the same
  -- principal with the same identifier commits nothing, whatever it asks and whenever it comes: it
  -- is answered by a storage error, or from that response, which is given again for the same
  -- bytes, and is a conflict for others.
  pub request_once :
      (first again : Arrival) (between : List Arrival) (reply : Bytes) (c : Connection)
      → IsIdle e c
      → again.principal ≡ first.principal
      → again.request_id ≡ first.request_id
      → (arrive first c).0 ≡ ok (respond reply)
      → let c' = arrive_all between (arrive first c).1 in
        let (r, last) = arrive again c' in
        (((k : StorageErrorKind) × (r ≡ err (storage k)))
          ⊎ (r ≡ (
              if first.request_bytes == again.request_bytes
              then ok (respond reply)
              else ok conflict)))
        × (committed last ≡ committed c')
  unfolding queue_request_exchange
  request_once first again between reply c idle same_principal same_id h =
      rw (arrive_all-exchanges between (arrive first c).1) at (
        exchange_once e queue_namespace (to_job first) (to_jobs between) (to_job again) reply c idle
          (request_keeps first) (to_job-AllKeep between) (request_keeps again)
          (ap (λ p. (p, again.request_id)) same_principal ∙ ap (λ i. (first.principal, i)) same_id)
          h)
