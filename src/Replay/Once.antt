-- ===== src/Replay/Once.antt =====
-- A recorded response is final: retries get it, and nothing replaces it.
use cofferwire.Base.{
  ◌≡◌, ◌⊎◌, inl, inr, refl, some, none, Bytes, Result, ok, err, arith, ◌∙◌, sym, ap, bytes_same,
  pair_same, Option-cases, Bool-cases, List, [], ◌∷◌, if◌then◌else◌, ◌==◌, bytes_beq_iff,
}
use cofferwire.Base.Map
use cofferwire.Base.Map.{get-insert_ne, get-insert_self}
use cofferwire.Storage.{Engine, StorageErrorKind, Failure, DurableRelayError, relay, storage}
use cofferwire.Storage.Program.{Statements, meaning}
use cofferwire.Storage.Program.Atomic.{IsIdle}
use cofferwire.Tables.{ReplayKey, ReplayRow}
use cofferwire.Replay.{Namespace, ReplayExchange, respond, conflict, stored, put, answer, exchange}
use cofferwire.Replay.Exact.{KeepsRecords, promised, concluded, exchange-Exchanged}

module _ {D : Type 0} (n : Namespace D) where
  stored-put :
      (key other : ReplayKey) (row : ReplayRow) (d : D)
      → stored n other (put n key row d) ≡ Map.get other (Map.insert key row (n.records d))
  stored-put key other row d =
      ap (Map.get other) (n.records-with_records (Map.insert key row (n.records d)) d)

  -- A record outlives an exchange.
  concluded-keeps :
      (key other : ReplayKey) (request response : Bytes) (row : ReplayRow) (d d' : D)
      → n.records d' ≡ n.records d
      → stored n other d ≡ some row
      → stored n other (concluded n key request response d d' (stored n key d)).1 ≡ some row
  concluded-keeps key other request response row d d' keeps found =
      elim (Option-cases (stored n key d)) [
        | inl free ↦ rw free (
            stored-put key other (request, response) d'
            ∙ (get-insert_ne key other (request, response) (n.records d')
                  (λ q. ground (arith, ap (λ k. stored n k d) q, free, found))
                ∙ (ap (Map.get other) keeps ∙ found)))
        | inr (old, taken) ↦ rw taken found
      ]

  promised-keeps :
      {E A : Type 0} (encode : Result E A → Bytes) (key other : ReplayKey) (request : Bytes)
      (row : ReplayRow) (d : D) (m : Result (Failure E) A × D)
      → n.records m.1 ≡ n.records d
      → stored n other d ≡ some row
      → stored n other (promised n encode key request d m).1 ≡ some row
  promised-keeps encode key other request row d (ok a, d') keeps found =
      concluded-keeps key other request (encode (ok a)) row d d' keeps found
  promised-keeps encode key other request row d (err (relay x), d') keeps found =
      concluded-keeps key other request (encode (err x)) row d d refl found
  promised-keeps encode key other request row d (err (storage k), d') keeps found = found

  answer-match :
      (request reply stored_request stored_response : Bytes)
      → answer request (some (stored_request, stored_response)) ≡ ok (respond reply)
      → (stored_request ≡ request) × (stored_response ≡ reply)
  answer-match request reply stored_request stored_response h =
      elim (Bool-cases (stored_request == request)) [
        | inl same ↦
            let h' : ◌≡◌ {A = Result DurableRelayError ReplayExchange}
                (ok (respond stored_response)) (ok (respond reply)) =
              rw same at h in
            ((bytes_beq_iff stored_request request).0 same, ground (arith, h'))
        | inr other ↦
            let h' : ◌≡◌ {A = Result DurableRelayError ReplayExchange} (ok conflict)
                (ok (respond reply)) =
              rw other at h in
            absurd (ground (arith, h'))
      ]

  -- A response that is given is recorded.
  concluded-stored :
      (key : ReplayKey) (request response reply : Bytes) (d d' : D)
      → (concluded n key request response d d' (stored n key d)).0 ≡ ok (respond reply)
      → stored n key (concluded n key request response d d' (stored n key d)).1
        ≡ some (request, reply)
  concluded-stored key request response reply d d' h = elim (Option-cases (stored n key d)) [
    | inl free ↦
        let h' : ◌≡◌ {A = Result DurableRelayError ReplayExchange} (ok (respond response))
            (ok (respond reply)) =
          rw free at h in
        rw free (
          stored-put key key (request, response) d'
          ∙ (get-insert_self key (request, response) (n.records d') ∙ ground (arith, h')))
    | inr ((stored_request, stored_response), taken) ↦
        let (asked, given) =
          answer-match request reply stored_request stored_response (rw taken at h) in
        rw taken (taken ∙ rw (asked, given) refl)
  ]

  promised-stored :
      {E A : Type 0} (encode : Result E A → Bytes) (key : ReplayKey) (request reply : Bytes) (d : D)
      (m : Result (Failure E) A × D)
      → (promised n encode key request d m).0 ≡ ok (respond reply)
      → stored n key (promised n encode key request d m).1 ≡ some (request, reply)
  promised-stored encode key request reply d (ok a, d') h =
      concluded-stored key request (encode (ok a)) reply d d' h
  promised-stored encode key request reply d (err (relay x), d') h =
      concluded-stored key request (encode (err x)) reply d d h
  promised-stored encode key request reply d (err (storage k), d') h = absurd (ground (arith, h))

  -- What an exchange comes to when there is a record.
  promised-answer :
      {E A : Type 0} (encode : Result E A → Bytes) (key : ReplayKey) (request : Bytes)
      (row : ReplayRow) (d : D) (m : Result (Failure E) A × D)
      → stored n key d ≡ some row
      → let p = promised n encode key request d m in
        (((k : StorageErrorKind) × (p.0 ≡ err (storage k))) ⊎ (p.0 ≡ answer request (some row)))
        × (p.1 ≡ d)
  promised-answer encode key request row d (ok a, d') found = rw found (inr refl, refl)
  promised-answer encode key request row d (err (relay x), d') found = rw found (inr refl, refl)
  promised-answer encode key request row d (err (storage k), d') found = (inl (k, refl), refl)

  -- Without a record an exchange comes to no conflict.
  promised-unrecorded :
      {E A : Type 0} (encode : Result E A → Bytes) (key : ReplayKey) (request : Bytes) (d : D)
      (m : Result (Failure E) A × D)
      → stored n key d ≡ none
      → ¬ ((promised n encode key request d m).0 ≡ ok conflict)
  promised-unrecorded encode key request d (ok a, d') free h =
      let given : ◌≡◌ {A = Result DurableRelayError ReplayExchange} (ok (respond (encode (ok a))))
          (ok conflict) =
        rw free at h in
      absurd (ground (arith, given))
  promised-unrecorded encode key request d (err (relay x), d') free h =
      let given : ◌≡◌ {A = Result DurableRelayError ReplayExchange} (ok (respond (encode (err x))))
          (ok conflict) =
        rw free at h in
      absurd (ground (arith, given))
  promised-unrecorded encode key request d (err (storage k), d') free h = absurd (ground (arith, h))

-- One exchange of a history.
pub record Job (D : Type 0) : Type 1 where
  pub Error : Type 0
  pub Outcome : Type 0
  pub key : ReplayKey
  pub request : Bytes
  pub effect : Statements Error D Outcome
  pub encode : Result Error Outcome → Bytes

module _ {D : Type 0} (e : Engine D) (n : Namespace D) where
  open e use {Connection, committed}

  abbrev pub exchange_job :
      Job D → Connection → Result DurableRelayError ReplayExchange × Connection
  exchange_job job c = exchange e n job.encode job.key job.request job.effect c

  -- Exchanges in turn.
  unfoldable pub exchanges : List (Job D) → Connection → Connection
  exchanges [] c = c
  exchanges (job ∷ jobs) c = exchanges jobs (exchange_job job c).1

  abbrev pub AllKeep : List (Job D) → Type 0
  AllKeep [] = Unit
  AllKeep (job ∷ jobs) = KeepsRecords n job.effect × AllKeep jobs

  -- An idle connection whose tables hold a record.
  abbrev pub Recorded : ReplayKey → ReplayRow → Connection → Type 0
  Recorded key row c = IsIdle e c × (stored n key (committed c) ≡ some row)

  pub job-Recorded :
      (job : Job D) (key : ReplayKey) (row : ReplayRow) (c : Connection)
      → KeepsRecords n job.effect
      → Recorded key row c
      → Recorded key row (exchange_job job c).1
  job-Recorded job key row c keeps (idle, found) =
      let d = committed c in
      let (idle', outcome) =
        exchange-Exchanged e n job.encode job.key job.request job.effect c idle keeps in
      elim outcome [
        | inl (k, failed, same) ↦ (idle', rw same found)
        | inr (answered, left) ↦ (
          idle',
          rw left (
              promised-keeps n job.encode job.key key job.request row d (meaning job.effect d)
                (keeps d) found),
        )
      ]

  exchanges-Recorded :
      (jobs : List (Job D)) (key : ReplayKey) (row : ReplayRow) (c : Connection)
      → AllKeep jobs
      → Recorded key row c
      → Recorded key row (exchanges jobs c)
  unfolding exchanges
  exchanges-Recorded [] key row c keep r = r
  exchanges-Recorded (job ∷ jobs) key row c (keeps, keep) r =
      exchanges-Recorded jobs key row (exchange_job job c).1 keep
        (job-Recorded job key row c keeps r)

  pub job-stored :
      (job : Job D) (reply : Bytes) (c : Connection)
      → IsIdle e c
      → KeepsRecords n job.effect
      → (exchange_job job c).0 ≡ ok (respond reply)
      → Recorded job.key (job.request, reply) (exchange_job job c).1
  job-stored job reply c idle keeps h =
      let d = committed c in
      let (idle', outcome) =
        exchange-Exchanged e n job.encode job.key job.request job.effect c idle keeps in
      elim outcome [
        | inl (k, failed, same) ↦ absurd (ground (arith, failed, h))
        | inr (answered, left) ↦ (
          idle',
          rw left (
              promised-stored n job.encode job.key job.request reply d (meaning job.effect d)
                (sym answered ∙ h)),
        )
      ]

  pub job-unrecorded :
      (job : Job D) (c : Connection)
      → IsIdle e c
      → KeepsRecords n job.effect
      → stored n job.key (committed c) ≡ none
      → ¬ ((exchange_job job c).0 ≡ ok conflict)
  job-unrecorded job c idle keeps free h =
      let (_, outcome) =
        exchange-Exchanged e n job.encode job.key job.request job.effect c idle keeps in
      elim outcome [
        | inl (k, failed, same) ↦ absurd (ground (arith, failed, h))
        | inr (answered, left) ↦
            promised-unrecorded n job.encode job.key job.request (committed c)
              (meaning job.effect (committed c)) free (sym answered ∙ h)
      ]

  pub job-answer :
      (job : Job D) (row : ReplayRow) (c : Connection)
      → KeepsRecords n job.effect
      → Recorded job.key row c
      → let (r, c') = exchange_job job c in
        (((k : StorageErrorKind) × (r ≡ err (storage k))) ⊎ (r ≡ answer job.request (some row)))
        × (committed c' ≡ committed c)
  job-answer job row c keeps (idle, found) =
      let d = committed c in
      let (idle', outcome) =
        exchange-Exchanged e n job.encode job.key job.request job.effect c idle keeps in
      let (kind, same_tables) =
        promised-answer n job.encode job.key job.request row d (meaning job.effect d) found in
      elim outcome [
        | inl (k, failed, same) ↦ (inl (k, failed), same)
        | inr (answered, left) ↦ (
          elim kind [
            | inl (k, failed) ↦ inl (k, answered ∙ failed)
            | inr replied ↦ inr (answered ∙ replied)
          ],
          left ∙ same_tables,
        )
      ]

  -- On an idle connection, for effects that leave the records alone, and whatever the engine does
  -- within its contract: once an exchange has given a response, and after any later exchanges, an
  -- exchange with the same principal and request identifier commits nothing, and it either reports
  -- a storage error or answers from that response: the response itself for the same request bytes,
  -- and a conflict for others.
  pub exchange_once :
      (first : Job D) (jobs : List (Job D)) (again : Job D) (reply : Bytes) (c : Connection)
      → IsIdle e c
      → KeepsRecords n first.effect
      → AllKeep jobs
      → KeepsRecords n again.effect
      → again.key ≡ first.key
      → (exchange_job first c).0 ≡ ok (respond reply)
      → let c' = exchanges jobs (exchange_job first c).1 in
        let (r, last) = exchange_job again c' in
        (((k : StorageErrorKind) × (r ≡ err (storage k)))
          ⊎ (r ≡ (if first.request == again.request then ok (respond reply) else ok conflict)))
        × (committed last ≡ committed c')
  exchange_once first jobs again reply c idle keeps keep keeps' same h =
      let (idle', found) =
        exchanges-Recorded jobs first.key (first.request, reply) (exchange_job first c).1 keep
          (job-stored first reply c idle keeps h) in
      job-answer again (first.request, reply) (exchanges jobs (exchange_job first c).1) keeps'
        (
          idle',
          ap (λ key. stored n key (committed (exchanges jobs (exchange_job first c).1))) same
              ∙ found,
        )
