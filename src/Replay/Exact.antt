-- ===== src/Replay/Exact.antt =====
-- An exchange, whatever the engine does within its contract, does what an exchange on the tables
-- alone would do, or reports a storage error and commits nothing.
use cofferwire.Base.{
  Result-cases, ◌≡◌, ◌⊎◌, inl, inr, refl, true, false, Option, none, some, Bytes, Result, ok, err,
  arith, ◌∙◌, sym, ap, bytes_same, pair_same, Option-cases, Bool,
}
use cofferwire.Base.Map
use cofferwire.Storage.{Engine, StorageErrorKind, Failure, DurableRelayError, relay, storage}
use cofferwire.Storage.Program.{Statements, meaning, run}
use cofferwire.Storage.Program.Atomic.{
  IsIdle, Agrees, run-Agrees, committed-run, after_commit-Outcome,
}
use cofferwire.Tables.{ReplayKey, ReplayRow}
use cofferwire.Replay.{
  Namespace, ReplayExchange, respond, stored, put, insert, answer, lookup, after_lookup,
  after_insert, conclude, after_reopen, after_effect, after_begin, exchange,
}

module _ {D : Type 0} (n : Namespace D) where
  -- The record of a response on tables d' that an effect has made of d.
  abbrev pub concluded :
      ReplayKey
      → Bytes
      → Bytes
      → D
      → D
      → Option ReplayRow
      → Result DurableRelayError ReplayExchange × D
  concluded key request response d d' none =
      (ok (respond response), put n key (request, response) d')
  concluded key request response d d' (some row) = (answer request (some row), d)

  -- An exchange without an engine: a stored record answers, and else the effect is done and recorded.
  abbrev pub promised :
      {E A : Type 0}
      → (Result E A → Bytes)
      → ReplayKey
      → Bytes
      → D
      → Result (Failure E) A × D
      → Result DurableRelayError ReplayExchange × D
  promised encode key request d (ok a, d') =
      concluded key request (encode (ok a)) d d' (stored n key d)
  promised encode key request d (err (relay x), d') =
      concluded key request (encode (err x)) d d (stored n key d)
  promised encode key request d (err (storage k), d') = (err (storage k), d)

  -- The effect leaves the records alone.
  abbrev pub KeepsRecords : {E A : Type 0} → Statements E D A → Type 0
  KeepsRecords effect = (d : D) → n.records (meaning effect d).1 ≡ n.records d

module _ {D : Type 0} (e : Engine D) (n : Namespace D) where
  open e use {Connection, tables, committed, begin, execute, commit, rollback}

  -- What may have become of an exchange on tables d that should have come to m.
  abbrev pub Exchanged :
      D
      → Result DurableRelayError ReplayExchange × D
      → Result DurableRelayError ReplayExchange × Connection
      → Type 0
  Exchanged d m (r, c) =
      IsIdle e c
      × (((k : StorageErrorKind) × (r ≡ err (storage k)) × (committed c ≡ d))
          ⊎ ((r ≡ m.0) × (committed c ≡ m.1)))

  failed-Exchanged :
      (d : D) (m : Result DurableRelayError ReplayExchange × D) (k : StorageErrorKind)
      (c : Connection)
      → committed c ≡ d
      → Exchanged d m (err (storage k), rollback c)
  failed-Exchanged d m k c h = (
    e.rollback-tables c ∙ sym (e.rollback-committed c),
    inl (k, refl, e.rollback-committed c ∙ h),
  )

  -- A read outside a transaction leaves the connection idle.
  read-IsIdle :
      {A : Type 0} (f : D → A) (c : Connection)
      → IsIdle e c
      → IsIdle e (execute (λ d. some (f d, d)) c).1
  read-IsIdle f c idle =
      e.execute-read f c ∙ (idle ∙ sym (e.execute-committed (λ d. some (f d, d)) c))

  read-found :
      (key : ReplayKey) (d : D) (c : Connection) (o : Option ReplayRow)
      → tables c ≡ d
      → (execute (λ d. some (stored n key d, d)) c).0 ≡ ok o
      → o ≡ stored n key d
  read-found key d c o h done =
      let seen = e.execute-ok (λ d. some (stored n key d, d)) c o done in
      ground (arith, seen, ap (stored n key) h)

  lookup-Exchanged :
      (key : ReplayKey) (request : Bytes) (d : D) (row : ReplayRow) (c : Connection)
      → IsIdle e c
      → committed c ≡ d
      → stored n key d ≡ some row
      → Exchanged d (answer request (some row), d) (after_lookup e n request (lookup e n key c))
  unfolding lookup run
  lookup-Exchanged key request d row c idle h found =
      elim (Result-cases (execute (λ d. some (stored n key d, d)) c).0) [
        | inl (o, done) ↦
            rw (done, run, after_lookup)
              (
                read-IsIdle (stored n key) c idle,
                inr (
                  ap (answer request) (read-found key d c o (idle ∙ h) done ∙ found),
                  e.execute-committed _ c ∙ h,
                ),
              )
        | inr (k, failed) ↦
            rw (failed, run, after_lookup)
              (read-IsIdle (stored n key) c idle, inl (k, refl, e.execute-committed _ c ∙ h))
      ]

  -- An insertion answers whether the key was free.
  abbrev Inserted : ReplayKey → ReplayRow → D → Bool → D → Type 0
  Inserted key row d b d' =
      ((stored n key d ≡ none) × (b ≡ true) × (d' ≡ put n key row d))
      ⊎ ((old : ReplayRow) × (stored n key d ≡ some old) × (b ≡ false))

  insert-Inserted :
      (key : ReplayKey) (row : ReplayRow) (d : D) (b : Bool) (d' : D)
      → insert n key row d ≡ some (b, d')
      → Inserted key row d b d'
  insert-Inserted key row d b d' h = elim (Option-cases (stored n key d)) [
    | inl free ↦
        let h' : some (true, put n key row d) ≡ some (b, d') = rw (insert, free) at h in
        inl (free, ground (arith, h'), ground (arith, h'))
    | inr (old, taken) ↦
        let h' : some (false, d) ≡ some (b, d') = rw (insert, taken) at h in
        inr (old, taken, ground (arith, h'))
  ]

  insert-Exchanged :
      (key : ReplayKey) (request response : Bytes) (d d' : D) (b : Bool) (c : Connection)
      → committed c ≡ d
      → stored n key d' ≡ stored n key d
      → Inserted key (request, response) d' b (tables c)
      → Exchanged d
          (concluded n key request response d d' (stored n key d))
          (after_insert e n key request response (ok b, c))
  insert-Exchanged key request response d d' b c h same (inl (free, done, left)) =
      rw (done, sym same, free)
        (after_commit-Outcome e d (put n key (request, response) d') (respond response) c h left)
  insert-Exchanged key request response d d' b c h same (inr (old, taken, done)) =
      rw (done, sym same, taken)
        (lookup-Exchanged key request d old (rollback c)
          (e.rollback-tables c ∙ sym (e.rollback-committed c)) (e.rollback-committed c ∙ h)
          (sym same ∙ taken))

  -- The record of a response, after an effect that has left the records alone.
  conclude-Exchanged :
      (key : ReplayKey) (request response : Bytes) (d d' : D) (c : Connection)
      → committed c ≡ d
      → tables c ≡ d'
      → stored n key d' ≡ stored n key d
      → Exchanged d
          (concluded n key request response d d' (stored n key d))
          (conclude e n key request response c)
  unfolding conclude run
  conclude-Exchanged key request response d d' c h t same =
      elim (Result-cases (execute (insert n key (request, response)) c).0) [
        | inl (b, done) ↦
            rw (done, run)
              (insert-Exchanged key request response d d' b _ (e.execute-committed _ c ∙ h) same (
                insert-Inserted key (request, response) d' b _
                  (rw t at (e.execute-ok (insert n key (request, response)) c b done))))
        | inr (k, failed) ↦
            rw (failed, run)
              (failed-Exchanged d (concluded n key request response d d' (stored n key d)) k _
                (e.execute-committed _ c ∙ h))
      ]

  reopen-Exchanged :
      (key : ReplayKey) (request response : Bytes) (d : D) (c : Connection)
      → IsIdle e c
      → committed c ≡ d
      → Exchanged d
          (concluded n key request response d d (stored n key d))
          (after_reopen e n key request response (begin c))
  reopen-Exchanged key request response d c idle h = elim (Result-cases (begin c).0) [
    | inl (_, begun) ↦
        rw (begun, after_reopen)
          (conclude-Exchanged key request response d d (begin c).1 (e.begin-committed c ∙ h)
            (e.begin-tables c idle ∙ h) refl)
    | inr (k, failed) ↦
        rw (failed, after_reopen)
          (
            e.begin-tables c idle ∙ sym (e.begin-committed c),
            inl (k, refl, e.begin-committed c ∙ h),
          )
  ]

  effect-Exchanged :
      {E A : Type 0} (encode : Result E A → Bytes) (key : ReplayKey) (request : Bytes) (d : D)
      (m : Result (Failure E) A × D) (r : Result (Failure E) A) (c : Connection)
      → committed c ≡ d
      → n.records m.1 ≡ n.records d
      → Agrees e (r, c) m
      → Exchanged d (promised n encode key request d m) (after_effect e n encode key request (r, c))
  effect-Exchanged encode key request d (x, d') r c h keeps (inl (k, failed)) =
      rw failed (failed-Exchanged d _ k c h)
  effect-Exchanged encode key request d (ok a, d') r c h keeps (inr (same, seen)) =
      rw same
        (conclude-Exchanged key request (encode (ok a)) d d' c h seen (ap (Map.get key) keeps))
  effect-Exchanged encode key request d (err (storage k), d') r c h keeps (inr (same, seen)) =
      rw same (failed-Exchanged d _ k c h)
  effect-Exchanged encode key request d (err (relay x), d') r c h keeps (inr (same, seen)) =
      rw same (
        reopen-Exchanged key request (encode (err x)) d (rollback c)
          (e.rollback-tables c ∙ sym (e.rollback-committed c)) (e.rollback-committed c ∙ h))

  -- Of an idle connection and an effect that leaves the records alone, whatever the engine does
  -- within its contract: an exchange leaves the connection idle; it either reports a storage error
  -- and commits nothing, or it answers and commits as promised: a stored record of the request
  -- answers and commits nothing, one of another request is a conflict, and without a record the
  -- effect, nothing of it if it is rejected, is committed with the record of its response.
  pub exchange-Exchanged :
      {E A : Type 0} (encode : Result E A → Bytes) (key : ReplayKey) (request : Bytes)
      (effect : Statements E D A) (c : Connection)
      → IsIdle e c
      → KeepsRecords n effect
      → let (answered, c') = exchange e n encode key request effect c in
        let (promise, d) =
          promised n encode key request (committed c) (meaning effect (committed c)) in
        IsIdle e c'
        × (((k : StorageErrorKind) × (answered ≡ err (storage k)) × (committed c' ≡ committed c))
            ⊎ ((answered ≡ promise) × (committed c' ≡ d)))
  unfolding exchange
  exchange-Exchanged encode key request effect c idle keeps = elim (Result-cases (begin c).0) [
    | inl (_, begun) ↦
        rw (begun, after_begin)
          (effect-Exchanged encode key request (committed c) (meaning effect (committed c))
            (run e effect (begin c).1).0 (run e effect (begin c).1).1
            (committed-run e effect (begin c).1 ∙ e.begin-committed c) (keeps (committed c))
            (rw (e.begin-tables c idle) at (run-Agrees e effect (begin c).1)))
    | inr (k, failed) ↦
        rw (failed, after_begin)
          (e.begin-tables c idle ∙ sym (e.begin-committed c), inl (k, refl, e.begin-committed c))
  ]
