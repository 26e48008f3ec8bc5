-- ===== src/Storage/Program/Atomic.antt =====
-- A transaction does what its program means, or nothing at all and reports a storage error.
use cofferwire.Base.{Result-cases, ◌≡◌, ◌⊎◌, inl, inr, refl, Result, ok, err, arith, ◌∙◌, sym}
use cofferwire.Storage.{StorageErrorKind, Failure, storage, Engine}
use cofferwire.Storage.Program.{
  Statements, ret, fail, statement, meaning, run, transact, after_run, after_commit, after_begin,
}

-- The tables after a transaction: those of its program, or on an error those from before.
abbrev pub settled : {E D A : Type 0} → D → Result (Failure E) A × D → D
settled d (ok a, d') = d'
settled d (err x, d') = d

module _ {D : Type 0} (e : Engine D) where
  open e use {Connection, tables, committed, begin, execute, commit, rollback}

  pub committed-run :
      {E A : Type 0} (p : Statements E D A) (c : Connection) → committed (run e p c).1 ≡ committed c
  unfolding run
  committed-run (ret a) c = refl
  committed-run (fail x) c = refl
  committed-run (statement f next) c = elim (Result-cases (execute f c).0) [
    | inl (b, h) ↦ rw (h, run) (committed-run (next b) (execute f c).1 ∙ e.execute-committed f c)
    | inr (k, h) ↦ rw (h, run) (e.execute-committed f c)
  ]

  -- The outcome of a program is that of its meaning, or a storage error.
  abbrev pub Agrees :
      {E A : Type 0} → Result (Failure E) A × Connection → Result (Failure E) A × D → Type 0
  Agrees (r, c) (r', d') =
      ((k : StorageErrorKind) × (r ≡ err (storage k))) ⊎ ((r ≡ r') × (tables c ≡ d'))

  pub run-Agrees :
      {E A : Type 0} (p : Statements E D A) (c : Connection)
      → Agrees (run e p c) (meaning p (tables c))
  unfolding run meaning
  run-Agrees (ret a) c = inr (refl, refl)
  run-Agrees (fail x) c = inr (refl, refl)
  run-Agrees (statement f next) c = elim (Result-cases (execute f c).0) [
    | inl (b, h) ↦
        rw (h, run) (rw (e.execute-ok f c b h, meaning) (run-Agrees (next b) (execute f c).1))
    | inr (k, h) ↦ rw (h, run) (inl (k, refl))
  ]

  -- No transaction is open: the connection reads what is committed.
  abbrev pub IsIdle : Connection → Type 0
  IsIdle c = tables c ≡ committed c

  -- What may have become of a transaction on tables d whose program means m.
  abbrev pub Outcome :
      {E A : Type 0} → D → Result (Failure E) A × D → Result (Failure E) A × Connection → Type 0
  Outcome d m (r, c) =
      ((k : StorageErrorKind) × (r ≡ err (storage k)) × (committed c ≡ d))
      ⊎ ((r ≡ m.0) × (committed c ≡ settled d m))

  pub rolled_back :
      {E A : Type 0} (d : D) (m : Result (Failure E) A × D) (k : StorageErrorKind) (c : Connection)
      → committed c ≡ d
      → IsIdle (rollback c) × Outcome d m (err (storage k), rollback c)
  rolled_back d m k c h = (
    e.rollback-tables c ∙ sym (e.rollback-committed c),
    inl (k, refl, e.rollback-committed c ∙ h),
  )

  pub after_commit-Outcome :
      {E A : Type 0} (d d' : D) (a : A) (c : Connection)
      → committed c ≡ d
      → tables c ≡ d'
      → let (r, c') = after_commit {E = E} e a (commit c) in
        IsIdle c' × Outcome d (ok a, d') (r, c')
  after_commit-Outcome d d' a c h t = elim (Result-cases (commit c).0) [
    | inl (_, done) ↦
        let (kept, seen) = e.commit-ok c done in
        rw (done, after_commit) (seen ∙ sym kept, inr (refl, kept ∙ t))
    | inr (k, failed) ↦
        rw (failed, after_commit)
          (rolled_back d (ok a, d') k (commit c).1 (e.commit-err c k failed ∙ h))
  ]

  after_run-Outcome :
      {E A : Type 0} (d : D) (m : Result (Failure E) A × D) (r : Result (Failure E) A)
      (c : Connection)
      → committed c ≡ d
      → Agrees (r, c) m
      → let (r', c') = after_run e (r, c) in IsIdle c' × Outcome d m (r', c')
  after_run-Outcome d m (err x) c h (inl (k, failed)) = rw failed (rolled_back d m k c h)
  after_run-Outcome d m (err x) c h (inr (same, seen)) = (
    e.rollback-tables c ∙ sym (e.rollback-committed c),
    inr (same, e.rollback-committed c ∙ (h ∙ settled-err d m x (sym same))),
  )
    where
      settled-err :
          {E A : Type 0} (d : D) (m : Result (Failure E) A × D) (x : Failure E)
          → m.0 ≡ err x
          → d ≡ settled d m
      settled-err d (ok a, d') x q = absurd (ground arith)
      settled-err d (err y, d') x q = refl
  after_run-Outcome d m (ok a) c h (inl (k, failed)) = absurd (ground arith)
  after_run-Outcome d (ok b, d') (ok a) c h (inr (same, seen)) =
      rw (← same) (after_commit-Outcome d d' a c h seen)
  after_run-Outcome d (err x, d') (ok a) c h (inr (same, seen)) = absurd (ground arith)

  -- Of an idle connection, whatever the engine does within its contract: a transaction leaves the
  -- connection idle; it either reports a storage error and commits nothing, or it returns what
  -- its program means and commits what its program means, which is nothing on an error.
  pub transact-Outcome :
      {E A : Type 0} (p : Statements E D A) (c : Connection)
      → IsIdle c
      → IsIdle (transact e p c).1 × Outcome (committed c) (meaning p (committed c)) (transact e p c)
  unfolding transact
  transact-Outcome p c idle = elim (Result-cases (begin c).0) [
    | inl (_, begun) ↦
        rw (begun, after_begin)
          (after_run-Outcome (committed c) (meaning p (committed c)) (run e p (begin c).1).0
            (run e p (begin c).1).1 (committed-run p (begin c).1 ∙ e.begin-committed c)
            (rw (e.begin-tables c idle) at (run-Agrees p (begin c).1)))
    | inr (k, failed) ↦
        rw (failed, after_begin)
          (e.begin-tables c idle ∙ sym (e.begin-committed c), inl (k, refl, e.begin-committed c))
  ]
