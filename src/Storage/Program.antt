-- ===== src/Storage/Program.antt =====
-- Sequences of statements: what they mean on the tables, how an engine runs them, and that a
-- transaction does all of it or nothing.
pub mod Atomic
use cofferwire.Base.{ℕ, Option, none, some, Result, ok, err}
use cofferwire.Policy.{RelayError}
use cofferwire.Storage.{StorageErrorKind, other, Failure, relay, storage, Engine}

-- Statements on tables D, that may reject with an E.
pub data Statements (E : Type 0) (D : Type 0) (A : Type 0) : Type 1 where
  ret : A → Statements E D A
  fail : Failure E → Statements E D A
  statement : {B : Type 0} → (D → Option (B × D)) → (B → Statements E D A) → Statements E D A

abbrev pub Program : Type 0 → Type 0 → Type 1
Program = Statements RelayError

module _ {E D : Type 0} where
  infixl 5 ◌>>=◌ ◌>>◌
  -- The `?` operator between the steps of a function.
  abbrev pub ◌>>=◌ : {A B : Type 0} → Statements E D A → (A → Statements E D B) → Statements E D B
  ret a >>= k = k a
  fail e >>= k = fail e
  statement f next >>= k = statement f (λ b. next b >>= k)

  abbrev pub ◌>>◌ : {B : Type 0} → Statements E D (Unit {0}) → Statements E D B → Statements E D B
  p >> q = p >>= λ _. q

  abbrev pub update : {B : Type 0} → (D → Option (B × D)) → Statements E D B
  update f = statement f ret

  -- A statement that reads.
  abbrev pub query : {B : Type 0} → (D → B) → Statements E D B
  query f = update (λ d. some (f d, d))

  -- A statement that writes and meets no constraint.
  abbrev pub write : (D → D) → Statements E D (Unit {0})
  write f = update (λ d. some (tt, f d))

  -- What a program does to the tables if no statement fails in the engine.
  unfoldable pub meaning : {A : Type 0} → Statements E D A → D → Result (Failure E) A × D
  meaning (ret a) d = (ok a, d)
  meaning (fail e) d = (err e, d)
  meaning (statement f next) d = elim (f d) [
    | none ↦ (err (storage other), d)
    | some (b, d') ↦ meaning (next b) d'
  ]

module _ {E D : Type 0} (e : Engine D) where
  open e use {Connection, begin, execute, commit, rollback}

  -- An error of the engine ends the program.
  unfoldable pub run :
      {A : Type 0} → Statements E D A → Connection → Result (Failure E) A × Connection
  run (ret a) c = (ok a, c)
  run (fail x) c = (err x, c)
  run (statement f next) c = elim (execute f c).0 [
    | ok b ↦ run (next b) (execute f c).1
    | err k ↦ (err (storage k), (execute f c).1)
  ]

  abbrev pub after_commit :
      {A : Type 0}
      → A
      → Result StorageErrorKind (Unit {0}) × Connection
      → Result (Failure E) A × Connection
  after_commit a (ok _, c) = (ok a, c)
  after_commit a (err k, c) = (err (storage k), rollback c)

  -- A transaction that is dropped rolls back.
  abbrev after_run :
      {A : Type 0} → Result (Failure E) A × Connection → Result (Failure E) A × Connection
  after_run (ok a, c) = after_commit a (commit c)
  after_run (err x, c) = (err x, rollback c)

  abbrev after_begin :
      {A : Type 0}
      → Statements E D A
      → Result StorageErrorKind (Unit {0}) × Connection
      → Result (Failure E) A × Connection
  after_begin p (ok _, c) = after_run (run p c)
  after_begin p (err k, c) = (err (storage k), c)

  -- A method of DurableRelay: an immediate transaction around its statements.
  unfoldable pub transact :
      {A : Type 0} → Statements E D A → Connection → Result (Failure E) A × Connection
  unfolding run
  transact p c = after_begin p (begin c)
