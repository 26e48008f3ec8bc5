-- ===== src/Storage/Memory.antt =====
-- An engine that never fails: the tables in memory, and the committed ones beside them.
use cofferwire.Base.{◌≡◌, refl, none, some, Option, arith, Result, ok, err}
use cofferwire.Storage.{Engine, StorageErrorKind, other}

abbrev pub answer_to : {D A : Type 0} → Option (A × D) → D × D → Result StorageErrorKind A × (D × D)
answer_to none c = (err other, c)
answer_to (some (a, t)) (_, d) = (ok a, (t, d))

pub answer_to-committed :
    {D A : Type 0} (o : Option (A × D)) (c : D × D) → (answer_to o c).1.1 ≡ c.1
answer_to-committed none c = refl
answer_to-committed (some (a, t)) c = refl

pub answer_to-ok :
    {D A : Type 0} (o : Option (A × D)) (c : D × D) (a : A)
    → (answer_to o c).0 ≡ ok a
    → o ≡ some (a, (answer_to o c).1.0)
answer_to-ok none c a h = absurd (ground arith)
answer_to-ok (some (b, t)) c a h = ground arith

pub no_commit_error :
    {A : Type 0} (r : Result StorageErrorKind (Unit {0})) (k : StorageErrorKind)
    → r ≡ ok tt
    → r ≡ err k
    → A
no_commit_error r k g h = absurd (ground arith)

abbrev pub memory_engine : {D : Type 0} → Engine D
memory_engine {D} = record {
  Connection = D × D;
  tables = λ c. c.0;
  committed = λ c. c.1;
  begin = λ c. (ok tt, c);
  execute = λ f c. answer_to (f c.0) c;
  commit = λ c. (ok tt, (c.0, c.0));
  rollback = λ c. (c.1, c.1);
  begin-committed = λ c. refl;
  begin-tables = λ c h. h;
  execute-committed = λ f c. answer_to-committed (f c.0) c;
  execute-ok = λ f c a h. answer_to-ok (f c.0) c a h;
  execute-read = λ f c. refl;
  commit-ok = λ c h. (refl, refl);
  commit-err = λ c k h. no_commit_error (ok tt) k refl h;
  rollback-committed = λ c. refl;
  rollback-tables = λ c. refl;
}
