-- ===== src/Requests/Quiet.antt =====
-- Programs that leave the table of the records alone.
use cofferwire.Base.{
  ◌≡◌, inl, inr, refl, Bool, true, false, Option, none, some, Bytes, bytes_same, ap, sym,
  if◌then◌else◌, ◌∙◌, Option-cases, arith,
}
use cofferwire.Policy.{RelayError}
use cofferwire.Storage.{DurableRelayError}
use cofferwire.Storage.Program.{ret, fail, statement, ◌>>=◌, meaning}
use cofferwire.Tables.{Db}
use cofferwire.Durable.{Tx, read_u64, or_invalid, or_reject, blob_u64}

-- A statement whose tables, if it makes any, have the records of those before.
abbrev pub Quiet : {B : Type 0} → (Db → Option (B × Db)) → Type 0
Quiet {B} f = (db : Db) (b : B) (db' : Db) → f db ≡ some (b, db') → db'.replays ≡ db.replays

-- Every statement of a program is such.
unfoldable pub Untouched : {A : Type 0} → Tx A → Type 0
Untouched (ret a) = Unit
Untouched (fail x) = Unit
Untouched (statement {B} f next) = Quiet f × ((b : B) → Untouched (next b))

pub Untouched-keeps :
    {A : Type 0} (p : Tx A) (db : Db) → Untouched p → (meaning p db).1.replays ≡ db.replays
unfolding Untouched meaning
Untouched-keeps (ret a) db u = refl
Untouched-keeps (fail x) db u = refl
Untouched-keeps (statement f next) db (quiet, rest) = elim (Option-cases (f db)) [
  | inl none_left ↦ rw (none_left, meaning) refl
  | inr ((b, db'), done) ↦
      rw (done, meaning) (Untouched-keeps (next b) db' (rest b) ∙ quiet db b db' done)
]

pub Untouched-bind :
    {A B : Type 0} (p : Tx A) (k : A → Tx B)
    → Untouched p
    → ((a : A) → Untouched (k a))
    → Untouched (p >>= k)
unfolding Untouched
Untouched-bind (ret a) k u v = v a
Untouched-bind (fail x) k u v = tt
Untouched-bind (statement f next) k (quiet, rest) v =
    (quiet, λ b. Untouched-bind (next b) k (rest b) v)

pub Quiet-query : {B : Type 0} (f : Db → B) → Quiet (λ db. some (f db, db))
Quiet-query f db b db' h = ground (arith, h)

pub Quiet-write :
    (f : Db → Db) → ((db : Db) → (f db).replays ≡ db.replays) → Quiet (λ db. some (tt {0}, f db))
Quiet-write f same db b db' h =
    let left : f db ≡ db' = ground (arith, h) in ap (λ d. d.replays) (sym left) ∙ same db

pub Untouched-or_reject : {A : Type 0} (o : Option A) (x : RelayError) → Untouched (or_reject o x)
unfolding Untouched
Untouched-or_reject none x = tt
Untouched-or_reject (some a) x = tt

pub Untouched-or_invalid : {A : Type 0} (o : Option A) → Untouched (or_invalid o)
unfolding Untouched
Untouched-or_invalid none = tt
Untouched-or_invalid (some a) = tt

pub Untouched-if :
    {A : Type 0} (b : Bool) (p q : Tx A)
    → Untouched p
    → Untouched q
    → Untouched (if b then p else q)
Untouched-if true p q u v = u
Untouched-if false p q u v = v

pub Untouched-read_u64 : (value : Bytes) → Untouched (read_u64 value)
unfolding read_u64
Untouched-read_u64 value = Untouched-or_invalid (blob_u64 value)

pub Untouched-ret : {A : Type 0} (a : A) → Untouched (ret a)
unfolding Untouched
Untouched-ret a = tt

pub Untouched-fail : (A : Type 0) (x : DurableRelayError) → Untouched {A = A} (fail x)
unfolding Untouched
Untouched-fail A x = tt

pub Untouched-statement :
    {A B : Type 0} (f : Db → Option (B × Db)) (next : B → Tx A)
    → Quiet f
    → ((b : B) → Untouched (next b))
    → Untouched (statement f next)
unfolding Untouched
Untouched-statement f next quiet rest = (quiet, rest)

pub ruleset untouched_rules = (
  Untouched-bind, Untouched-ret, Untouched-fail, Untouched-statement, Quiet-query, Quiet-write,
  Untouched-if, Untouched-or_reject, Untouched-or_invalid, Untouched-read_u64,
)

pub Quiet-some :
    {B : Type 0} (b b' : B) (d d' : Db)
    → ◌≡◌ {A = Option (B × Db)} (some (b, d)) (some (b', d'))
    → d'.replays ≡ d.replays
Quiet-some b b' d d' h = let left : d' ≡ d = ground (arith, h) in ap (λ (x : Db). x.replays) left
