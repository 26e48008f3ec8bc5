-- ===== src/Durable/Upkeep.antt =====
-- Every statement that writes leaves the tables in order.
use cofferwire.Base.{
  ℕ, ◌≡◌, refl, inl, inr, some, List, [], ◌∷◌, ◌++◌, arith, Bool-cases, Bool, ◌==◌, Each,
  Each-retain, Each-append, ap, ◌∙◌, retain, bytes_same, nat_same, bytes_beq_iff, Bytes,
}
use cofferwire.Base.Map
use cofferwire.Base.Map.{get-insert, get-remove}
use cofferwire.Types.{QueueId, Timestamp}
use cofferwire.Tables.{
  QueueRow, MessageRow, Db, delete_expired, mark_delivered, delete_sequence, next_sequence,
}
use cofferwire.Durable.{delete_cascade}
use cofferwire.Durable.Rows.{rows_of, IsMessageRow, rows_of-drop, rows_of-snoc_elsewhere}
use cofferwire.Durable.Rows.Sequence.{Ascending-retain, Ascending-mark, Ascending-insert}
use cofferwire.Durable.View.{IsDb, IsQueueRow}

rows_of-retain :
    (j : QueueId) (p : MessageRow → Bool) (rows : List MessageRow)
    → rows_of j (retain p rows) ≡ retain p (rows_of j rows)
unfolding retain
rows_of-retain j p [] = refl
rows_of-retain j p (row ∷ rows) = ground (arith, rows_of-retain j p rows)

rows_of-retain_nil :
    (j : QueueId) (p : MessageRow → Bool) (rows : List MessageRow)
    → rows_of j rows ≡ []
    → rows_of j (retain p rows) ≡ []
unfolding retain
rows_of-retain_nil j p rows h = rows_of-retain j p rows ∙ ap (retain p) h

rows_of-mark_nil :
    (j : QueueId) (n : ℕ) (rows : List MessageRow)
    → rows_of j rows ≡ []
    → rows_of j (mark_delivered n rows) ≡ []
unfolding retain mark_delivered
rows_of-mark_nil j n [] h = refl
rows_of-mark_nil j n (row ∷ rows) h = ground (arith, rows_of-mark_nil j n rows)

times-mark :
    (n : ℕ) (rows : List MessageRow)
    → Each IsMessageRow rows
    → Each IsMessageRow (mark_delivered n rows)
unfolding mark_delivered
times-mark n [] f = tt
times-mark n (row ∷ rows) f = elim (Bool-cases (row.sequence == n)) [
  | inl hit ↦ rw hit (f.0, times-mark n rows f.1)
  | inr miss ↦ rw miss (f.0, times-mark n rows f.1)
]

retain-IsDb :
    (p : MessageRow → Bool) (db : Db)
    → IsDb db
    → IsDb (record db { messages = retain p db.messages })
retain-IsDb p db v = record {
  rows = v.rows;
  times = Each-retain IsMessageRow p db.messages v.times;
  ascending = Ascending-retain p db.messages v.ascending;
  owned = λ id h. rows_of-retain_nil id p db.messages (v.owned id h);
}

pub delete_expired-IsDb :
    (id : QueueId) (now : Timestamp) (db : Db) → IsDb db → IsDb (delete_expired id now db)
unfolding delete_expired
delete_expired-IsDb id now db v = retain-IsDb _ db v

pub delete_sequence-IsDb :
    (n : ℕ) (db : Db) → IsDb db → IsDb (record db { messages = delete_sequence n db.messages })
unfolding delete_sequence
delete_sequence-IsDb n db v = retain-IsDb _ db v

pub mark_delivered-IsDb :
    (n : ℕ) (db : Db) → IsDb db → IsDb (record db { messages = mark_delivered n db.messages })
mark_delivered-IsDb n db v = record {
  rows = v.rows;
  times = times-mark n db.messages v.times;
  ascending = Ascending-mark n db.messages v.ascending;
  owned = λ id h. rows_of-mark_nil id n db.messages (v.owned id h);
}

pub append-IsDb :
    (row : MessageRow) (queue : QueueRow) (db : Db)
    → IsDb db
    → Map.get row.queue_id db.queues ≡ some queue
    → IsMessageRow row
    → row.sequence ≡ next_sequence db.messages
    → IsDb (record db { messages = db.messages ++ row ∷ [] })
append-IsDb row queue db v h f e = record {
  rows = v.rows;
  times = Each-append IsMessageRow db.messages (row ∷ []) v.times (f, tt);
  ascending = Ascending-insert db.messages row v.ascending e;
  owned = λ id none_here.
      rows_of-snoc_elsewhere id db.messages row
        (λ p. ground (arith, ap (λ (k : Bytes). Map.get k db.queues) p))
      ∙ v.owned id none_here;
}

pub insert_queue-IsDb :
    (id : QueueId) (row : QueueRow) (db : Db)
    → IsDb db
    → IsQueueRow row
    → IsDb (record db { queues = Map.insert id row db.queues })
insert_queue-IsDb id row db v h = record {
  rows = λ j x p. elim (Bool-cases (id == j)) [
    | inl same ↦ let e : row ≡ x = ground (arith, get-insert id j row db.queues) in rw (← e) h
    | inr other ↦ v.rows j x (ground (arith, get-insert id j row db.queues))
  ];
  times = v.times;
  ascending = v.ascending;
  owned = λ j p. v.owned j (ground (arith, get-insert id j row db.queues));
}

pub delete_cascade-IsDb : (id : QueueId) (db : Db) → IsDb db → IsDb (delete_cascade id db)
delete_cascade-IsDb id db v = record {
  rows = λ j x p. elim (Bool-cases (id == j)) [
    | inl same ↦ absurd (ground (arith, get-remove id j db.queues))
    | inr other ↦ v.rows j x (ground (arith, get-remove id j db.queues))
  ];
  times = Each-retain IsMessageRow _ db.messages v.times;
  ascending = Ascending-retain _ db.messages v.ascending;
  owned = λ j p. elim (Bool-cases (id == j)) [
    | inl same ↦ rw (← (bytes_beq_iff id j).0 same) (rows_of-drop id db.messages)
    | inr other ↦
        rows_of-retain_nil j _ db.messages (v.owned j (ground (arith, get-remove id j db.queues)))
  ];
}
