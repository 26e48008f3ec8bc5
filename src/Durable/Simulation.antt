-- ===== src/Durable/Simulation.antt =====
-- The tables and the relay in memory, side by side: they hold the same queues, up to messages that
-- have expired.
use cofferwire.Base.{
  ◌≤◌, ◌≡◌, ◌≢◌, refl, inl, inr, none, some, Option, List, [], ◌∷◌, arith, Option-cases, Bool-cases,
  ◌==◌, sym, ap, ◌∙◌, retain, bytes_same, bytes_beq_iff,
}
use cofferwire.Base.Map
use cofferwire.Base.Map.{get-insert, get-remove, get-insert_self, get-insert_ne}
use cofferwire.Types.{QueueId, Timestamp}
use cofferwire.Relay.{Queue, Relay, QueuedMessage, is_live, discard_expired}
use cofferwire.Tables.{QueueRow, Db}
use cofferwire.Durable.Rows.{viewed}
use cofferwire.Durable.View.{view, view_config}

-- A queue without what has expired.
abbrev pub fresh : Timestamp → Option Queue → Option Queue
fresh now none = none
fresh now (some q) = some (discard_expired now q)

retain-later :
    (now later : Timestamp) (ms : List QueuedMessage)
    → now ≤ later
    → retain (is_live later) (retain (is_live now) ms) ≡ retain (is_live later) ms
unfolding retain
retain-later now later [] h = refl
retain-later now later (m ∷ ms) h = ground (arith, retain-later now later ms h)

pub fresh-fresh :
    (now later : Timestamp) (o : Option Queue)
    → now ≤ later
    → fresh later (fresh now o) ≡ fresh later o
unfolding discard_expired
fresh-fresh now later none h = refl
fresh-fresh now later (some q) h =
    ap (λ ms. some (record { config = q.config; messages = ms }))
      (retain-later now later q.messages h)

-- At a time from `now` on, nobody can tell the tables from the relay.
pub record Simulates (now : Timestamp) (db : Db) (r : Relay) : Type 0 where
  pub at : (id : QueueId) → fresh now (view db id) ≡ fresh now (Map.get id r.queues)

pub Simulates-later :
    (now later : Timestamp) (db : Db) (r : Relay)
    → now ≤ later
    → Simulates now db r
    → Simulates later db r
Simulates-later now later db r h s = record {
  at = λ id.
      sym (fresh-fresh now later (view db id) h)
      ∙ (ap (fresh later) (s.at id) ∙ fresh-fresh now later (Map.get id r.queues) h);
}

-- The queue in memory for a row of the table.
pub record Twin (now : Timestamp) (id : QueueId) (row : QueueRow) (db : Db) (r : Relay)
    : Type 0 where
  pub queue : Queue
  pub found : Map.get id r.queues ≡ some queue
  pub config : queue.config ≡ view_config row
  pub messages : retain (is_live now) (viewed id db.messages) ≡ retain (is_live now) queue.messages

module _ (now : Timestamp) (id : QueueId) (db : Db) (r : Relay) (s : Simulates now db r) where
  pub twin_none : Map.get id db.queues ≡ none → Map.get id r.queues ≡ none
  unfolding discard_expired
  twin_none h = elim (Option-cases (Map.get id r.queues)) [
    | inl e ↦ e
    | inr (q, e) ↦ absurd (ground (arith, s.at id))
  ]

  pub Twin-some : (row : QueueRow) → Map.get id db.queues ≡ some row → Twin now id row db r
  unfolding discard_expired
  Twin-some row h = elim (Option-cases (Map.get id r.queues)) [
    | inl e ↦ absurd (ground (arith, s.at id))
    | inr (q, e) ↦ record {
      queue = q;
      found = e;
      config = ground (arith, s.at id);
      messages = ground (arith, s.at id);
    }
  ]

  -- A change of one queue on both sides.
  pub Simulates-put :
      (db' : Db) (q : Queue)
      → ((j : QueueId) → id ≢ j → view db' j ≡ view db j)
      → fresh now (view db' id) ≡ some (discard_expired now q)
      → Simulates now db' (record { queues = Map.insert id q r.queues })
  Simulates-put db' q elsewhere here = record {
    at = λ j. elim (Bool-cases (id == j)) [
      | inl same ↦ rw (← (bytes_beq_iff id j).0 same) (rw get-insert_self here)
      | inr other ↦
          let ne : id ≢ j = ground (arith, bytes_beq_iff id j) in
          rw (elsewhere j ne) (rw (get-insert_ne id j q r.queues ne) (s.at j))
    ];
  }

  -- The relay drops what has expired also where the transaction rolls back.
  pub Simulates-discard :
      (q : Queue)
      → Map.get id r.queues ≡ some q
      → Simulates now db (record { queues = Map.insert id (discard_expired now q) r.queues })
  Simulates-discard q e =
      Simulates-put db (discard_expired now q) (λ j ne. refl)
        (rw (s.at id) (rw e (sym (fresh-fresh now now (some q) (omega arith)))))
