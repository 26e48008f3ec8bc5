-- ===== src/Durable/Agree/Receipts.antt =====
-- Fetching and acknowledging, on the tables as in memory.
use cofferwire.Base.{
  ◌<◌, ◌≡◌, ◌≢◌, refl, inl, inr, none, some, List, [], ◌∷◌, arith, Option-cases, Bool-cases, true,
  ◌==◌, ap, ◌∙◌, map, head?, Each-retain, ◌⊎◌, bytes_same, bytes_beq_iff, ok, err, Result,
}
use cofferwire.Base.Map
use cofferwire.Types.{QueueId, Principal, MessageId, Timestamp, u64_mod}
use cofferwire.Policy.{RelayError, queue_not_found, unauthorized, ack_mismatch, not_delivered}
use cofferwire.Relay.{
  Queue, Relay, discard_expired, fetch, fetch_from, acknowledge, acknowledge_in, put_back,
  on_recipient_queue, to_letter,
}
use cofferwire.Relay.Calls.{recipient_missing, recipient_owner, recipient_other}
use cofferwire.Storage.{relay, DurableRelayError}
use cofferwire.Storage.Program.{meaning, ◌>>=◌, query}
use cofferwire.Tables.{
  QueueRow, MessageRow, Db, delete_expired, in_queue, select_first, mark_delivered, delete_sequence,
}
use cofferwire.Durable.{
  Tx, authorize_recipient, fetch_tx, acknowledge_tx, deliver, remove_current, or_reject,
}
use cofferwire.Durable
use cofferwire.Durable.Rows.{viewed, view_message, rows_of, IsMessageRow}
use cofferwire.Durable.Rows.Sequence.{
  Ascending-retain, earliest-head, rows_of-mark, rows_of-delete, rows_of-mark_elsewhere,
  rows_of-delete_elsewhere,
}
use cofferwire.Durable.View.{
  IsDb, view, view_config, view_queue, authorize-none, authorize-other, authorize-owner,
  discard_expired-meaning, read_time,
}
use cofferwire.Durable.Upkeep.{delete_expired-IsDb, mark_delivered-IsDb, delete_sequence-IsDb}
use cofferwire.Durable.Simulation.{Simulates, twin_none, Twin-some}
use cofferwire.Durable.Agree.{Agree, Agree-rejected, Agree-dropped, Agree-put}
use cofferwire.Durable.Agree.Sends.{Twin-delete_expired, view-delete_expired_elsewhere}

-- Both sides when the recipient is checked and the expired messages are gone.
pub record Ready (id : QueueId) (now : Timestamp) (db db₁ : Db) (r : Relay) : Type 0 where
  pub row : QueueRow
  pub queue : Queue
  pub valid : IsDb db
  pub simulates : Simulates now db r
  pub valid₁ : IsDb db₁
  pub found : Map.get id r.queues ≡ some queue
  pub found₁ : Map.get id db₁.queues ≡ some row
  pub elsewhere : (j : QueueId) → id ≢ j → view db₁ j ≡ view db j
  pub twin :
      discard_expired now queue
      ≡ record { config = view_config row; messages = viewed id db₁.messages }

module _ {A : Type 0} (id : QueueId) (p : Principal) (now : Timestamp) (db : Db) (r : Relay)
    (h : now < u64_mod) (v : IsDb db) (s : Simulates now db r) where
  recipient-Agree :
      (k : Tx A) (change : Queue → Result RelayError A × Queue)
      → ((ready : Ready id now db (delete_expired id now db) r)
          → Agree now db
              (meaning k (delete_expired id now db))
              (put_back id r (change ready.queue)))
      → Agree now db
          (meaning (authorize_recipient id p >>= λ _. Durable.discard_expired id now >>= λ _. k) db)
          (on_recipient_queue id p change r)
  unfolding delete_expired
  recipient-Agree k change body = elim (Option-cases (Map.get id db.queues)) [
    | inl e ↦ rw (authorize-none id db p _ e) (
        rw (recipient_missing id r (twin_none now id db r s e) p change)
          (Agree-rejected now id db r v s queue_not_found db))
    | inr (row, e) ↦
        let t = Twin-some now id db r s row e in
        elim (Bool-cases (row.recipient == p)) [
          | inr other ↦ rw (authorize-other id db p _ row (v.rows id row e) e (ground arith)) (
              rw
                (recipient_other id r t.found p change
                  (ground (arith, t.config, bytes_beq_iff row.recipient p)))
                (Agree-rejected now id db r v s unauthorized db))
          | inl owner ↦ rw (authorize-owner id db p _ row (v.rows id row e) e (ground arith)) (
              rw (discard_expired-meaning id db now _) (
                rw
                  (recipient_owner id r t.found p change
                    (ground (arith, t.config, bytes_beq_iff row.recipient p)))
                  (body (record {
                    row = row;
                    queue = t.queue;
                    valid = v;
                    simulates = s;
                    valid₁ = delete_expired-IsDb id now db v;
                    found = t.found;
                    found₁ = e;
                    elsewhere = λ j ne. view-delete_expired_elsewhere id j now db ne;
                    twin = Twin-delete_expired id now db r row t h v;
                  }))))
        ]
  ]

List-cases :
    (rows : List MessageRow)
    → (rows ≡ []) ⊎ ((first : MessageRow) × (rest : List MessageRow) × (rows ≡ first ∷ rest))
List-cases [] = inl refl
List-cases (first ∷ rest) = inr (first, rest, refl)

module _ (id : QueueId) (now : Timestamp) (db db₁ : Db) (r : Relay)
    (k : Ready id now db db₁ r) where
  select_first-head : select_first id db₁ ≡ head? (rows_of id db₁.messages)
  select_first-head =
      earliest-head (rows_of id db₁.messages)
        (Ascending-retain (in_queue id) db₁.messages k.valid₁.ascending)

  first_time :
      (first : MessageRow) (rest : List MessageRow)
      → rows_of id db₁.messages ≡ first ∷ rest
      → IsMessageRow first
  first_time first rest e =
      (rw e at (Each-retain IsMessageRow (in_queue id) db₁.messages k.valid₁.times)).0

  kept_messages :
      (rows : List MessageRow)
      → rows_of id db₁.messages ≡ rows
      → discard_expired now k.queue
        ≡ record { config = view_config k.row; messages = map view_message rows }
  kept_messages rows e =
      k.twin ∙ ap (λ x. record { config = view_config k.row; messages = map view_message x }) e

  -- A change of the rows of the queue and of no other.
  changed-Agree :
      {A : Type 0} (a : A) (rows : List MessageRow) (kept : List MessageRow)
      → IsDb (record db₁ { messages = rows })
      → rows_of id rows ≡ kept
      → ((j : QueueId) → id ≢ j → rows_of j rows ≡ rows_of j db₁.messages)
      → Agree now db
          (ok a, record db₁ { messages = rows })
          (put_back id r
            (ok a, record { config = view_config k.row; messages = map view_message kept }))
  changed-Agree a rows kept v here elsewhere =
      Agree-put now id db r k.valid k.simulates a _ _ v
        (λ j ne.
          ap (λ x. view_queue (Map.get j db₁.queues) (map view_message x)) (elsewhere j ne)
          ∙ k.elsewhere j ne)
        (rw k.found₁ (rw here refl))

  unchanged-Agree :
      {A : Type 0} (a : A)
      → Agree now db (ok a, db₁) (put_back id r (ok a, discard_expired now k.queue))
  unchanged-Agree a =
      Agree-put now id db r k.valid k.simulates a db₁ _ k.valid₁ k.elsewhere
        (rw k.found₁ (rw k.twin refl))

  rejected-Agree :
      {A : Type 0} (e : RelayError)
      → Agree {A = A} now db
          (err (relay e), db₁)
          (put_back id r (err e, discard_expired now k.queue))
  rejected-Agree e = Agree-dropped now id db r k.valid k.simulates e db₁ k.queue k.found

  deliver-Agree :
      Agree now db
        (meaning (query (select_first id) >>= deliver) db₁)
        (put_back id r (fetch_from now k.queue))
  unfolding meaning fetch_from
  deliver-Agree = elim (List-cases (rows_of id db₁.messages)) [
    | inl empty ↦
        let durable : meaning (query (select_first id) >>= deliver) db₁ ≡ (ok none, db₁) =
          rw (select_first-head ∙ ap head? empty, meaning) refl in
        let memory : fetch_from now k.queue ≡ (ok none, discard_expired now k.queue) =
          ground (arith, kept_messages [] empty) in
        rw durable (rw memory (unchanged-Agree none))
    | inr (first, rest, e) ↦
        let letter = to_letter (view_message first) in
        let durable : meaning (query (select_first id) >>= deliver) db₁ ≡ (
          ok (some letter),
          record db₁ { messages = mark_delivered first.sequence db₁.messages },
        ) =
          rw (select_first-head ∙ ap head? e, meaning)
            (rw (read_time first.expires_at (first_time first rest e).0) refl) in
        let memory : fetch_from now k.queue ≡ (
          ok (some letter),
          record {
            config = view_config k.row;
            messages = map view_message (record first { delivered = true } ∷ rest);
          },
        ) =
          ground (arith, kept_messages (first ∷ rest) e) in
        rw durable (
          rw memory (
            changed-Agree (some letter) (mark_delivered first.sequence db₁.messages)
              (record first { delivered = true } ∷ rest)
              (mark_delivered-IsDb first.sequence db₁ k.valid₁)
              (rows_of-mark id db₁.messages first rest k.valid₁.ascending e)
              (λ j ne.
                rows_of-mark_elsewhere id j db₁.messages first rest ne k.valid₁.ascending e)))
  ]

  abbrev removal : MessageId → Result DurableRelayError (Unit {0}) × Db
  removal m =
      meaning
        (query (select_first id) >>= λ found. or_reject found ack_mismatch >>= remove_current m) db₁

  refused-Agree :
      (m : MessageId) (e : RelayError)
      → removal m ≡ (err (relay e), db₁)
      → acknowledge_in m now k.queue ≡ (err e, discard_expired now k.queue)
      → Agree now db (removal m) (put_back id r (acknowledge_in m now k.queue))
  refused-Agree m e durable memory = rw durable (rw memory (rejected-Agree e))

  remove-Agree :
      (m : MessageId) → Agree now db (removal m) (put_back id r (acknowledge_in m now k.queue))
  unfolding meaning acknowledge_in
  remove-Agree m = elim (List-cases (rows_of id db₁.messages)) [
    | inl empty ↦
        refused-Agree m ack_mismatch (rw (select_first-head ∙ ap head? empty, meaning) refl)
          (ground (arith, kept_messages [] empty))
    | inr (first, rest, e) ↦
        let selected = select_first-head ∙ ap head? e in
        let kept = kept_messages (first ∷ rest) e in
        elim (Bool-cases (first.message_id == m)) [
          | inr other ↦
              refused-Agree m ack_mismatch (rw (selected, meaning) (rw other refl))
                (ground (arith, kept))
          | inl same ↦ elim (Bool-cases first.delivered) [
            | inr unseen ↦
                refused-Agree m not_delivered (rw (selected, meaning) (rw same (rw unseen refl)))
                  (ground (arith, kept))
            | inl seen ↦
                let durable : removal m ≡ (
                  ok tt,
                  record db₁ { messages = delete_sequence first.sequence db₁.messages },
                ) =
                  rw (selected, meaning) (rw same (rw seen refl)) in
                let memory : acknowledge_in m now k.queue ≡ (
                  ok tt,
                  record { config = view_config k.row; messages = map view_message rest },
                ) =
                  ground (arith, kept) in
                rw durable (
                  rw memory (
                    changed-Agree tt (delete_sequence first.sequence db₁.messages) rest
                      (delete_sequence-IsDb first.sequence db₁ k.valid₁)
                      (rows_of-delete id db₁.messages first rest k.valid₁.ascending e)
                      (λ j ne.
                        rows_of-delete_elsewhere id j db₁.messages first rest ne k.valid₁.ascending
                          e)))
          ]
        ]
  ]

-- A fetch is answered by the durable relay as by the one in memory.
pub fetch-Agree :
    (id : QueueId) (p : Principal) (now : Timestamp) (db : Db) (r : Relay)
    → now < u64_mod
    → IsDb db
    → Simulates now db r
    → Agree now db (meaning (fetch_tx id p now) db) (fetch id p now r)
unfolding fetch_tx fetch
fetch-Agree id p now db r h v s =
    recipient-Agree id p now db r h v s _ (fetch_from now)
      (deliver-Agree id now db (delete_expired id now db) r)

-- An acknowledgement is answered by the durable relay as by the one in memory.
pub acknowledge-Agree :
    (id : QueueId) (p : Principal) (m : MessageId) (now : Timestamp) (db : Db) (r : Relay)
    → now < u64_mod
    → IsDb db
    → Simulates now db r
    → Agree now db (meaning (acknowledge_tx id p m now) db) (acknowledge id p m now r)
unfolding acknowledge_tx acknowledge
acknowledge-Agree id p m now db r h v s =
    recipient-Agree id p now db r h v s _ (acknowledge_in m now)
      (λ k. remove-Agree id now db (delete_expired id now db) r k m)
