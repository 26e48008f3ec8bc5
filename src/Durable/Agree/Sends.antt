-- ===== src/Durable/Agree/Sends.antt =====
-- Sending, on the tables as in memory.
use cofferwire.Base.{
  ℕ, ◌+◌, ◌<◌, ◌≡◌, ◌≢◌, refl, inl, inr, none, some, [], ◌∷◌, ◌++◌, arith, length, Option-cases,
  Bool-cases, false, ◌==◌, ltb, ltb→lt, map, leb, ap, ◌∙◌, retain, find, bytes_same, bytes_beq_iff,
  Bytes, ok, err, Result,
}
use cofferwire.Base.Map
use cofferwire.Base.BigEndian.{to_be, from_be, from_be-to_be}
use cofferwire.Types.{QueueId, Principal, MessageId, Timestamp, u64_mod}
use cofferwire.Policy.{
  RelayError, queue_not_found, unauthorized, message_id_conflict, message_too_large, queue_full,
  expiry_overflow, SendOutcome, accepted, duplicate,
}
use cofferwire.Relay.{Queue, Relay, discard_expired, offer, send, put_back, new_message}
use cofferwire.Relay.Calls.{send_missing, send_owner, send_other}
use cofferwire.Relay.Sound.Messages.{has_id}
use cofferwire.Storage.{relay, DurableRelayError}
use cofferwire.Storage.Program.{meaning}
use cofferwire.Tables.{
  QueueRow, MessageRow, Db, is_message, next_sequence, delete_expired, in_queue,
}
use cofferwire.Durable.{send_tx, send_existing, select_payload}
use cofferwire.Durable.Rows.{
  viewed, view_message, view_found, find-viewed, length-viewed, viewed-unexpired, viewed-snoc,
  rows_of-unexpired_elsewhere, rows_of-snoc_elsewhere, to_be-IsU64,
}
use cofferwire.Durable.View.{
  IsDb, view, view_config, view_queue, read_queue-none, read_queue-some, discard_expired-meaning,
}
use cofferwire.Durable.Upkeep.{delete_expired-IsDb, append-IsDb}
use cofferwire.Durable.Simulation.{Simulates, Twin, twin_none, Twin-some, fresh}
use cofferwire.Durable.Agree.{Agree, Agree-rejected, Agree-dropped, Agree-put}

-- The state of both sides when the sender is checked and the expired messages are gone.
module _ (id : QueueId) (m : MessageId) (payload : Bytes) (now : Timestamp) (ttl : ℕ) (db db₁ : Db)
    (r : Relay) (row : QueueRow) (q : Queue) (v : IsDb db) (s : Simulates now db r) (v₁ : IsDb db₁)
    (found : Map.get id r.queues ≡ some q) (found₁ : Map.get id db₁.queues ≡ some row)
    (elsewhere : (j : QueueId) → id ≢ j → view db₁ j ≡ view db j)
    (twin : discard_expired now q
      ≡ record { config = view_config row; messages = viewed id db₁.messages }) where
  twin_live : fresh now (view db₁ id) ≡ some (discard_expired now (discard_expired now q))
  twin_live = rw found₁ (rw twin refl)

  row_of : MessageRow
  row_of = record {
    sequence = next_sequence db₁.messages;
    queue_id = id;
    message_id = m;
    payload = payload;
    expires_at = to_be 8 (now + ttl);
    delivered = false;
  }

  abbrev kept : Queue
  kept = discard_expired now q

  abbrev tried : Result DurableRelayError SendOutcome × Db
  tried =
      meaning (send_existing (view_config row) id m payload now ttl (select_payload id m db₁)) db₁

  find-kept : find (has_id m) kept.messages ≡ view_found (find (is_message id m) db₁.messages)
  find-kept = ap (λ (x : Queue). find (has_id m) x.messages) twin ∙ find-viewed id m db₁.messages

  length-kept : length kept.messages ≡ length (retain (in_queue id) db₁.messages)
  length-kept = ap (λ (x : Queue). length x.messages) twin ∙ length-viewed id db₁.messages

  config-kept : kept.config ≡ view_config row
  config-kept = ap (λ (x : Queue). x.config) twin

  found-Agree :
      (old : MessageRow)
      → find (is_message id m) db₁.messages ≡ some old
      → Agree now db tried (put_back id r (offer m payload now ttl kept))
  unfolding meaning offer
  found-Agree old there = elim (Bool-cases (old.payload == payload)) [
    | inl same ↦
        let durable : tried ≡ (ok duplicate, db₁) = rw (there, meaning) (rw same refl) in
        let memory : offer m payload now ttl kept ≡ (ok duplicate, kept) =
          rw (find-kept ∙ ap view_found there, offer) (rw same refl) in
        rw durable (rw memory (Agree-put now id db r v s duplicate db₁ kept v₁ elsewhere twin_live))
    | inr other ↦
        let durable : tried ≡ (err (relay message_id_conflict), db₁) =
          rw (there, meaning) (rw other refl) in
        let memory : offer m payload now ttl kept ≡ (err message_id_conflict, kept) =
          rw (find-kept ∙ ap view_found there, offer) (rw other refl) in
        rw durable (rw memory (Agree-dropped now id db r v s message_id_conflict db₁ q found))
  ]

  -- A rejection for want of room.
  refused-Agree :
      (e : RelayError)
      → tried ≡ (err (relay e), db₁)
      → offer m payload now ttl kept ≡ (err e, kept)
      → Agree now db tried (put_back id r (offer m payload now ttl kept))
  refused-Agree e durable memory =
      rw durable (rw memory (Agree-dropped now id db r v s e db₁ q found))

  grown : Db
  grown = record db₁ { messages = db₁.messages ++ row_of ∷ [] }

  view-grown :
      now + ttl < u64_mod
      → view grown id
        ≡ some (record kept { messages = kept.messages ++ new_message m payload (now + ttl) ∷ [] })
  unfolding grown row_of
  view-grown h = rw found₁ (
      rw (viewed-snoc id db₁.messages row_of refl)
        (rw twin (rw (from_be-to_be 8 (now + ttl) h) refl)))

  view-grown_elsewhere : (j : QueueId) → id ≢ j → view grown j ≡ view db j
  unfolding grown row_of
  view-grown_elsewhere j ne =
      ap (λ rows. view_queue (Map.get j db₁.queues) (map view_message rows))
        (rows_of-snoc_elsewhere j db₁.messages row_of ne)
      ∙ elsewhere j ne

  grown-IsDb : IsDb grown
  unfolding grown row_of
  grown-IsDb = append-IsDb row_of row db₁ v₁ found₁ (to_be-IsU64 (now + ttl)) refl

  accepted-Agree :
      now + ttl < u64_mod
      → tried ≡ (ok accepted, grown)
      → offer m payload now ttl kept ≡ (
        ok accepted,
        record kept { messages = kept.messages ++ new_message m payload (now + ttl) ∷ [] },
      )
      → Agree now db tried (put_back id r (offer m payload now ttl kept))
  accepted-Agree h durable memory = rw durable (
      rw memory (
        Agree-put now id db r v s accepted grown _ grown-IsDb view-grown_elsewhere
          (ap (fresh now) (view-grown h))))

  missing-Agree :
      find (is_message id m) db₁.messages ≡ none
      → Agree now db tried (put_back id r (offer m payload now ttl kept))
  unfolding meaning offer grown row_of
  missing-Agree missing = elim (Bool-cases (ltb (from_be row.max_message_bytes) (length payload))) [
    | inl large ↦
        refused-Agree message_too_large (ground arith)
          (ground (arith, find-kept, length-kept, config-kept))
    | inr fits ↦
        elim (Bool-cases
          (leb (from_be row.max_messages) (length (retain (in_queue id) db₁.messages)))) [
            | inl full ↦
                refused-Agree queue_full (ground arith)
                  (ground (arith, find-kept, length-kept, config-kept))
            | inr room ↦ elim (Bool-cases (ltb (now + ttl) u64_mod)) [
              | inl fine ↦
                  accepted-Agree (ltb→lt (now + ttl) u64_mod fine) (ground (arith, found₁))
                    (ground (arith, find-kept, length-kept, config-kept))
              | inr over ↦
                  refused-Agree expiry_overflow (ground arith)
                    (ground (arith, find-kept, length-kept, config-kept))
            ]
          ]
  ]

  pub send_existing-Agree : Agree now db tried (put_back id r (offer m payload now ttl kept))
  send_existing-Agree = elim (Option-cases (find (is_message id m) db₁.messages)) [
    | inl missing ↦ missing-Agree missing
    | inr (old, there) ↦ found-Agree old there
  ]

pub view-delete_expired_elsewhere :
    (id j : QueueId) (now : Timestamp) (db : Db)
    → id ≢ j
    → view (delete_expired id now db) j ≡ view db j
unfolding delete_expired
view-delete_expired_elsewhere id j now db ne =
    ap (λ rows. view_queue (Map.get j db.queues) (map view_message rows))
      (rows_of-unexpired_elsewhere id j now db.messages ne)

-- What the statement that drops expired messages leaves is what the relay in memory keeps.
pub Twin-delete_expired :
    (id : QueueId) (now : Timestamp) (db : Db) (r : Relay) (row : QueueRow)
    (t : Twin now id row db r)
    → now < u64_mod
    → IsDb db
    → discard_expired now t.queue ≡ record {
      config = view_config row;
      messages = viewed id (delete_expired id now db).messages;
    }
unfolding discard_expired delete_expired
Twin-delete_expired id now db r row t h v =
    rw t.config (rw (viewed-unexpired id now db.messages h v.times) (rw t.messages refl))

-- A send is answered by the durable relay as by the one in memory.
pub send-Agree :
    (id : QueueId) (p : Principal) (m : MessageId) (payload : Bytes) (now : Timestamp) (ttl : ℕ)
    (db : Db) (r : Relay)
    → now < u64_mod
    → IsDb db
    → Simulates now db r
    → Agree now db (meaning (send_tx id p m payload now ttl) db) (send id p m payload now ttl r)
unfolding send_tx meaning delete_expired
send-Agree id p m payload now ttl db r h v s = elim (Option-cases (Map.get id db.queues)) [
  | inl e ↦ rw (read_queue-none id db _ e) (
      rw (send_missing id r (twin_none now id db r s e) p m payload now ttl)
        (Agree-rejected now id db r v s queue_not_found db))
  | inr (row, e) ↦
      let t = Twin-some now id db r s row e in
      rw (read_queue-some id db _ row (v.rows id row e) e) (elim (Bool-cases (row.sender == p)) [
        | inr other ↦ rw other (
            rw
              (send_other id r t.found p m payload now ttl
                (ground (arith, t.config, bytes_beq_iff row.sender p)))
              (Agree-rejected now id db r v s unauthorized db))
        | inl owner ↦ rw owner (
            rw (discard_expired-meaning id db now _) (
              rw
                (send_owner id r t.found p m payload now ttl
                  (ground (arith, t.config, bytes_beq_iff row.sender p)))
                (send_existing-Agree id m payload now ttl db (delete_expired id now db) r row
                  t.queue v s (delete_expired-IsDb id now db v) t.found e
                  (λ j ne. view-delete_expired_elsewhere id j now db ne)
                  (Twin-delete_expired id now db r row t h v))))
      ])
]
