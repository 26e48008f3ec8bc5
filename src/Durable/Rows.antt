-- ===== src/Durable/Rows.antt =====
-- The rows of one queue among all messages, and what the statements do to them.
pub mod Sequence
use cofferwire.Base.{
  ℕ, suc, ◌+◌, ◌≤◌, ◌<◌, ◌≡◌, ◌≢◌, refl, inl, inr, none, some, Option, List, [], ◌∷◌, ◌++◌, arith,
  length, Option-cases, Bool-cases, if◌then◌else◌, leb, ltb, Bool, true, false, not, ◌==◌, ◌&&◌,
  Each, sym, ap, ◌∙◌, map, retain, find, bytes_beq_iff, bytes_same, Bytes, retain-append, ◌^◌,
}
use mathlib.Core.List.{map-append}
use cofferwire.Base.BigEndian.{
  IsByte, to_be, from_be, bytes_le, bytes_le-from_be, from_be-to_be, to_be-IsByte, length-to_be,
}
use cofferwire.Types.{QueueId, MessageId, Timestamp, u64_mod}
use cofferwire.Relay.{QueuedMessage, is_live}
use cofferwire.Relay.Sound.Messages.{has_id}
use cofferwire.Tables.{MessageRow, in_queue, is_message, is_expired}

-- A string of 8 bytes.
abbrev pub IsU64 : Bytes → Type 0
IsU64 bytes = (length bytes ≡ 8) × Each IsByte bytes

pub to_be-IsU64 : (n : ℕ) → IsU64 (to_be 8 n)
to_be-IsU64 n = (length-to_be 8 n, to_be-IsByte 8 n)

abbrev pub IsMessageRow : MessageRow → Type 0
IsMessageRow row = IsU64 row.expires_at

abbrev pub view_message : MessageRow → QueuedMessage
view_message row = record {
  id = row.message_id;
  payload = row.payload;
  expires_at = from_be row.expires_at;
  delivered = row.delivered;
}

abbrev pub rows_of : QueueId → List MessageRow → List MessageRow
rows_of id = retain (in_queue id)

-- The messages of a queue, in the order of the table.
abbrev pub viewed : QueueId → List MessageRow → List QueuedMessage
viewed id rows = map view_message (rows_of id rows)

abbrev pub view_found : Option MessageRow → Option QueuedMessage
view_found none = none
view_found (some row) = some (view_message row)

pub find-viewed :
    (id : QueueId) (m : MessageId) (rows : List MessageRow)
    → find (has_id m) (viewed id rows) ≡ view_found (find (is_message id m) rows)
unfolding find retain
find-viewed id m [] = refl
find-viewed id m (row ∷ rows) = ground (arith, find-viewed id m rows)

pub length-viewed :
    (id : QueueId) (rows : List MessageRow) → length (viewed id rows) ≡ length (rows_of id rows)
length-viewed id rows = length-map (rows_of id rows)
  where
    length-map : (xs : List MessageRow) → length (map view_message xs) ≡ length xs
    length-map [] = refl
    length-map (x ∷ xs) = ap suc (length-map xs)

-- A row is deleted as expired exactly if its message is not live.
is_live-row :
    (now : Timestamp) (row : MessageRow)
    → now < u64_mod
    → IsMessageRow row
    → bytes_le row.expires_at (to_be 8 now) ≡ not (is_live now (view_message row))
is_live-row now row h f = ground (
  arith,
  bytes_le-from_be row.expires_at (to_be 8 now) (f.0 ∙ sym (length-to_be 8 now)) f.1
      (to_be-IsByte 8 now),
  from_be-to_be 8 now h,
)

abbrev pub unexpired : QueueId → Timestamp → List MessageRow → List MessageRow
unexpired id now = retain (λ row. not (is_expired id (to_be 8 now) row))

pub viewed-unexpired :
    (id : QueueId) (now : Timestamp) (rows : List MessageRow)
    → now < u64_mod
    → Each IsMessageRow rows
    → viewed id (unexpired id now rows) ≡ retain (is_live now) (viewed id rows)
unfolding retain
viewed-unexpired id now [] h f = refl
viewed-unexpired id now (row ∷ rows) h f =
    ground (arith, viewed-unexpired id now rows h f.1, is_live-row now row h f.0)

pub rows_of-unexpired_elsewhere :
    (id j : QueueId) (now : Timestamp) (rows : List MessageRow)
    → id ≢ j
    → rows_of j (unexpired id now rows) ≡ rows_of j rows
unfolding retain
rows_of-unexpired_elsewhere id j now [] h = refl
rows_of-unexpired_elsewhere id j now (row ∷ rows) h = ground (
  arith,
  rows_of-unexpired_elsewhere id j now rows h,
  bytes_beq_iff row.queue_id id,
  bytes_beq_iff row.queue_id j,
)

pub rows_of-drop_elsewhere :
    (id j : QueueId) (rows : List MessageRow)
    → id ≢ j
    → rows_of j (retain (λ row. not (in_queue id row)) rows) ≡ rows_of j rows
unfolding retain
rows_of-drop_elsewhere id j [] h = refl
rows_of-drop_elsewhere id j (row ∷ rows) h = ground (
  arith,
  rows_of-drop_elsewhere id j rows h,
  bytes_beq_iff row.queue_id id,
  bytes_beq_iff row.queue_id j,
)

pub rows_of-drop :
    (id : QueueId) (rows : List MessageRow)
    → rows_of id (retain (λ row. not (in_queue id row)) rows) ≡ []
unfolding retain
rows_of-drop id [] = refl
rows_of-drop id (row ∷ rows) = ground (arith, rows_of-drop id rows)

-- A row at the end of the table joins the messages of its queue.
pub viewed-snoc :
    (id : QueueId) (rows : List MessageRow) (row : MessageRow)
    → row.queue_id ≡ id
    → viewed id (rows ++ row ∷ []) ≡ viewed id rows ++ view_message row ∷ []
unfolding retain
viewed-snoc id rows row e = rw (retain-append (in_queue id) rows (row ∷ [])) (
    rw ((bytes_beq_iff row.queue_id id).1 e) (map-append view_message (rows_of id rows) (row ∷ [])))

pub rows_of-snoc_elsewhere :
    (j : QueueId) (rows : List MessageRow) (row : MessageRow)
    → row.queue_id ≢ j
    → rows_of j (rows ++ row ∷ []) ≡ rows_of j rows
unfolding retain
rows_of-snoc_elsewhere j [] row h = ground (arith, bytes_beq_iff row.queue_id j)
rows_of-snoc_elsewhere j (x ∷ rows) row h = ground (arith, rows_of-snoc_elsewhere j rows row h)
