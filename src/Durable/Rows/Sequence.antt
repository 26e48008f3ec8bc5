-- ===== src/Durable/Rows/Sequence.antt =====
-- The numbers of the rows: they rise along the table, so that a number names one row.
use cofferwire.Base.{
  ℕ, suc, ◌≤◌, ◌<◌, ◌≡◌, ◌≢◌, refl, inl, inr, List, [], ◌∷◌, ◌++◌, arith, Bool-cases, Bool, true,
  Each, Each-retain, Each-append, retain, bytes_beq_iff, bytes_same, nat_same, head?,
}
use cofferwire.Types.{QueueId}
use cofferwire.Tables.{
  MessageRow, in_queue, earliest, mark_delivered, delete_sequence, next_sequence,
}

abbrev pub Above : ℕ → List MessageRow → Type 0
Above n = Each (λ row. n < row.sequence)

abbrev pub Ascending : List MessageRow → Type 0
Ascending [] = Unit
Ascending (row ∷ rows) = Above row.sequence rows × Ascending rows

pub Ascending-retain :
    (p : MessageRow → Bool) (rows : List MessageRow) → Ascending rows → Ascending (retain p rows)
unfolding retain
Ascending-retain p [] a = tt
Ascending-retain p (row ∷ rows) a = ground (
  arith,
  Each-retain (λ (x : MessageRow). row.sequence < x.sequence) p rows a.0,
  Ascending-retain p rows a.1,
)

-- The first row of a rising table has the least number.
pub earliest-head : (rows : List MessageRow) → Ascending rows → earliest rows ≡ head? rows
unfolding earliest
earliest-head [] a = refl
earliest-head (row ∷ []) a = refl
earliest-head (row ∷ x ∷ rows) a = ground (arith, earliest-head (x ∷ rows) a.1)

mark-Above : (n : ℕ) (rows : List MessageRow) → Above n rows → mark_delivered n rows ≡ rows
unfolding mark_delivered
mark-Above n [] a = refl
mark-Above n (row ∷ rows) a = ground (arith, mark-Above n rows a.1)

delete-Above : (n : ℕ) (rows : List MessageRow) → Above n rows → delete_sequence n rows ≡ rows
unfolding delete_sequence retain
delete-Above n [] a = refl
delete-Above n (row ∷ rows) a = ground (arith, delete-Above n rows a.1)

-- The rows of a queue after a change at the number of the first of them.
module _ (id : QueueId) where
  Above-first :
      (n : ℕ) (rows : List MessageRow) (first : MessageRow) (rest : List MessageRow)
      → Above n rows
      → retain (in_queue id) rows ≡ first ∷ rest
      → n < first.sequence
  unfolding retain
  Above-first n [] first rest a h = absurd (ground arith)
  Above-first n (row ∷ rows) first rest a h = ground (arith, Above-first n rows first rest a.1)

  pub rows_of-mark :
      (rows : List MessageRow) (first : MessageRow) (rest : List MessageRow)
      → Ascending rows
      → retain (in_queue id) rows ≡ first ∷ rest
      → retain (in_queue id) (mark_delivered first.sequence rows)
        ≡ record first { delivered = true } ∷ rest
  unfolding retain mark_delivered
  rows_of-mark [] first rest a h = absurd (ground arith)
  rows_of-mark (row ∷ rows) first rest a h = elim (Bool-cases (in_queue id row)) [
    | inl here ↦ ground (arith, mark-Above row.sequence rows a.0)
    | inr elsewhere ↦
        ground
          (arith, rows_of-mark rows first rest a.1, Above-first row.sequence rows first rest a.0)
  ]

  pub rows_of-delete :
      (rows : List MessageRow) (first : MessageRow) (rest : List MessageRow)
      → Ascending rows
      → retain (in_queue id) rows ≡ first ∷ rest
      → retain (in_queue id) (delete_sequence first.sequence rows) ≡ rest
  unfolding retain delete_sequence
  rows_of-delete [] first rest a h = absurd (ground arith)
  rows_of-delete (row ∷ rows) first rest a h = elim (Bool-cases (in_queue id row)) [
    | inl here ↦ ground (arith, delete-Above row.sequence rows a.0)
    | inr elsewhere ↦
        ground
          (arith, rows_of-delete rows first rest a.1, Above-first row.sequence rows first rest a.0)
  ]

  pub rows_of-mark_elsewhere :
      (j : QueueId) (rows : List MessageRow) (first : MessageRow) (rest : List MessageRow)
      → id ≢ j
      → Ascending rows
      → retain (in_queue id) rows ≡ first ∷ rest
      → retain (in_queue j) (mark_delivered first.sequence rows) ≡ retain (in_queue j) rows
  unfolding retain mark_delivered
  rows_of-mark_elsewhere j [] first rest ne a h = refl
  rows_of-mark_elsewhere j (row ∷ rows) first rest ne a h = elim (Bool-cases (in_queue id row)) [
    | inl here ↦ ground (
      arith,
      mark-Above row.sequence rows a.0,
      bytes_beq_iff row.queue_id id,
      bytes_beq_iff row.queue_id j,
    )
    | inr elsewhere ↦ ground (
      arith,
      rows_of-mark_elsewhere j rows first rest ne a.1,
      Above-first row.sequence rows first rest a.0,
    )
  ]

  pub rows_of-delete_elsewhere :
      (j : QueueId) (rows : List MessageRow) (first : MessageRow) (rest : List MessageRow)
      → id ≢ j
      → Ascending rows
      → retain (in_queue id) rows ≡ first ∷ rest
      → retain (in_queue j) (delete_sequence first.sequence rows) ≡ retain (in_queue j) rows
  unfolding retain delete_sequence
  rows_of-delete_elsewhere j [] first rest ne a h = refl
  rows_of-delete_elsewhere j (row ∷ rows) first rest ne a h = elim (Bool-cases (in_queue id row)) [
    | inl here ↦ ground (
      arith,
      delete-Above row.sequence rows a.0,
      bytes_beq_iff row.queue_id id,
      bytes_beq_iff row.queue_id j,
    )
    | inr elsewhere ↦ ground (
      arith,
      rows_of-delete_elsewhere j rows first rest ne a.1,
      Above-first row.sequence rows first rest a.0,
    )
  ]

Above-mark : (n m : ℕ) (rows : List MessageRow) → Above n rows → Above n (mark_delivered m rows)
unfolding mark_delivered
Above-mark n m [] a = tt
Above-mark n m (row ∷ rows) a = ground (arith, Above-mark n m rows a.1)

pub Ascending-mark :
    (m : ℕ) (rows : List MessageRow) → Ascending rows → Ascending (mark_delivered m rows)
unfolding mark_delivered
Ascending-mark m [] a = tt
Ascending-mark m (row ∷ rows) a =
    ground (arith, Ascending-mark m rows a.1, Above-mark row.sequence m rows a.0)

abbrev Below : ℕ → List MessageRow → Type 0
Below n = Each (λ row. row.sequence < n)

Below-mono : (n m : ℕ) (rows : List MessageRow) → n ≤ m → Below n rows → Below m rows
Below-mono n m [] h b = tt
Below-mono n m (row ∷ rows) h b = (omega arith, Below-mono n m rows h b.1)

-- The number of a new row is larger than all.
next_sequence-Below : (rows : List MessageRow) → Below (next_sequence rows) rows
unfolding next_sequence
next_sequence-Below [] = tt
next_sequence-Below (row ∷ rows) =
    ground
      (arith, next_sequence-Below rows, Below-mono (next_sequence rows) (suc row.sequence) rows)

Ascending-append :
    (rows : List MessageRow) (row : MessageRow)
    → Ascending rows
    → Below row.sequence rows
    → Ascending (rows ++ row ∷ [])
Ascending-append [] row a b = (tt, tt)
Ascending-append (x ∷ rows) row a b = (
  Each-append (λ (y : MessageRow). x.sequence < y.sequence) rows (row ∷ []) a.0 (b.0, tt),
  Ascending-append rows row a.1 b.1,
)

pub Ascending-insert :
    (rows : List MessageRow) (row : MessageRow)
    → Ascending rows
    → row.sequence ≡ next_sequence rows
    → Ascending (rows ++ row ∷ [])
Ascending-insert rows row a e = Ascending-append rows row a (rw e (next_sequence-Below rows))
