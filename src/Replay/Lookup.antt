-- ===== src/Replay/Lookup.antt =====
-- The lookup of a record.
use cofferwire.Base.{
  Result-cases, ◌≡◌, ◌⊎◌, inl, inr, refl, Option, some, ap, ok, err, arith, ◌∙◌, sym,
}
use cofferwire.Storage.{Engine, StorageErrorKind, storage}
use cofferwire.Storage.Program.{run}
use cofferwire.Storage.Program.Atomic.{IsIdle}
use cofferwire.Tables.{ReplayKey, ReplayRow}
use cofferwire.Replay.{Namespace, lookup, stored}

module _ {D : Type 0} (e : Engine D) (n : Namespace D) where
  open e use {Connection, tables, committed, execute}

  -- On an idle connection a lookup changes nothing, and finds the record that is committed, unless
  -- it reports a storage error.
  pub lookup-stored :
      (key : ReplayKey) (c : Connection)
      → IsIdle e c
      → let (r, c') = lookup e n key c in
        IsIdle e c'
        × (committed c' ≡ committed c)
        × (((k : StorageErrorKind) × (r ≡ err (storage k))) ⊎ (r ≡ ok (stored n key (committed c))))
  unfolding lookup run
  lookup-stored key c idle =
      let f : D → Option (Option ReplayRow × D) = λ d. some (stored n key d, d) in
      let same_tables : tables (execute f c).1 ≡ tables c = e.execute-read (stored n key) c in
      let kept = e.execute-committed f c in
      let idle' : IsIdle e (execute f c).1 = same_tables ∙ (idle ∙ sym kept) in
      elim (Result-cases (execute f c).0) [
        | inl (b, h) ↦
            let made : ◌≡◌ {A = Option (Option ReplayRow × D)}
                (some (stored n key (tables c), tables c)) (some (b, tables (execute f c).1)) =
              e.execute-ok f c b h in
            let found : stored n key (committed c) ≡ b =
              ap (stored n key) (sym idle) ∙ ground (arith, made) in
            rw h (idle', kept, inr (rw found refl))
        | inr (k, h) ↦ rw h (idle', kept, inl (k, refl))
      ]
