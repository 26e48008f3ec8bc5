-- ===== src/Offline/Peers.antt =====
-- A store of imports in memory that keeps the laws of a store.
use cofferwire.Base.{
  ℕ, ◌≡◌, refl, true, false, Bool, Option, none, some, List, [], ◌∷◌, ◌&&◌, ◌||◌, ◌==◌, nat_same,
  bytes_same, bytes_beq_iff, pair_same, if◌then◌else◌, Result, ok, err, arith, Bool-cases, inl, inr,
}
use cofferwire.Base.Map
use cofferwire.Base.Map.{Map, get-insert, get-insert_self}
use cofferwire.Types.{QueueId, Principal, MessageId}
use cofferwire.Offline.{
  role_code, BundleStore, BundleStoreError, ImportOutcome, imported, already_imported,
  store_conflict,
}
use cofferwire.Offline.Imports.{StoreLaws}

-- A store that has a peer for each queue and role, with the bundles of that peer.
abbrev has_bundle : MessageId → List MessageId → Bool
has_bundle b [] = false
has_bundle b (other ∷ bundles) = other == b || has_bundle b bundles

abbrev pub Peers : Type 0
Peers = Map (QueueId × ℕ) (Principal × List MessageId)

abbrev known_to : Principal → MessageId → Option (Principal × List MessageId) → Bool
known_to peer b none = false
known_to peer b (some (other, bundles)) = other == peer && has_bundle b bundles

abbrev record_peer :
    QueueId × ℕ
    → Principal
    → MessageId
    → Peers
    → Option (Principal × List MessageId)
    → Result BundleStoreError ImportOutcome × Peers
record_peer key peer b w none = (ok imported, Map.insert key (peer, b ∷ []) w)
record_peer key peer b w (some (other, bundles)) =
    if other == peer
    then if has_bundle b bundles
      then (ok already_imported, w)
      else (ok imported, Map.insert key (peer, b ∷ bundles) w)
    else (err store_conflict, w)

abbrev pub peers_store : BundleStore Peers
peers_store q r peer b w = record_peer (q, role_code r) peer b w (Map.get (q, role_code r) w)

peers_recorded :
    (key : QueueId × ℕ) (peer : Principal) (b : MessageId) (w w' : Peers) (o : ImportOutcome)
    (found : Option (Principal × List MessageId))
    → Map.get key w ≡ found
    → record_peer key peer b w found ≡ (ok o, w')
    → known_to peer b (Map.get key w') ≡ true
peers_recorded key peer b w w' o none here h =
    let made : w' ≡ Map.insert key (peer, b ∷ []) w = ground (arith, h) in
    rw (made, get-insert_self key (peer, b ∷ []) w)
      (ground (arith, bytes_beq_iff peer peer, bytes_beq_iff b b))
peers_recorded key peer b w w' o (some (other, bundles)) here h =
    elim (Bool-cases (other == peer)) [
      | inr rival ↦ absurd (let refused = rw rival at h in ground (arith, refused))
      | inl same ↦ elim (Bool-cases (has_bundle b bundles)) [
        | inl held ↦
            let kept : w' ≡ w = let made = rw (same, held) at h in ground (arith, made) in
            rw (kept, here, same, held) refl
        | inr fresh ↦
            let made : w' ≡ Map.insert key (peer, b ∷ bundles) w =
              let made = rw (same, fresh) at h in ground (arith, made) in
            rw (made, get-insert_self key (peer, b ∷ bundles) w)
              (ground (arith, bytes_beq_iff peer peer, bytes_beq_iff b b))
      ]
    ]

insert-known :
    (key key' : QueueId × ℕ) (peer : Principal) (b : MessageId) (entry : Principal × List MessageId)
    (w : Peers)
    → known_to peer b (Map.get key w) ≡ true
    → (key' ≡ key → known_to peer b (some entry) ≡ true)
    → known_to peer b (Map.get key (Map.insert key' entry w)) ≡ true
insert-known key key' peer b entry w h fits = elim (Bool-cases (key' == key)) [
  | inl same ↦ rw (get-insert key' key entry w, same) (fits ((pair_same.same_iff key' key).0 same))
  | inr other ↦ rw (get-insert key' key entry w, other) h
]

peers_stay :
    (key key' : QueueId × ℕ) (peer peer' : Principal) (b b' : MessageId) (w : Peers)
    (found : Option (Principal × List MessageId))
    → Map.get key' w ≡ found
    → known_to peer b (Map.get key w) ≡ true
    → known_to peer b (Map.get key (record_peer key' peer' b' w found).1) ≡ true
peers_stay key key' peer peer' b b' w none here h =
    insert-known key key' peer b (peer', b' ∷ []) w h
      (λ same. absurd (let none_here = rw (← same, here) at h in ground (arith, none_here)))
peers_stay key key' peer peer' b b' w (some (other, bundles)) here h =
    elim (Bool-cases (other == peer')) [
      | inr rival ↦ rw rival h
      | inl same ↦ elim (Bool-cases (has_bundle b' bundles)) [
        | inl held ↦ rw (same, held) h
        | inr fresh ↦
            rw (same, fresh)
              (insert-known key key' peer b (peer', b' ∷ bundles) w h
                (λ alike.
                  let known = rw (← alike, here) at h in
                  ground (
                    arith,
                    known,
                    same,
                    bytes_beq_iff other peer',
                    bytes_beq_iff other peer,
                    bytes_beq_iff peer' peer,
                  )))
      ]
    ]

known_to-parts :
    (peer : Principal) (b : MessageId) (found : Option (Principal × List MessageId))
    → known_to peer b found ≡ true
    → (bundles : List MessageId) × (found ≡ some (peer, bundles)) × (has_bundle b bundles ≡ true)
known_to-parts peer b none h = absurd (ground (arith, h))
known_to-parts peer b (some (other, bundles)) h =
    let same : other ≡ peer = ground (arith, h, bytes_beq_iff other peer) in
    (bundles, rw same refl, ground (arith, h))

pub peers_laws : StoreLaws peers_store
peers_laws = record {
  known = λ w q r peer b. known_to peer b (Map.get (q, role_code r) w);
  recorded_known = λ q r peer b w w' o h.
      peers_recorded (q, role_code r) peer b w w' o (Map.get (q, role_code r) w) refl h;
  stays_known = λ q q' r r' peer peer' b b' w h.
      peers_stay (q, role_code r) (q', role_code r') peer peer' b b' w
        (Map.get (q', role_code r') w) refl h;
  duplicate = λ q r peer b w h.
      let (bundles, found, held) = known_to-parts peer b (Map.get (q, role_code r) w) h in
      let same : peer == peer ≡ true = ground (arith, bytes_beq_iff peer peer) in
      inl (rw (found, same, held) refl);
  conflict = λ q r peer other b b' w h differs.
      let (bundles, found, held) = known_to-parts peer b (Map.get (q, role_code r) w) h in
      let rival : peer == other ≡ false = ground (arith, differs, bytes_beq_iff peer other) in
      inl (rw (found, rival) refl);
}
