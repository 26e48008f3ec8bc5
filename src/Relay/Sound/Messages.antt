-- ===== src/Relay/Sound/Messages.antt =====
-- Distinct identifiers, and at most one message delivered, along the messages of a queue.
use cofferwire.Base.{
  ◌≡◌, refl, Bool, false, none, List, [], ◌∷◌, ◌++◌, Each, arith, bytes_beq_iff, find, retain, ◌==◌,
  bytes_same, Each-retain, Each-append,
}
use cofferwire.Types.{MessageId}
use cofferwire.Relay.{QueuedMessage}

abbrev pub has_id : MessageId → QueuedMessage → Bool
has_id id message = message.id == id

-- No identifier occurs twice.
abbrev pub Distinct : List QueuedMessage → Type 0
Distinct [] = Unit
Distinct (m ∷ ms) = (find (has_id m.id) ms ≡ none) × Distinct ms

abbrev pub Waiting : List QueuedMessage → Type 0
Waiting = Each (λ m. m.delivered ≡ false)

-- Only the first message may have been delivered.
abbrev pub HeadOnly : List QueuedMessage → Type 0
HeadOnly [] = Unit
HeadOnly (m ∷ ms) = Waiting ms

pub find-retain :
    (id : MessageId) (p : QueuedMessage → Bool) (ms : List QueuedMessage)
    → find (has_id id) ms ≡ none
    → find (has_id id) (retain p ms) ≡ none
unfolding find retain
find-retain id p [] h = refl
find-retain id p (m ∷ ms) h = ground (arith, find-retain id p ms)

pub Distinct-retain :
    (p : QueuedMessage → Bool) (ms : List QueuedMessage) → Distinct ms → Distinct (retain p ms)
unfolding retain
Distinct-retain p [] d = tt
Distinct-retain p (m ∷ ms) d = ground (arith, find-retain m.id p ms d.0, Distinct-retain p ms d.1)

find-snoc :
    (id : MessageId) (ms : List QueuedMessage) (m : QueuedMessage)
    → find (has_id id) ms ≡ none
    → m.id == id ≡ false
    → find (has_id id) (ms ++ m ∷ []) ≡ none
unfolding find
find-snoc id [] m h e = rw e
find-snoc id (x ∷ ms) m h e = ground (arith, find-snoc id ms m)

pub Distinct-snoc :
    (ms : List QueuedMessage) (m : QueuedMessage)
    → Distinct ms
    → find (has_id m.id) ms ≡ none
    → Distinct (ms ++ m ∷ [])
unfolding find
Distinct-snoc [] m d h = (refl, tt)
Distinct-snoc (x ∷ ms) m d h = ground (
  arith,
  find-snoc x.id ms m d.0,
  Distinct-snoc ms m d.1,
  bytes_beq_iff x.id m.id,
  bytes_beq_iff m.id x.id,
)

pub Waiting-HeadOnly : (ms : List QueuedMessage) → Waiting ms → HeadOnly ms
Waiting-HeadOnly [] w = tt
Waiting-HeadOnly (m ∷ ms) w = w.1

pub HeadOnly-retain :
    (p : QueuedMessage → Bool) (ms : List QueuedMessage) → HeadOnly ms → HeadOnly (retain p ms)
unfolding retain
HeadOnly-retain p [] h = tt
HeadOnly-retain p (m ∷ ms) h = ground (
  arith,
  Each-retain (λ (x : QueuedMessage). x.delivered ≡ false) p ms h,
  Waiting-HeadOnly (retain p ms),
)

pub HeadOnly-snoc :
    (ms : List QueuedMessage) (m : QueuedMessage)
    → HeadOnly ms
    → m.delivered ≡ false
    → HeadOnly (ms ++ m ∷ [])
HeadOnly-snoc [] m h e = tt
HeadOnly-snoc (x ∷ ms) m h e = Each-append _ ms (m ∷ []) h (e, tt)
