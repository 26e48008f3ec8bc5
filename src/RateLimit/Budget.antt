-- ===== src/RateLimit/Budget.antt =====
-- No window of the limiter's length holds more admitted requests of a key than its budget.
use cofferwire.Base.{
  ℕ, ◌+◌, ◌≤◌, ◌<◌, ◌≡◌, refl, inl, inr, List, [], ◌∷◌, ◌++◌, arith, Comparable, length,
  Option-cases, Bool-cases, if◌then◌else◌, leb, ◌==◌,
}
use cofferwire.Base.Map
use cofferwire.Base.Map.{get-insert_self}
use cofferwire.Types.{u64_mod}
use cofferwire.RateLimit.{RateLimiter, admit, drop_old, admit_tracked, new_limiter}
use cofferwire.RateLimit.Keys.{admit_elsewhere}
use cofferwire.RateLimit.Windows.{
  in_window, Tracked, Tracked-first, Tracked-drop, Tracked-push, Window, Window-later, noted,
  in_window-Window,
}

module _ {K : Type 0} ⦃e : Comparable K⦄ where
  -- The requests in turn, with the times at which `key` was admitted.
  unfoldable pub serve : K → RateLimiter K × List ℕ → List (K × ℕ) → RateLimiter K × List ℕ
  unfolding admit
  serve key (l, times) [] = (l, times)
  serve key (l, times) ((k, now) ∷ requests) =
      let (admitted, l') = admit l k now in
      serve key (l', if k == key then (if admitted then times ++ now ∷ [] else times) else times)
        requests

  -- The clock does not go back, and a window that begins at any of its times ends in 64 bits.
  abbrev pub InTime : ℕ → ℕ → List (K × ℕ) → Type 0
  InTime w now [] = Unit
  InTime w now ((k, later) ∷ requests) =
      (now ≤ later) × (later + w < u64_mod) × InTime w later requests

  abbrev WindowOf : RateLimiter K → K → ℕ → List ℕ → Type 0
  WindowOf l key now times = Window l.window_secs l.max_requests now times (Map.get key l.windows)

  admit_keeps_policy :
      (l : RateLimiter K) (k : K) (now : ℕ)
      → ((admit l k now).1.window_secs ≡ l.window_secs)
        × ((admit l k now).1.max_requests ≡ l.max_requests)
  unfolding admit
  admit_keeps_policy l k now = ground arith

  WindowOf-admit_tracked :
      (l : RateLimiter K) (key : K) (now : ℕ) (times entries : List ℕ)
      → now + l.window_secs < u64_mod
      → Tracked l.window_secs l.max_requests now times entries
      → let (admitted, l') = admit_tracked l key now entries in
        WindowOf l' key now (noted admitted now times)
  WindowOf-admit_tracked l key now times entries fit s =
      let left = drop_old l.window_secs now entries in
      let kept = Tracked-drop l.window_secs l.max_requests now times entries s in
      elim (Bool-cases (leb l.max_requests (length left))) [
        | inl over ↦ rw over (rw get-insert_self kept)
        | inr room ↦ rw room (
            rw get-insert_self
              (Tracked-push l.window_secs l.max_requests now times left (ground arith) fit kept))
      ]

  admit-WindowOf :
      (l : RateLimiter K) (key : K) (now : ℕ) (times : List ℕ)
      → 0 < l.max_requests
      → now + l.window_secs < u64_mod
      → WindowOf l key now times
      → let (admitted, l') = admit l key now in WindowOf l' key now (noted admitted now times)
  unfolding admit
  admit-WindowOf l key now times pos fit s = elim (Bool-cases l.poisoned) [
    | inl bad ↦ simp bad s
    | inr good ↦ elim (Option-cases (Map.get key l.windows)) [
      | inr (entries, found) ↦
          simp good
            (rw (found, admit) (WindowOf-admit_tracked l key now times entries fit (rw found at s)))
      | inl fresh ↦ elim (Bool-cases (leb l.max_tracked_keys (length l.windows))) [
        | inl full ↦ simp (good, fresh, full) (simp fresh at s)
        | inr free ↦
            simp (good, fresh, free, get-insert_self)
              (rw (rw fresh at s) (Tracked-first l.window_secs l.max_requests now pos fit))
      ]
    ]
  ]

  turn-WindowOf :
      (l : RateLimiter K) (key k : K) (now later : ℕ) (times : List ℕ)
      → 0 < l.max_requests
      → now ≤ later
      → later + l.window_secs < u64_mod
      → WindowOf l key now times
      → let (admitted, l') = admit l k later in
        WindowOf l' key later (if k == key then noted admitted later times else times)
  turn-WindowOf l key k now later times pos h fit s =
      let s' : WindowOf l key later times =
        Window-later l.window_secs l.max_requests now later times (Map.get key l.windows) h s in
      elim (Bool-cases (k == key)) [
        | inl same ↦
            rw same (rw ((e.same_iff k key).0 same) (admit-WindowOf l key later times pos fit s'))
        | inr other ↦
            let (same_window, same_budget) = admit_keeps_policy l k later in
            rw other (
              rw (admit_elsewhere l k key later (λ p. ground (arith, e.same_iff k key)))
                (rw same_window (rw same_budget s')))
      ]

  serve-WindowOf :
      (key : K) (requests : List (K × ℕ)) (l : RateLimiter K) (now : ℕ) (times : List ℕ) (t : ℕ)
      → 0 < l.max_requests
      → InTime l.window_secs now requests
      → WindowOf l key now times
      → in_window t l.window_secs (serve key (l, times) requests).1 ≤ l.max_requests
  unfolding serve
  serve-WindowOf key [] l now times t pos h s =
      in_window-Window l.window_secs l.max_requests now t times (Map.get key l.windows) s
  serve-WindowOf key ((k, later) ∷ requests) l now times t pos h s =
      let (same_window, same_budget) = admit_keeps_policy l k later in
      rw same_window at (
        rw same_budget at (
          serve-WindowOf key requests (admit l k later).1 later
            (if k == key then noted (admit l k later).0 later times else times) t
            (rw same_budget pos) (rw same_window h.2)
            (turn-WindowOf l key k now later times pos h.0 h.1 s)))

-- Of a new limiter with a budget that is not 0, whatever the requests under whatever keys, if the
-- clock does not go back and no window ends beyond 64 bits, then of the requests under one key no
-- more are admitted in any window of the limiter's length than the budget.
pub serve_budget :
    {K : Type 0} ⦃e : Comparable K⦄ (window_secs max_requests max_tracked_keys : ℕ) (key : K)
    (requests : List (K × ℕ)) (t : ℕ)
    → 0 < max_requests
    → InTime window_secs 0 requests
    → in_window t window_secs
        (serve key (new_limiter window_secs max_requests max_tracked_keys, []) requests).1
      ≤ max_requests
serve_budget window_secs max_requests max_tracked_keys key requests t pos h =
    serve-WindowOf key requests (new_limiter window_secs max_requests max_tracked_keys) 0 [] t pos h
      (unfold Map.get in refl)
