-- ===== src/RateLimit.antt =====
-- apps/cofferwired/src/rate_limit.rs: the limiter of requests for each key.
pub mod Windows
pub mod Keys
pub mod Budget
mod Tests
use cofferwire.Base.{
  ℕ, ◌+◌, ◌%◌, Bool, true, false, none, some, List, [], ◌∷◌, ◌++◌, leb, Comparable, if◌then◌else◌,
  length,
}
use cofferwire.Base.Map
use cofferwire.Base.Map.{Map}
use cofferwire.Types.{u64_mod}

-- `poisoned` is the state of the lock: a holder panicked.
pub record RateLimiter (K : Type 0) : Type 0 where
  pub window_secs : ℕ
  pub max_requests : ℕ
  pub max_tracked_keys : ℕ
  pub windows : Map K (List ℕ)
  pub poisoned : Bool

-- RateLimiter::new
abbrev pub new_limiter : {K : Type 0} → ℕ → ℕ → ℕ → RateLimiter K
new_limiter window_secs max_requests max_tracked_keys = record {
  window_secs = window_secs;
  max_requests = max_requests;
  max_tracked_keys = max_tracked_keys;
  windows = [];
  poisoned = false;
}

-- The loop that drops the oldest entries; the sum of u64 wraps, as in a release build.
unfoldable pub drop_old : ℕ → ℕ → List ℕ → List ℕ
drop_old window now [] = []
drop_old window now (oldest ∷ entries) =
    if leb ((oldest + window) % u64_mod) now then drop_old window now entries else oldest ∷ entries

module _ {K : Type 0} ⦃e : Comparable K⦄ where
  -- What is left of a window at `now`, and whether it takes one more.
  abbrev pub admit_tracked : RateLimiter K → K → ℕ → List ℕ → Bool × RateLimiter K
  admit_tracked l key now entries =
      let left = drop_old l.window_secs now entries in
      if leb l.max_requests (length left)
      then (false, record l { windows = Map.insert key left l.windows })
      else (true, record l { windows = Map.insert key (left ++ now ∷ []) l.windows })

  unfoldable pub admit : RateLimiter K → K → ℕ → Bool × RateLimiter K
  admit l key now = if l.poisoned then (false, l) else elim (Map.get key l.windows) [
    | some entries ↦ admit_tracked l key now entries
    | none ↦
        if leb l.max_tracked_keys (length l.windows)
        then (false, l)
        else (true, record l { windows = Map.insert key (now ∷ []) l.windows })
  ]
