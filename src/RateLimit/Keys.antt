-- ===== src/RateLimit/Keys.antt =====
-- The number of tracked keys, and the independence of keys.
use cofferwire.Base.{ℕ, suc, ◌≤◌, ◌≡◌, ◌≢◌, some, List, [], ◌∷◌, arith, Comparable, length}
use cofferwire.Base.Map
use cofferwire.Base.Map.{Map, get-insert_ne}
use cofferwire.RateLimit.{RateLimiter, admit}

module _ {ℓ} {K : Type ℓ} {V : Type 0} ⦃e : Comparable K⦄ where
  length-insert_tracked :
      (k : K) (v w : V) (m : Map K V) → Map.get k m ≡ some w → length (Map.insert k v m) ≡ length m
  unfolding Map.get Map.insert
  length-insert_tracked k v w [] h = absurd (ground arith)
  length-insert_tracked k v w ((j, x) ∷ m) h = ground (arith, length-insert_tracked k v w m)

  length-insert-le : (k : K) (v : V) (m : Map K V) → length (Map.insert k v m) ≤ suc (length m)
  unfolding Map.insert
  length-insert-le k v [] = omega arith
  length-insert-le k v ((j, x) ∷ m) = ground (arith, length-insert-le k v m)

module _ {K : Type 0} ⦃e : Comparable K⦄ where
  -- The limiter never tracks more keys than it was made for.
  admit_tracked_bound :
      (l : RateLimiter K) (key : K) (now : ℕ)
      → length l.windows ≤ l.max_tracked_keys
      → length (admit l key now).1.windows ≤ (admit l key now).1.max_tracked_keys
  unfolding admit
  admit_tracked_bound l key now h = grind (arith, length-insert_tracked, length-insert-le)

  -- The limiter after requests, each of a key at a time.
  unfoldable pub served : RateLimiter K → List (K × ℕ) → RateLimiter K
  unfolding admit
  served l [] = l
  served l ((key, now) ∷ requests) = served (admit l key now).1 requests

  admit_keeps_capacity :
      (l : RateLimiter K) (key : K) (now : ℕ)
      → (admit l key now).1.max_tracked_keys ≡ l.max_tracked_keys
  unfolding admit
  admit_keeps_capacity l key now = ground arith

  -- A limiter that tracks no more keys than its capacity, as a new one, tracks no more than that after
  -- any requests, under whatever keys and at whatever times.
  pub served_tracked_bound :
      (requests : List (K × ℕ)) (l : RateLimiter K)
      → length l.windows ≤ l.max_tracked_keys
      → length (served l requests).windows ≤ l.max_tracked_keys
  unfolding served
  served_tracked_bound [] l h = h
  served_tracked_bound ((key, now) ∷ requests) l h =
      rw (admit_keeps_capacity l key now) at
        (served_tracked_bound requests (admit l key now).1 (admit_tracked_bound l key now h))

  -- A request under one key leaves the window of every other key as it is.
  pub admit_elsewhere :
      (l : RateLimiter K) (key j : K) (now : ℕ)
      → key ≢ j
      → Map.get j (admit l key now).1.windows ≡ Map.get j l.windows
  unfolding admit
  admit_elsewhere l key j now h = grind (arith, get-insert_ne)
