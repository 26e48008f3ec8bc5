-- ===== src/RateLimit/Tests.antt =====
-- A limiter with a window of 60 seconds: runs of it, and the theorems at its inputs.
use cofferwire.Base.{ℕ, ◌≤◌, ◌≡◌, refl, List, [], ◌∷◌, arith, length, nat_same}
use cofferwire.Base.Map
use cofferwire.RateLimit.{RateLimiter, new_limiter, admit, drop_old}
use cofferwire.RateLimit.Keys.{served, served_tracked_bound, admit_elsewhere}
use cofferwire.RateLimit.Windows.{in_window}
use cofferwire.RateLimit.Budget.{serve, serve_budget}

abbrev three_a_minute : RateLimiter ℕ
three_a_minute = new_limiter 60 3 100

abbrev burst : List (ℕ × ℕ)
burst = (1, 1000) ∷ (1, 1010) ∷ (2, 1015) ∷ (1, 1020) ∷ (1, 1030) ∷ (1, 1060) ∷ []

-- The fourth request of the key in a window is refused, and the one after the window admitted.
burst_times : (serve 1 (three_a_minute, []) burst).1 ≡ 1000 ∷ 1010 ∷ 1020 ∷ 1060 ∷ []
unfolding serve drop_old Map.get Map.insert
burst_times = refl

serve_budget_example : in_window 1010 60 (serve 1 (three_a_minute, []) burst).1 ≤ 3
serve_budget_example = serve_budget 60 3 100 1 burst 1010 (omega arith) (omega arith)

served_tracked_bound_example : length (served (new_limiter 60 3 1) burst).windows ≤ 1
served_tracked_bound_example = served_tracked_bound burst (new_limiter 60 3 1) (omega arith)

admit_elsewhere_example :
    Map.get 8 (admit three_a_minute 7 5).1.windows ≡ Map.get 8 (three_a_minute.windows)
admit_elsewhere_example = admit_elsewhere three_a_minute 7 8 5 (omega arith)
