-- ===== src/Observability/RateLimiter/Tests.antt =====
-- The limiter on concrete times.
use record_hub.Base.{ℕ, List, [], ◌∷◌, ℤ, pos, Time, ◌≡◌, refl, arith}
use record_hub.Observability.RateLimiter.{RateLimiter, granted, granted_exact}

abbrev limiter : RateLimiter
limiter = record { limit = 3; window = 10; window_start = pos 100; count = 1 }

granted_exact_example : granted (pos 101 ∷ pos 105 ∷ pos 103 ∷ []) limiter ≡ 2
unfolding record_hub.Base.ℤ-discrete
granted_exact_example =
    granted_exact (pos 101 ∷ pos 105 ∷ pos 103 ∷ []) limiter (omega arith)
      (refl, (refl, (refl, tt)))
