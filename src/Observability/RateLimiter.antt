-- ===== src/Observability/RateLimiter.antt =====
-- server/internal/observability/ratelimit.go: the fixed-window limiter. A duration is the difference
-- of two instants in nanoseconds; a nil limiter, which allows everything, is not modelled. The limit
-- is an int that is at least 1, so the count, which never passes it, does not overflow.
mod Tests
use record_hub.Base.{
  ℕ, ◌+◌, ◌-◌, ◌≤◌, Bool, true, false, not, ◌||◌, if◌then◌else◌, ltb, leb, ℤ, pos, ◌+ℤ◌, ◌-ℤ◌, Time,
  is_zero, before, Option, none, some, int_eq, List, [], ◌∷◌, length, All, ◌≡◌, refl, arith,
  Bool-cases, inl, inr, ltb_ℤ, leb_ℤ,
}

pub record RateLimiter : Type 0 where
  pub limit : ℕ
  pub window : ℕ
  pub window_start : Time
  pub count : ℕ

-- `NewRateLimiter` of an int limit and a window in nanoseconds.
abbrev pub new_rate_limiter : ℤ → ℤ → Option RateLimiter
new_rate_limiter (pos limit) (pos window) =
    if ltb limit 1 || leb window 0
    then none
    else some (record { limit = limit; window = window; window_start = pos 0; count = 0 })
new_rate_limiter _ _ = none

abbrev pub is_outside : Time → RateLimiter → Bool
is_outside now l =
    is_zero l.window_start
    || before now l.window_start
    || not (before now (l.window_start +ℤ pos l.window))

abbrev pub renewed : Time → RateLimiter → RateLimiter
renewed now l = if is_outside now l then record l { window_start = now; count = 0 } else l

-- What is left of the window.
abbrev pub rest_of_window : Time → RateLimiter → ℤ
rest_of_window now l = (l.window_start +ℤ pos l.window) -ℤ now

-- `Allow`
unfoldable pub allow : Time → RateLimiter → Bool × ℤ × RateLimiter
allow now raw =
    let l = renewed now raw in
    if leb l.limit l.count
    then (false, rest_of_window now l, l)
    else (true, rest_of_window now l, record l { count = l.count + 1 })

-- How many of the calls at these times are allowed.
unfoldable pub granted : List Time → RateLimiter → ℕ
granted [] l = 0
granted (now ∷ times) l =
    let (allowed, rest, l') = allow now l in
    if allowed then 1 + granted times l' else granted times l'

-- The call at that time falls into the window that is open.
abbrev pub InWindow : RateLimiter → Time → Type 0
InWindow l now = is_outside now l ≡ false

-- Of the calls that fall into one open window, in whatever order they come, exactly as many are
-- allowed as the limit leaves, or all of them if they are fewer.
pub granted_exact :
    (times : List Time) (l : RateLimiter)
    → l.count ≤ l.limit
    → All (InWindow l) times
    → granted times l
      ≡ (if leb (length times) (l.limit - l.count) then length times else l.limit - l.count)
unfolding granted allow
granted_exact [] l c w = ground arith
granted_exact (now ∷ times) l c w = elim (Bool-cases (leb l.limit l.count)) [
  | inl full ↦ rw (w.0, full) (ground (arith, granted_exact times l c w.1))
  | inr free ↦
      let room : l.count + 1 ≤ l.limit = ground arith in
      let rest = granted_exact times (record l { count = l.count + 1 }) room w.1 in
      rw (w.0, free) (ground (arith, rest))
]
