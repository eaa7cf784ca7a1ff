-- ===== src/Projection/Runner/Bounds.antt =====
-- The bounds that a checked configuration keeps, and the end of a message that keeps failing.
use record_hub.Base.{
  ℕ, zero, suc, ◌-◌, false, List, [], ◌∷◌, any, ok, ℤ, ◌≤ℤ◌, Bool-cases, ◌≡◌, inl, inr, arith,
}
use record_hub.Projection.Runner.{
  PullRunnerConfig, milliseconds, seconds, bad_delay, validate_config, clamped_at,
  runner_retry_delay,
}

abbrev pub Within : ℤ → Type 0
Within d = (milliseconds 10 ≤ℤ d) × (d ≤ℤ seconds 30)

bad_delay-Within : (d : ℤ) → bad_delay d ≡ false → Within d
bad_delay-Within d h = (ground arith, ground arith)

clamped_at-Within :
    (last : ℤ) (delays : List ℤ) (n : ℕ)
    → Within last
    → any bad_delay delays ≡ false
    → Within (clamped_at last delays n)
unfolding clamped_at
clamped_at-Within last [] n fits good = fits
clamped_at-Within last (d ∷ delays) zero fits good = bad_delay-Within d (ground arith)
clamped_at-Within last (d ∷ delays) (suc n) fits good =
    clamped_at-Within d delays n (bad_delay-Within d (ground arith)) (ground arith)

valid-backoff : (c : PullRunnerConfig) → validate_config c ≡ ok tt → any bad_delay c.backoff ≡ false
unfolding validate_config
valid-backoff c valid = elim (Bool-cases (any bad_delay c.backoff)) [
  | inl bad ↦ absurd (ground arith)
  | inr good ↦ good
]

valid-delay : (c : PullRunnerConfig) → validate_config c ≡ ok tt → bad_delay c.retry_delay ≡ false
unfolding validate_config
valid-delay c valid = elim (Bool-cases (bad_delay c.retry_delay)) [
  | inl bad ↦ absurd (ground arith)
  | inr good ↦ good
]

-- With a configuration that passed its check, a message that is put back waits at least 10 ms and
-- at most 30 s, at every delivery.
pub retry_delay_bounded :
    (c : PullRunnerConfig)
    → validate_config c ≡ ok tt
    → (attempts : ℕ)
    → (milliseconds 10 ≤ℤ runner_retry_delay c attempts)
      × (runner_retry_delay c attempts ≤ℤ seconds 30)
unfolding validate_config runner_retry_delay
retry_delay_bounded c valid attempts =
    clamped_at-Within c.retry_delay c.backoff (attempts - 1)
      (bad_delay-Within c.retry_delay (valid-delay c valid)) (valid-backoff c valid)
