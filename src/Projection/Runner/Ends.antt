-- ===== src/Projection/Runner/Ends.antt =====
-- A message that keeps failing is ended, and its reason is bounded.
use record_hub.Base.{
  ℕ, zero, suc, ◌+◌, ◌≤◌, Text, Bool, true, false, is_empty, List, [], ◌∷◌, length, take, Option,
  none, some, ok, ltb, pos, Time, Bool-cases, ◌≡◌, inl, inr, refl, arith,
}
use mathlib.Core.Path.{subst}
use record_hub.Base.Trim.{trim_space}
use record_hub.Projection.Retry.{
  ErrorClass, HandlerError, DeadLetter, fallback_of, error_text, bounded_safe_message,
  retry_error_of, error_class,
}
use record_hub.Projection.Runner.{
  PullRunnerConfig, outside, validate_config, Settlement, Message, attempts_of, delivered_out,
  dead_letter_of, retry_message,
}

-- A text that is not empty and has at most 512 bytes.
abbrev pub Bounded : Text → Type 0
Bounded r = (length r ≤ 512) × (is_empty r ≡ false)

length-take : {A : Type 0} (n : ℕ) (xs : List A) → length (take n xs) ≤ n
length-take zero xs = omega arith
length-take (suc n) [] = omega arith
length-take (suc n) (x ∷ xs) = omega (arith, length-take n xs)

take-is_empty : (n : ℕ) (v : Text) → is_empty v ≡ false → is_empty (take (suc n) v) ≡ false
take-is_empty n [] h = h
take-is_empty n (c ∷ v) h = refl

bounded_safe_message-Bounded :
    (value fallback : Text) → Bounded fallback → Bounded (bounded_safe_message value fallback)
unfolding bounded_safe_message
bounded_safe_message-Bounded value fallback (short, there) =
    let v = trim_space value in
    elim (Bool-cases (is_empty v)) [
      | inl nothing ↦ rw nothing (short, there)
      | inr given ↦ elim (Bool-cases (ltb 512 (length v))) [
        | inl long ↦ rw given (rw long (length-take 512 v, take-is_empty 511 v given))
        | inr fits ↦ rw given (rw fits (ground arith, given))
      ]
    ]

fallback_of-Bounded : (class : ErrorClass) → Bounded (fallback_of class)
fallback_of-Bounded ErrorClass.transient = (omega arith, refl)
fallback_of-Bounded ErrorClass.deterministic = (omega arith, refl)

error_text-Bounded :
    (class : ErrorClass) (message : Text) → Bounded message → Bounded (error_text class message)
unfolding error_text
error_text-Bounded class message (short, there) = rw there (short, there)

-- The reason that is read from an error of DeterministicError or TransientError, which goes to the
-- broker and into dead letters, is never empty and has at most 512 bytes, whatever message the error
-- was made with.
reason_bounded :
    (class : ErrorClass) (message : Text)
    → let (class', reason) = error_class (retry_error_of class message) in
      (class' ≡ class) × (length reason ≤ 512) × (is_empty reason ≡ false)
unfolding error_class retry_error_of
reason_bounded class message =
    let kept = bounded_safe_message message (fallback_of class) in
    let fits =
      bounded_safe_message-Bounded message (fallback_of class) (fallback_of-Bounded class) in
    let (short, there) =
      bounded_safe_message-Bounded kept (error_text class kept)
        (error_text-Bounded class kept fits) in
    (refl, short, there)

valid-max_deliver :
    (c : PullRunnerConfig)
    → validate_config c ≡ ok tt
    → outside (pos 1) (pos 100) c.max_deliver ≡ false
unfolding validate_config
valid-max_deliver c valid = elim (Bool-cases (outside (pos 1) (pos 100) c.max_deliver)) [
  | inl bad ↦ absurd (ground arith)
  | inr good ↦ good
]

abbrev ended_or : ℕ → Settlement → Option ℕ → Option ℕ
ended_or n (Settlement.term_with_reason reason) later = some n
ended_or n (Settlement.nak_with_delay delay) later = later
ended_or n Settlement.publish_failed later = later

ended_or-some :
    (n bound : ℕ) (settlement : Settlement) (later : Option ℕ)
    → n ≤ bound
    → (k : ℕ) × (later ≡ some k) × (k ≤ bound)
    → (k : ℕ) × (ended_or n settlement later ≡ some k) × (k ≤ bound)
ended_or-some n bound (Settlement.term_with_reason reason) later le rest = (n, refl, le)
ended_or-some n bound (Settlement.nak_with_delay delay) later le rest = rest
ended_or-some n bound Settlement.publish_failed later le rest = rest

attempts_of_delivered :
    (m : Message) (n : ℕ) → 1 ≤ n → attempts_of (record m { num_delivered = some n }) ≡ n
unfolding attempts_of
attempts_of_delivered m n some_ = ground arith

module _ (sha256_hex : Text → Text) (json_event_id : Text → Option Text) (c : PullRunnerConfig)
    (publish : DeadLetter → Bool) (now : ℕ → Time) (m : Message) (failure : ℕ → HandlerError) where
  -- The `n`-th delivery of a message whose handler fails every time.
  abbrev delivery : ℕ → Settlement
  delivery n =
      retry_message sha256_hex json_event_id c (some publish) (now n)
        (record m { num_delivered = some n }) (failure n)

  -- The deliveries from the `n`-th on, until one ends the message: its number.
  unfoldable pub ended_at : ℕ → ℕ → Option ℕ
  ended_at zero n = none
  ended_at (suc fuel) n = ended_or n (delivery n) (ended_at fuel (n + 1))

  last_delivery :
      (n : ℕ)
      → 1 ≤ n
      → delivered_out n c.max_deliver ≡ true
      → ((l : DeadLetter) → publish l ≡ true)
      → (reason : Text) × (delivery n ≡ Settlement.term_with_reason reason)
  unfolding retry_message
  last_delivery n some_ out works =
      let m' = record m { num_delivered = some n } in
      let (class, reason) = error_class (failure n) in
      let att = attempts_of_delivered m n some_ in
      (
        reason,
        ground (arith, att, works (dead_letter_of sha256_hex json_event_id c (now n) m' reason)),
      )

  ended_at-some :
      (fuel n : ℕ)
      → 1 ≤ n
      → delivered_out (n + fuel) c.max_deliver ≡ true
      → ((l : DeadLetter) → publish l ≡ true)
      → (k : ℕ) × (ended_at (suc fuel) n ≡ some k) × (k ≤ n + fuel)
  unfolding ended_at
  ended_at-some zero n some_ out works =
      let (reason, ended) =
        last_delivery n some_ (subst (λ x. delivered_out x c.max_deliver ≡ true) (omega arith) out)
          works in
      (n, rw ended refl, omega arith)
  ended_at-some (suc fuel) n some_ out works =
      let (k, at, le) =
        ended_at-some fuel (n + 1) (omega arith)
          (subst (λ x. delivered_out x c.max_deliver ≡ true) (omega arith) out) works in
      ended_or-some n (n + suc fuel) (delivery n) (ended_at (suc fuel) (n + 1)) (omega arith)
        (k, at, omega (arith, le))

  -- With a configuration that passed its check and a publisher of dead letters that works, a
  -- message whose handler fails at every delivery is ended by the delivery MaxDeliver at the latest.
  pub ends_by_max_deliver :
      (limit : ℕ)
      → validate_config c ≡ ok tt
      → c.max_deliver ≡ pos limit
      → ((l : DeadLetter) → publish l ≡ true)
      → (k : ℕ) × (ended_at limit 1 ≡ some k) × (k ≤ limit)
  ends_by_max_deliver zero valid is works =
      let inside = valid-max_deliver c valid in absurd (ground arith)
  ends_by_max_deliver (suc fuel) valid is works =
      let (k, at, le) = ended_at-some fuel 1 (omega arith) (rw is (ground arith)) works in
      (k, at, omega (arith, le))
