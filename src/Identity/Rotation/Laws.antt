-- ===== src/Identity/Rotation/Laws.antt =====
-- The life of one rotation: what a successful step needs, records and keeps.
use record_hub.Base.{
  Text, text_eq, true, false, some, [], ◌∷◌, ◌++◌, ok, int_eq, Time, ◌≡◌, ◌≢◌, ◌⊎◌, inl, inr, arith,
  Option-cases, Result-cases,
}
use record_hub.Base.Map.{lookup, insert, lookup-insert}
use record_hub.Identity.Rotation.{
  PrincipalState, Rotation, MemoryAudit, Service, audit_entry, commit, Mutation, stamped,
  transition,
}

-- What holds of every stored rotation.
pub record IsValid (r : Rotation) : Type 0 where
  pub draining_dual : r.old_state ≡ PrincipalState.draining → r.dual_accepted ≡ true
  pub activated :
      r.new_state ≡ PrincipalState.active
      → (r.old_state ≡ PrincipalState.revoked) × (r.dual_accepted ≡ true)
  pub new_states : (r.new_state ≡ PrincipalState.active) ⊎ (r.new_state ≡ PrincipalState.candidate)
  pub old_states : r.old_state ≢ PrincipalState.candidate

pub record IsSound (s : Service) : Type 0 where
  pub each : (k : Text) (r : Rotation) → lookup k s.values ≡ some r → IsValid r × (r.owner ≡ k)

-- What one successful write does: one entry more in the trail, one rotation put.
pub record Written (s : Service) (owner : Text) (r : Rotation) (action actor reason : Text)
    (out : Rotation × Service) : Type 0 where
  pub writer : MemoryAudit
  pub had : s.audit ≡ some writer
  pub running : writer.failing ≡ false
  pub result : out.0 ≡ r
  pub values : out.1.values ≡ insert owner r s.values
  pub trail :
      out.1.audit
      ≡ some (record writer { entries = writer.entries ++ audit_entry r action actor reason ∷ [] })

pub commit-Written :
    (s : Service) (owner : Text) (r : Rotation) (action actor reason : Text)
    {out : Rotation × Service}
    → commit s owner r action actor reason ≡ ok out
    → Written s owner r action actor reason out
unfolding commit
commit-Written s owner r action actor reason h = elim (Option-cases s.audit) [
  | inl nil ↦ absurd (ground arith)
  | inr (w, e) ↦ record {
    writer = w;
    had = e;
    running = ground arith;
    result = ground arith;
    values = ground arith;
    trail = ground arith;
  }
]

pub insert-IsSound :
    (s t : Service) (owner : Text) (r : Rotation)
    → IsSound s
    → t.values ≡ insert owner r s.values
    → IsValid r
    → r.owner ≡ owner
    → IsSound t
insert-IsSound s t owner r sound e valid own = record {
  each = λ k q h. ground (arith, lookup-insert owner k r s.values, sound.each k q);
}

-- What a successful transition read and wrote.
pub record Moved (s : Service) (now : Time) (owner action actor reason : Text) (mutate : Mutation)
    (out : Rotation × Service) : Type 0 where
  pub was : Rotation
  pub next : Rotation
  pub found : lookup owner s.values ≡ some was
  pub allowed : mutate was ≡ ok next
  pub write : Written s owner (stamped now next) action actor reason out

pub transition-Moved :
    (now : Time) (owner action actor reason : Text) (mutate : Mutation) (s : Service)
    {out : Rotation × Service}
    → transition now owner action actor reason mutate s ≡ ok out
    → Moved s now owner action actor reason mutate out
unfolding transition
transition-Moved now owner action actor reason mutate s h =
    elim (Option-cases (lookup owner s.values)) [
      | inl nil ↦ absurd (ground arith)
      | inr (w, e) ↦ elim (Result-cases (mutate w)) [
        | inr (x, bad) ↦ absurd (ground arith)
        | inl (n, good) ↦ record {
          was = w;
          next = n;
          found = e;
          allowed = good;
          write = commit-Written s owner (stamped now n) action actor reason (ground arith);
        }
      ]
    ]
