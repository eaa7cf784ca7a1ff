-- ===== src/Binding.antt =====
-- server/internal/modules/binding: record references, machine policies, workflow snapshots.
pub mod Reference
pub mod Policy
pub mod Snapshot
