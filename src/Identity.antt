-- ===== src/Identity.antt =====
-- server/internal/modules/identity: principals, workspace membership, workload rotation.
pub mod Principal
pub mod Authorization
pub mod Rotation
mod Tests
