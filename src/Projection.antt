-- ===== src/Projection.antt =====
-- server/internal/modules/projection: from the events of the source systems to records.
pub mod Inbox
pub mod Checkpoint
pub mod Store
pub mod Retry
pub mod Runner
pub mod ReadPointer
