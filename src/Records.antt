-- ===== src/Records.antt =====
-- server/internal/modules/records: the data of a record and its checks, and the live feed of record
-- changes.
pub mod Model
pub mod Feed
