-- ===== src/Schema.antt =====
-- server/internal/modules/schema: of this module, the compatibility of two versions of a schema.
pub mod Compatibility
