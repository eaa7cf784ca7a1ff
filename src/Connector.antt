-- ===== src/Connector.antt =====
-- server/internal/modules/connector: the registry of connectors and their onboarding. `Names` has
-- the patterns and versions, `Manifest` the manifest and its normal form.
pub mod Names
pub mod Manifest
pub mod Registry
pub mod Onboarding
mod Tests
