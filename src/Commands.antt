-- ===== src/Commands.antt =====
-- server/internal/modules/commands: the command gateway. `Model` has the data and its validation,
-- `Store` the store interface and `Memory` its implementation, `Service` the service, `Inbox` the
-- owner's side.
pub mod Model
pub mod Store
pub mod Memory
pub mod Policies
pub mod Service
pub mod Inbox
mod Tests
