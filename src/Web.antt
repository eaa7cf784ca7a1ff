-- ===== src/Web.antt =====
-- server/internal/web: of this package, the sessions of browsers, their logins and their protection.
pub mod Session
pub mod Csrf
pub mod Login
