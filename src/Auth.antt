-- ===== src/Auth.antt =====
-- internal/auth: sessions, and the limits on failed logins.
pub mod Passwords
pub mod Sessions
pub mod Manager
