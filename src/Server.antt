-- ===== src/Server.antt =====
-- internal/server: who may call, whose accounts serve the call, and the rotation over accounts.
pub mod Auth
pub mod Chat
pub mod Handler
pub mod Login
pub mod Pages
pub mod Admin
mod Tests
