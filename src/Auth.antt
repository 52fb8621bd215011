-- ===== src/Auth.antt =====
-- libs/network/src/config/authOptions.ts: signing in, and the token of a session.
pub mod Token
pub mod SignIn
pub mod Session
pub mod Options
pub mod Shown
mod Tests
mod ShownTests
