-- ===== src/Go.antt =====
-- What the two Go services share: their settings from the environment, and their HTTP servers.
pub mod Env
pub mod Http
