-- ===== src/Comet.antt =====
-- internal/comet: the access layer that holds the WebSocket connections.
pub mod Conn
pub mod Bucket
pub mod Server
pub mod Auth
pub mod Dispatch
pub mod Drain
pub mod Steps
