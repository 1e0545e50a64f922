-- ===== src/Logic.antt =====
-- internal/logic: the stateless business layer.
pub mod World
pub mod SendMsg
pub mod Sync
pub mod Conversations
pub mod Friends
pub mod Verifier
pub mod Token
