-- ===== src/Examples.antt =====
-- Concrete runs of the modelled code.
pub mod Protocol
pub mod Snowflake
pub mod Conversation
pub mod SendMsg
pub mod Comet
pub mod Job
pub mod Sync
pub mod Instance
pub mod Groups
pub mod Sessions
pub mod Members
pub mod Reading
