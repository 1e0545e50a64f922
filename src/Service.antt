-- ===== src/Service.antt =====
-- internal/service: conversation ids and the member source shared by logic and job.
pub mod Conv
pub mod Members
