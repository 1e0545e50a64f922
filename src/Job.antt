-- ===== src/Job.antt =====
-- internal/job: the consumers of the Kafka topics.
pub mod World
pub mod Receiver
pub mod Rows
pub mod Store
pub mod Push
pub mod Reconcile
pub mod GroupEvents
pub mod RunLoop
