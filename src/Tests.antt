-- ===== src/Tests.antt =====
-- Small runs of the operations, and for each theorem with hypotheses a place where they hold.
pub mod Queues
pub mod Topics
pub mod Groups
pub mod Acks
pub mod Router
pub mod Server
pub mod Protocol
pub mod Persistence
pub mod Models
pub mod Client
pub mod Connection
