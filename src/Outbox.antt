-- ===== src/Outbox.antt =====
-- apps/api/src/common/outbox: the transactional outbox, its relay to Kafka, and the consumer.
pub mod Entity
pub mod Services
pub mod Relay
pub mod Memory
pub mod Service
pub mod Worker
pub mod Publisher
pub mod Consumer
pub mod Interleaving
pub mod Pipeline
mod Tests
