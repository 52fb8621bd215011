-- ===== src/Outbox/Tests.antt =====
-- The theorems of the outbox at concrete data.
mod Relay
mod Worker
mod Publisher
mod Consumer
mod Pipeline
mod Interleaving
mod Consumers
mod Processes
mod Recovery
mod Deployed
mod Kafka
