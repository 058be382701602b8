-- ===== src/Consumer.antt =====
-- The Consumer of confluent_kafka/src/Consumer.c.
pub mod Assignment
pub mod Subscription
pub mod Offsets
pub mod Flow
pub mod Fetch
pub mod Lifecycle
pub mod Method
pub mod Closed
pub mod Balance
pub mod Session
