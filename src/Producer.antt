-- ===== src/Producer.antt =====
-- The methods of a Producer, confluent_kafka/src/Producer.c.
pub mod Produce
pub mod Serve
pub mod Transaction
pub mod Reports
pub mod Outcome
pub mod Ends
pub mod Method
pub mod Queue
pub mod Runs
pub mod Session
pub mod Flight
