-- ===== src/Admin.antt =====
-- The AdminClient, confluent_kafka/src/Admin.c.
pub mod Options
pub mod Build
pub mod Request
pub mod Event
pub mod Background
pub mod Rounds
pub mod Accounts
pub mod Resources
pub mod Requests
pub mod Settled
pub mod Sessions
pub mod TopicResults
