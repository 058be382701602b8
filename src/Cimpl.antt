-- ===== src/Cimpl.antt =====
-- The initialisation of the extension module, confluent_kafka/src/confluent_kafka.c: the types, the
-- module's objects and constants, and KafkaError's constants with their documentation.
pub mod Errors
pub mod Lines
pub mod Rows
pub mod Bounds
pub mod Types
