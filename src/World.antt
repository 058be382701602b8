-- ===== src/World.antt =====
-- The state that the methods and callbacks of a Producer or Consumer share: the Handle and the
-- CallState of confluent_kafka/src/confluent_kafka.h, Python's error indicator and lock, the calls
-- made of librdkafka, and the C objects that the extension has to free.
mod Library
mod Monad
pub mod Laws
pub mod Quiet
pub use Library.*
pub use Monad.*
