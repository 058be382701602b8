-- ===== src/Collect.antt =====
-- The references that the extension's objects hold: their tp_traverse, tp_clear, tp_dealloc and, for
-- NewTopic and NewPartitions, tp_init. A pointer of an object is an Option, `none` its NULL.
pub mod Slots
pub mod Admin
pub mod Balance
pub mod Objects
pub mod Handles
