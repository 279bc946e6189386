-- ===== src/Source.antt =====
-- `source::mqtt<T>` (include/source/mqtt.h): messages that belong together are collected, one
-- collector for each hash, until an item is complete.
pub mod Run
pub mod Samples
pub mod Collector
pub mod Info
pub mod Events
pub mod Buffer
pub mod Log
pub mod Kinds
mod Tests
