-- ===== src/Processor.antt =====
-- The concurrent block processor of pkg/indexer/concurrent_processor.go, part by part. A block's
-- hash is a text, and "" is an unknown one; heights are natural numbers.
pub mod Types
pub mod WalkBack
pub mod Retry
pub mod Fetch
pub mod Dispatch
pub mod Run
pub mod Check
pub mod Apply
pub mod Episode
pub mod Collector
pub mod Rollbacks
pub mod Tests
