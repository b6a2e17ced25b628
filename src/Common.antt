-- ===== src/Common.antt =====
-- The library that every service links, libs/common.
pub mod Result
pub mod ProtocolVersion
pub mod Sha256
pub mod ConfigSchema
pub mod Config
mod ConfigTests
mod PathTests
mod QueueTests
mod LoggerTests
mod LeaseTests
mod HashTests
pub mod PathValidator
pub mod Clock
pub mod Lease
pub mod Logger
pub mod BoundedBlockingQueue
