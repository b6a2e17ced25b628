-- ===== src/StorageNode.antt =====
-- The storage node, services/storage_node.
pub mod ChunkId
pub mod ChunkStore
pub mod Files
pub mod ChunkFiles
pub mod LocalDisk
pub mod FaultInjecting
pub mod Messages
pub mod Preamble
pub mod Streams
pub mod Service
pub mod Node
pub mod Main
mod Sample
mod Tests
mod HistoryTests
mod ThreadTests
mod IdTests
mod ServiceTests
mod MainTests
mod NodeTests
