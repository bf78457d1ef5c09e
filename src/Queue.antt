-- ===== src/Queue.antt =====
-- frontend/src/features/queue: the queue of posts, its realtime events and its publishing.
pub mod Types
pub mod Keys
pub mod Events
pub mod Invalidator
pub mod Polling
pub mod Operations
pub mod Listing
pub mod Concurrency
pub mod Enrichment
pub mod Stream
pub mod Realtime
pub mod Publishing
pub mod View
