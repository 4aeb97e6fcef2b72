-- ===== src/Batch.antt =====
-- The batch translation service, app/services/batch: tiers, the priority queue, the batcher, the
-- processor and the metrics, each a module below.
mod Tests
pub mod Config
pub mod Request
pub mod Heapq
pub mod Queue
pub mod Collect
pub mod Http
pub mod Processor
pub mod Process
pub mod Service
pub mod Metrics
