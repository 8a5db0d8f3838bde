-- ===== src/OfflineQueue.antt =====
-- The queue of positions that the driver's app keeps while it is offline:
-- frontend/src/services/offlineQueue.ts.
pub mod Store
pub mod Ordered
pub mod Compaction
pub mod Quota
pub mod Flush
pub mod Drain
mod Examples
