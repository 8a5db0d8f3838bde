-- ===== src/Tracking.antt =====
-- The positions of vehicles: backend/src/common/geo, tracking.service.ts and the acceptance of a
-- tracker's fix in traccar-bridge.service.ts, both in backend/src/modules/tracking.
pub mod Wake
pub mod Released
pub mod Fixes
pub mod Stops
pub mod Filter
pub mod Counted
pub mod Speed
pub mod Teleport
pub mod Rows
pub mod Batch
pub mod Save
pub mod Arrival
pub mod Covers
pub mod Kept
pub mod Runs
pub mod Collapsed
mod Examples
