-- ===== src/Deliveries.antt =====
-- The deliveries of a company: backend/src/modules/deliveries.
pub mod Status
pub mod Model
pub mod Location
pub mod Service
pub mod Edit
pub mod Bulk
pub mod Tour
pub mod Amount
pub mod Import
pub mod Transitions
pub mod Verdict
pub mod Messages
pub mod Lifecycle
pub mod BulkLaws
pub mod Reachable
pub mod EditLaws
pub mod Examples
pub mod TourLaws
pub mod ImportLaws
