-- ===== src/Deliveries/BulkLaws.antt =====
-- What a bulk action reports and which rows it changes.
pub mod Partition
pub mod Pushes
pub mod Matrix
