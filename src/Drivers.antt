-- ===== src/Drivers.antt =====
-- The drivers of a company and the history of the vehicles that they are assigned to:
-- backend/src/modules/drivers/drivers.service.ts and
-- backend/src/common/vehicle-assignment/vehicle-assignment-history.service.ts.
pub mod Model
pub mod History
pub mod Service
pub mod Exclusive
pub mod Refinement
pub mod Assign
pub mod Agreement
pub mod Requests
pub mod Reachable
mod Examples
