-- ===== src/Billing.antt =====
-- Manual payment: the proofs that a company submits, their review, the activation of a subscription,
-- and the guard that closes a company's access when its subscription has ended.
pub mod Model
pub mod Trim
pub mod Service
pub mod Guard
pub mod Access
pub mod Refusal
pub mod Redeem
pub mod Pending
pub mod Requests
mod Examples
