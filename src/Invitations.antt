-- ===== src/Invitations.antt =====
-- The invitations to join a company: backend/src/modules/invitations/invitations.service.ts.
pub mod Model
pub mod Service
pub mod Accept
pub mod Requests
pub mod Single
pub mod Outcome
pub mod Closed
mod Examples
