-- ===== src/Encryption.antt =====
-- Encryption at rest: backend/src/common/encryption.
pub mod Hex
pub mod Service
pub mod Middleware
pub mod RoundTrip
mod Examples
