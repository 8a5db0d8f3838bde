-- ===== src/Webhooks.antt =====
-- Webhooks, their deliveries and the retries: backend/src/modules/webhooks/webhooks.service.ts with
-- webhook-url-validator.ts, and backend/src/queue/webhook-retry.processor.ts.
pub mod Model
pub mod Service
pub mod Retry
pub mod Attempts
pub mod Deleted
pub mod Address
pub mod Special
mod Examples
