-- ===== src/Sessions.antt =====
-- The sessions of the users and their refresh tokens: refresh, logout and the creation of sessions
-- in backend/src/modules/auth/auth.service.ts, and backend/src/modules/sessions/sessions.service.ts.
pub mod Model
pub mod Service
pub mod Ends
pub mod Rotation
pub mod Replay
pub mod Tabs
pub mod Gone
pub mod Final
pub mod Requests
mod Examples
