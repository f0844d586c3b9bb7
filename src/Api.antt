-- ===== src/Api.antt =====
-- frontend/src/lib/api.ts: the HTTP client.
pub mod Errors
pub mod Url
pub mod Types
pub mod Client
pub mod Retry
pub mod Messages
mod Tests
