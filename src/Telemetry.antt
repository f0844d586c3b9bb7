-- ===== src/Telemetry.antt =====
-- The telemetry of the frontend: frontend/src/lib/errorReporter.ts and frontend/src/lib/webVitals.ts,
-- which batch what they send in the same way.
pub mod Batch
pub mod Post
pub mod Errors
pub mod Handlers
pub mod Vitals
mod Tests
