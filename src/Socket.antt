-- ===== src/Socket.antt =====
-- frontend/src/hooks/useWebSocket.ts: the connection over which events arrive.
pub mod Timers
pub mod Types
pub mod Refs
pub mod Hook
pub mod Phases
pub mod Quiet
pub mod Attempts
mod Tests
