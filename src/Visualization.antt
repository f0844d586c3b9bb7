-- ===== src/Visualization.antt =====
-- frontend/src/hooks/useVisualizationData.ts: what the pages show of the event stream.
pub mod Filters
pub mod Buffers
pub mod Transactions
pub mod Stages
pub mod Summary
mod Tests
