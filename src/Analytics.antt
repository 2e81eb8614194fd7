-- ===== src/Analytics.antt =====
-- internal/analytics: what is recorded of the traffic, and what is learned from it.
pub mod State
pub mod Store
pub mod Statistics
pub mod Analyzer
pub mod Api
