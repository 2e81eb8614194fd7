-- ===== src/Dashboard.antt =====
-- internal/dashboard
pub mod Ring
pub mod LogStore
pub mod Process
pub mod Broker
pub mod Api
