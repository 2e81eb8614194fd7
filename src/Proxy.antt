-- ===== src/Proxy.antt =====
-- internal/proxy: which backend serves a request.
pub mod LoadBalancer
pub mod Weighted
pub mod Router
mod Tests
