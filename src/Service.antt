-- ===== src/Service.antt =====
-- The package service: ordered start and stop, the ticker service, the health check.
pub mod Lifecycle
pub mod Ticker
pub mod HealthCheck
