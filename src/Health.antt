-- ===== src/Health.antt =====
-- Health of a service: the status byte of internal/types/health.go (child Status) and the monitor of
-- internal/health/monitor/monitor.go (child Monitor, its proofs in Monitor/Outage).
pub mod Status
pub mod Monitor
mod Tests
