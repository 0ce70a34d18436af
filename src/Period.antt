-- ===== src/Period.antt =====
-- internal/metrics/period: samples of a metric kept for several periods. Entries is the ring buffer
-- of one period (entries.go), Filters the five periods (period.go), Window what the buffer holds.
pub mod Entries
pub mod Window
pub mod History
pub mod Filters
mod Tests
