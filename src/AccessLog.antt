-- ===== src/AccessLog.antt =====
-- internal/logging/accesslog: how long the lines of a log are kept.
pub mod FileIo
pub mod BackScanner
pub mod LogTime
pub mod Formatter
pub mod Visit
pub mod Rotate
pub mod Retention
mod Tests
mod LineTests
pub mod Filter
pub mod Fields
