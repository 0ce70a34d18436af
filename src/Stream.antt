-- ===== src/Stream.antt =====
-- agent/pkg/agent/stream: tunnelled connections between GoDoxy and an agent. Header is the fixed-size
-- request header (header.go), and Header/RoundTrip what it carries.
pub mod Header
mod Tests
