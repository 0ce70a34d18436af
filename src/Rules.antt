-- ===== src/Rules.antt =====
-- internal/route/rules: the little language of route rules. Parser reads an expression into a subject
-- and its arguments, Matcher the matchers of `on` conditions.
pub mod Parser
pub mod Command
pub mod Engine
pub mod On
mod Tests
