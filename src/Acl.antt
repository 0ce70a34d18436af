-- ===== src/Acl.antt =====
-- internal/acl: which client addresses may connect. Matcher is matcher.go, Config the decision of
-- config.go with its cache and its log, Config/Decision what a run of calls answers, Notify the loop that
-- logs and counts the decisions.
pub mod Matcher
pub mod Config
pub mod Notify
mod Tests
