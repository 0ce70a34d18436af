-- ===== src/Events.antt =====
-- internal/watcher/events/event_queue.go: the queue that collects events and flushes them by interval.
-- The goroutine of `Start` is a step for each thing that it receives from its `select`.
pub mod Queue
mod Tests
