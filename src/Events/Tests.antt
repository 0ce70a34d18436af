-- ===== src/Events/Tests.antt =====
-- Witnesses for the theorem on the event queue.
use godoxy.Prelude.{ℕ, ◌≡◌, false, none, some, List, [], ◌∷◌}
use godoxy.Events.Queue.{
  Input, cancelled, tick, event, error, new_event_queue, run, received, Batches, run-arrived,
}

-- Two events, a flush that panics, one more event, and the end.
abbrev inputs : List (Input ℕ ℕ)
inputs =
    tick none
    ∷ event (some 1)
    ∷ event (some 2)
    ∷ tick (some 9)
    ∷ error (some (some 8))
    ∷ event (some 3)
    ∷ cancelled
    ∷ event (some 4)
    ∷ []

run-arrived_example :
    (received (run false inputs new_event_queue) ≡ 1 ∷ 2 ∷ 3 ∷ [])
    × Batches (run false inputs new_event_queue)
run-arrived_example = run-arrived inputs
