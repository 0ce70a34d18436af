-- ===== src/Idlewatcher/Loop.antt =====
-- internal/idlewatcher/watcher.go: the loop of watchUntilDestroy, with the steps of requests.
use godoxy.Prelude.{
  ℕ, Bool, true, false, not, ◌&&◌, Option, none, some, List, [], ◌∷◌, if◌then◌else◌,
}
use godoxy.Prelude.Bytes.{Bytes}
use godoxy.Idlewatcher.{
  container_paused, container_stopped, Watcher, running, set_starting, set_napping,
  reset_idle_timer, HealthCheck, check_update_state, wake, wait_for_ready, stop_by_method,
}

-- What arrives at the loop, with the time where the loop reads the clock.
pub data Event : Type 0 where
  container_starts container_stops container_pauses other_action : ℕ → Event
  force_reload : Event
  watcher_error : Event
  health_tick : ℕ → Bool → HealthCheck → Event
  idle_tick : Event

-- A step of a request: the idle timer, `Wake`, and a wait that ends.
pub data Request : Type 0 where
  resets : ℕ → Request
  wakes : Option Bytes → Option Bytes → Request
  waits : Bool → Request

abbrev pub stop_tickers : Watcher → Watcher
stop_tickers w = record w { idle_ticking = false; health_ticking = false }

-- After `checkUpdateState` in the loop.
unfoldable pub after_check : ℕ → Watcher × (Bool × Option Bytes) → Watcher
unfolding reset_idle_timer
after_check now (w, (ready, some e)) = record w { health_ticking = false }
after_check now (w, (true, none)) = reset_idle_timer now (record w { health_ticking = false })
after_check now (w, (false, none)) = w

-- One turn of the loop that does not leave it; how it is left stands in Ended. A ticker that is
-- stopped sends nothing: its step is left out then.
unfoldable pub on_event : Event → Watcher → Watcher
unfolding set_starting set_napping reset_idle_timer check_update_state after_check stop_by_method
on_event (container_starts now) w = record (set_starting now (reset_idle_timer now w)) {
  health_ticking = true;
}
on_event (container_stops now) w =
    stop_tickers (set_napping container_stopped (reset_idle_timer now w))
on_event (container_pauses now) w =
    stop_tickers (set_napping container_paused (reset_idle_timer now w))
on_event (other_action now) w = reset_idle_timer now w
on_event force_reload w = w
on_event watcher_error w = w
on_event (health_tick now host_set check) w =
    if w.health_ticking && running w && not w.state.ready
    then after_check now (check_update_state now host_set check w)
    else w
on_event idle_tick w =
    if w.idle_ticking then stop_by_method (record w { idle_ticking = false }) else w

abbrev pub after_wait : Watcher → Option (Watcher × Bool) → Watcher
after_wait w none = w
after_wait w (some (w', _)) = w'

unfoldable pub on_request : Request → Watcher → Watcher
unfolding reset_idle_timer wake wait_for_ready
on_request (resets now) w = reset_idle_timer now w
on_request (wakes deps answer) w = (wake deps answer w).0
on_request (waits cancelled) w = after_wait w (wait_for_ready cancelled w)

pub data Step : Type 0 where
  event : Event → Step
  request : Request → Step

unfoldable pub step : Step → Watcher → Watcher
unfolding on_event on_request
step (event e) w = on_event e w
step (request r) w = on_request r w

unfoldable pub steps : List Step → Watcher → Watcher
unfolding step
steps [] w = w
steps (s ∷ ss) w = steps ss (step s w)
