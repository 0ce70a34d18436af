-- ===== src/Idlewatcher/Phase.antt =====
-- internal/idlewatcher: what a watcher promises of its container, a machine of five phases.
use godoxy.Prelude.{ℕ, ◌+◌, ◌≡◌, Bool, true, false, Option, none, some, if◌then◌else◌}
use godoxy.Prelude.Bytes.{Bytes}
use godoxy.Idlewatcher.{
  container_error, container_running, container_paused, container_stopped, ContainerState, Watcher,
  timeout_error, timed_out, HealthCheck, check_failed, check_healthy, check_unhealthy,
}
use godoxy.Idlewatcher.Loop.{
  container_starts, container_stops, container_pauses, other_action, force_reload, watcher_error,
  health_tick, idle_tick, Step, event, request,
}

-- The container naps (stopped, or paused), starts (since a time that may be unknown, with a number of
-- failed checks), is healthy, or has failed.
pub data Phase : Type 0 where
  stopped paused healthy : Phase
  starting : Option ℕ → ℕ → Phase
  failed : Bytes → Phase

abbrev pub state_of : Phase → ContainerState
state_of stopped = record {
  status = container_stopped;
  ready = false;
  err = none;
  started_at = none;
  health_tries = 0;
}
state_of paused = record {
  status = container_paused;
  ready = false;
  err = none;
  started_at = none;
  health_tries = 0;
}
state_of healthy = record {
  status = container_running;
  ready = true;
  err = none;
  started_at = none;
  health_tries = 0;
}
state_of (starting t n) = record {
  status = container_running;
  ready = false;
  err = none;
  started_at = t;
  health_tries = n;
}
state_of (failed e) = record {
  status = container_error;
  ready = false;
  err = some e;
  started_at = none;
  health_tries = 0;
}

abbrev pub phase_check : HealthCheck → Option ℕ → ℕ → Phase
phase_check (check_failed e) t n = failed e
phase_check check_healthy t n = healthy
phase_check check_unhealthy t n = starting t (n + 1)

-- Only a check of a starting container, with a known address, changes the phase.
abbrev pub phase_tick : ℕ → ℕ → Bool → HealthCheck → Phase → Phase
phase_tick timeout now host_set check stopped = stopped
phase_tick timeout now host_set check paused = paused
phase_tick timeout now host_set check healthy = healthy
phase_tick timeout now host_set check (failed e) = failed e
phase_tick timeout now host_set check (starting t n) =
    if host_set
    then if timed_out now timeout t then failed timeout_error else phase_check check t n
    else starting t n

-- The machine: the container's events set the phase, requests never change it.
abbrev pub phase_step : ℕ → Step → Phase → Phase
phase_step timeout (event (container_starts now)) p = starting (some now) 0
phase_step timeout (event (container_stops now)) p = stopped
phase_step timeout (event (container_pauses now)) p = paused
phase_step timeout (event (health_tick now host_set check)) p =
    phase_tick timeout now host_set check p
phase_step timeout (event (other_action now)) p = p
phase_step timeout (event force_reload) p = p
phase_step timeout (event watcher_error) p = p
phase_step timeout (event idle_tick) p = p
phase_step timeout (request r) p = p

-- While the container starts, the health ticker runs.
abbrev pub Ticks : Phase → Watcher → Type 0
Ticks (starting t n) w = w.health_ticking ≡ true
Ticks p w = Unit

-- The watcher is in the phase.
pub record Models (timeout : ℕ) (p : Phase) (w : Watcher) : Type 0 where
  pub timeout_is : w.wake_timeout ≡ timeout
  pub state_is : w.state ≡ state_of p
  pub ticks : Ticks p w
