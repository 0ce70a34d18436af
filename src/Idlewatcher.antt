-- ===== src/Idlewatcher.antt =====
-- internal/idlewatcher: watcher.go, state.go, health.go and events.go: a container that is stopped when
-- it is idle and woken by a request. Each operation is one step; the order in which the watcher's
-- goroutine and the requests take theirs is a list. What the provider, a health check or another
-- watcher answers is an argument. An event keeps its type and error, without its text and its time,
-- and is not sent to subscribers; the events about dependencies are left out. A nil provider is not modelled: it is set when the watcher exists.
pub mod Loop
pub mod Phase
pub mod Untouched
pub mod Refinement
pub mod Stuck
pub mod Notified
pub mod Ended
mod Tests
use godoxy.Prelude.{
  ℕ, suc, ◌+◌, ◌-◌, Bool, true, false, Option, none, some, List, [], ◌∷◌, ◌++◌, ltb, if◌then◌else◌,
}
use godoxy.Prelude.Bytes.{Bytes, codes}
use godoxy.Health.Status.{
  HealthStatus, status_error, status_healthy, status_starting, status_napping,
}

pub data ContainerStatus : Type 0 where
  container_error container_running container_paused container_stopped : ContainerStatus

pub data WakeEvent : Type 0 where
  event_starting event_container_woke event_waiting_ready event_ready : WakeEvent
  event_error : Bytes → WakeEvent

-- What was asked of the provider.
pub data ProviderCall : Type 0 where
  container_start container_unpause container_pause container_stop container_kill : ProviderCall

pub data StopMethod : Type 0 where
  by_pause by_stop by_kill by_other : StopMethod

pub record ContainerState : Type 0 where
  pub status : ContainerStatus
  pub ready : Bool
  pub err : Option Bytes
  pub started_at : Option ℕ
  pub health_tries : ℕ

-- `ready_notify` tells whether `readyNotifyCh`, which has room for one, holds a notification. The two
-- flags tell whether a ticker runs.
pub record Watcher : Type 0 where
  pub wake_timeout : ℕ
  pub stop_method : StopMethod
  pub state : ContainerState
  pub last_reset : ℕ
  pub idle_ticking : Bool
  pub health_ticking : Bool
  pub ready_notify : Bool
  pub event_history : List WakeEvent
  pub calls : List ProviderCall

-- The end of NewWatcher, for a watcher that is new.
unfoldable pub new_watcher : ℕ → StopMethod → ContainerStatus → Watcher
new_watcher wake_timeout stop_method status = record {
  wake_timeout = wake_timeout;
  stop_method = stop_method;
  state = record {
    status = status;
    ready = false;
    err = none;
    started_at = none;
    health_tries = 0;
  };
  last_reset = 0;
  idle_ticking = true;
  health_ticking = true;
  ready_notify = false;
  event_history = [];
  calls = [];
}

abbrev pub is_running : ContainerStatus → Bool
is_running container_running = true
is_running _ = false

abbrev pub running : Watcher → Bool
running w = is_running w.state.status

abbrev pub clear_event_history : Watcher → Watcher
clear_event_history w = record w { event_history = [] }

abbrev pub send_event : WakeEvent → Watcher → Watcher
send_event e w = record w { event_history = w.event_history ++ e ∷ [] }

unfoldable pub set_ready : Watcher → Watcher
set_ready w = record (send_event event_ready w) {
  state = record {
    status = container_running;
    ready = true;
    err = none;
    started_at = none;
    health_tries = 0;
  };
  ready_notify = true;
}

unfoldable pub set_starting : ℕ → Watcher → Watcher
set_starting now w = record w {
  state = record {
    status = container_running;
    ready = false;
    err = none;
    started_at = some now;
    health_tries = 0;
  };
}

unfoldable pub set_napping : ContainerStatus → Watcher → Watcher
set_napping status w = record (clear_event_history w) {
  state = record {
    status = status;
    ready = false;
    err = none;
    started_at = none;
    health_tries = 0;
  };
}

unfoldable pub set_error : Bytes → Watcher → Watcher
set_error err w = record (send_event (event_error err) w) {
  state = record {
    status = container_error;
    ready = false;
    err = some err;
    started_at = none;
    health_tries = 0;
  };
}

unfoldable pub reset_idle_timer : ℕ → Watcher → Watcher
reset_idle_timer now w = record w { idle_ticking = true; last_reset = now }

-- `Status`, by the error, then `ready`, then the status of the container.
unfoldable pub health_status : ContainerState → HealthStatus
health_status s = elim s.err [
  | some e ↦ status_error
  | none ↦
      if s.ready
      then status_healthy
      else if is_running s.status
      then status_starting
      else status_napping
]

unfoldable pub detail : ContainerState → Bytes
detail s = elim s.err [
  | some e ↦ e
  | none ↦
      if s.ready
      then if is_running s.status then codes "starting" else codes "napping"
      else codes "not ready"
]

-- What CheckHealth of the monitor returns.
pub data HealthCheck : Type 0 where
  check_failed : Bytes → HealthCheck
  check_healthy check_unhealthy : HealthCheck

abbrev pub timeout_error : Bytes
timeout_error = codes "container failed to become ready"

-- More than `WakeTimeout` has passed since the container started.
unfoldable pub timed_out : ℕ → ℕ → Option ℕ → Bool
timed_out now timeout none = false
timed_out now timeout (some t) = ltb timeout (now - t)

abbrev pub count_try : Watcher → Watcher
count_try w = record w {
  state = record {
    status = w.state.status;
    ready = false;
    err = w.state.err;
    started_at = w.state.started_at;
    health_tries = w.state.health_tries + 1;
  };
}

-- `CheckHealth` and what follows it: whether the container is ready, and the error.
check_health : HealthCheck → Watcher → Watcher × (Bool × Option Bytes)
unfolding set_ready set_error
check_health (check_failed e) w = (set_error e w, (false, some e))
check_health check_healthy w = (set_ready w, (true, none))
check_health check_unhealthy w = (count_try w, (false, none))

-- `host_set` tells whether the address of the container is known.
unfoldable pub check_update_state :
    ℕ → Bool → HealthCheck → Watcher → Watcher × (Bool × Option Bytes)
unfolding check_health timed_out set_error
check_update_state now false check w = (w, (false, none))
check_update_state now true check w =
    if timed_out now w.wake_timeout w.state.started_at
    then (set_error timeout_error w, (false, some timeout_error))
    else check_health check w

abbrev pub call : ProviderCall → Watcher → Watcher
call c w = record w { calls = w.calls ++ c ∷ [] }

abbrev pub status_of_error : Bytes
status_of_error = codes "unexpected container status: error"

-- `wakeIfStopped`, for what the provider answers: the error or nil.
unfoldable pub wake_if_stopped : Option Bytes → Watcher → Watcher × Option Bytes
wake_if_stopped answer w = elim w.state.status [
  | container_running ↦ (w, none)
  | container_stopped ↦ (call container_start (send_event event_starting w), answer)
  | container_paused ↦ (call container_unpause (send_event event_starting w), answer)
  | container_error ↦ (w, some status_of_error)
]

abbrev pub wake_in_progress : Watcher → Bool
wake_in_progress w = elim w.state.started_at [ none ↦ false | some _ ↦ true ]

abbrev pub after_wake : Watcher × Option Bytes → Watcher × Option Bytes
after_wake (w, some e) = (send_event (event_error e) w, some e)
after_wake (w, none) = (send_event event_waiting_ready (send_event event_container_woke w), none)

-- `Wake`: first what waking the dependencies came to.
unfoldable pub wake : Option Bytes → Option Bytes → Watcher → Watcher × Option Bytes
unfolding wake_if_stopped
wake (some e) answer w = (send_event (event_error e) w, some e)
wake none answer w = if wake_in_progress w then (w, none) else after_wake (wake_if_stopped answer w)

-- `waitForReady`, which takes the notification or sees the end of the request: `none` waits on.
unfoldable pub wait_for_ready : Bool → Watcher → Option (Watcher × Bool)
wait_for_ready cancelled w =
    if w.state.ready
    then some (w, true)
    else if cancelled
    then some (w, false)
    else if w.ready_notify
    then some (record w { ready_notify = false }, true)
    else none

unfoldable pub stop_call : StopMethod → Option ProviderCall
stop_call by_pause = some container_pause
stop_call by_stop = some container_stop
stop_call by_kill = some container_kill
stop_call by_other = none

-- `stopByMethod` of a watcher that runs; its error is logged and changes nothing, and the watchers of
-- the dependencies are others.
unfoldable pub stop_by_method : Watcher → Watcher
unfolding stop_call
stop_by_method w =
    if running w then elim (stop_call w.stop_method) [ none ↦ w | some c ↦ call c w ] else w
