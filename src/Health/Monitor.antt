-- ===== src/Health/Monitor.antt =====
-- internal/health/monitor/monitor.go: one health check with its notifications, and the loop that
-- repeats it. The check itself (an HTTP request, a dial) is an input: each round is given what it
-- returned and the time. `notices` records the calls of `notifyFunc`, the newest first; `last_seen`
-- is the service's entry in `lastSeenMap`. The atomic counters are used by one goroutine only and
-- are read as numbers, with no wrap at 2^63.
pub mod Outage
pub mod Stopping
use Prim.Native.String.{String}
use godoxy.Prelude.{
  ℕ, suc, ◌+◌, Bool, true, false, not, ◌&&◌, Option, none, some, List, [], ◌∷◌, ltb, leb, ◌==◌,
  if◌then◌else◌,
}
use godoxy.Prelude.Int.{ℤ, pos, negsuc, ltb_ℤ}
use godoxy.Health.Status.{HealthStatus, status_healthy, status_unhealthy, status_error}

pub record HealthCheckResult : Type 0 where
  pub healthy : Bool
  pub detail : String
  pub latency : ℕ

-- What `checkHealth` returns: an error, or a result with no error.
pub data Outcome : Type 0 where
  failed : String → Outcome
  returned : HealthCheckResult → Outcome

pub data Notice : Type 0 where
  service_up : HealthCheckResult → Notice
  service_down : HealthCheckResult → Notice

pub record Monitor : Type 0 where
  pub interval : ℤ
  pub retries : ℤ
  pub status : HealthStatus
  pub last_result : HealthCheckResult
  pub num_consec_failures : ℕ
  pub down_notification_sent : Bool
  pub last_seen : Option ℕ
  pub notices : List Notice

-- `init`, after the defaults were applied to the configuration.
unfoldable pub init : ℤ → ℤ → Monitor
init interval retries = record {
  interval = interval;
  retries = retries;
  status = status_healthy;
  last_result = record { healthy = true; detail = "started"; latency = 0 };
  num_consec_failures = 0;
  down_notification_sent = false;
  last_seen = none;
  notices = [];
}

-- The result that is stored: an error is an unhealthy result with the error's text.
abbrev pub result_of : Outcome → HealthCheckResult
result_of (failed e) = record { healthy = false; detail = e; latency = 0 }
result_of (returned r) = r

abbrev pub error_of : Outcome → Option String
error_of (failed e) = some e
error_of (returned r) = none

-- The `switch` at the top: the status swapped in and, when healthy, the last-seen time.
swap_status : ℕ → Outcome → Monitor → Monitor
swap_status now (failed e) m = record m {
  status = status_error;
  last_result = result_of (failed e);
}
swap_status now (returned r) m =
    if r.healthy
    then record m { status = status_healthy; last_seen = some now; last_result = r }
    else record m { status = status_unhealthy; last_result = r }

notify_up : HealthCheckResult → Monitor → Monitor
notify_up r m = record m {
  notices = service_up r ∷ m.notices;
  num_consec_failures = 0;
  down_notification_sent = false;
}

notify_down : HealthCheckResult → Monitor → Monitor
notify_down r m = record m { notices = service_down r ∷ m.notices; down_notification_sent = true }

-- The branch on a change of status.
on_change : HealthCheckResult → HealthStatus → Monitor → Monitor
unfolding notify_up notify_down
on_change r last m =
    if r.healthy
    then if last == status_healthy then m else notify_up r m
    else if last == status_healthy
    then if ltb_ℤ m.retries (pos 0) then notify_down r m else m
    else m

abbrev count_failure : Monitor → Monitor
count_failure m = record m { num_consec_failures = m.num_consec_failures + 1 }

reach_threshold : HealthCheckResult → Monitor → Monitor
unfolding notify_down
reach_threshold r m =
    if not (ltb_ℤ (pos m.num_consec_failures) m.retries) && not m.down_notification_sent
    then notify_down r m
    else m

-- The branch that counts consecutive failures, for `Retries >= 0`.
on_failure : HealthCheckResult → Monitor → Monitor
unfolding reach_threshold
on_failure r m =
    if not r.healthy && not (ltb_ℤ m.retries (pos 0))
    then reach_threshold r (count_failure m)
    else m

unfoldable pub check_update_health : ℕ → Outcome → Monitor → Monitor × Option String
unfolding swap_status on_change on_failure
check_update_health now o m =
    (on_failure (result_of o) (on_change (result_of o) m.status (swap_status now o m)), error_of o)

-- The goroutine of `Start`. It waits for the next event, or has stopped.
pub data Loop : Type 0 where
  waiting : ℕ → Monitor → Loop
  stopped : Monitor → Loop

pub data Event : Type 0 where
  cancelled : Event
  tick : ℕ → Outcome → Event

-- The deferred function.
unfoldable pub on_exit : Monitor → Monitor
on_exit m = if m.status == status_error then m else record m { status = status_unhealthy }

abbrev pub next_failures : Option String → ℕ → ℕ
next_failures none n = 0
next_failures (some _) n = n + 1

-- What follows a check in a round of the loop.
after_check : ℕ → Monitor × Option String → Loop
unfolding on_exit
after_check failures (m, err) =
    let n = next_failures err failures in
    if leb 5 n then stopped (on_exit (record m { status = status_error })) else waiting n m

unfoldable pub round : Event → Loop → Loop
unfolding after_check on_exit
round e (stopped m) = stopped m
round cancelled (waiting failures m) = stopped (on_exit m)
round (tick now o) (waiting failures m) = after_check failures (check_update_health now o m)

unfoldable pub rounds : List Event → Loop → Loop
unfolding round
rounds [] l = l
rounds (e ∷ es) l = rounds es (round e l)

abbrev pub first_failures : Option String → ℕ
first_failures none = 0
first_failures (some _) = 1

-- `Start`: `none` is `ErrNegativeInterval`. The first check comes before the ticker and does not
-- stop the loop.
unfoldable pub start : ℕ → Outcome → List Event → Monitor → Option Loop
unfolding rounds
start now o es m =
    if not (ltb_ℤ (pos 0) m.interval)
    then none
    else let (m', err) = check_update_health now o m in
      some (rounds es (waiting (first_failures err) m'))
