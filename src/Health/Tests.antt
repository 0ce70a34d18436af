-- ===== src/Health/Tests.antt =====
-- Tests of the health statuses and the monitor, and witnesses for their theorems.
use godoxy.Prelude.{◌≡◌, true, false, [], ◌∷◌}
use godoxy.Prelude.Int.{pos}
use godoxy.Health.Monitor.{HealthCheckResult, returned, service_up, service_down, init}
use godoxy.Health.Monitor.Outage.{History, replay, replay-notices}

abbrev healthy : HealthCheckResult
healthy = record { healthy = true; detail = ""; latency = 3 }

abbrev unhealthy : HealthCheckResult
unhealthy = record { healthy = false; detail = "503"; latency = 9 }

-- One good check, an outage of three checks, and the recovery; the newest first.
abbrev outage : History
outage =
    (5, returned healthy)
    ∷ (4, returned unhealthy)
    ∷ (3, returned unhealthy)
    ∷ (2, returned unhealthy)
    ∷ (1, returned healthy)
    ∷ []

replay-notices_example :
    (replay (init (pos 5) (pos 2)) outage).notices
    ≡ service_up healthy ∷ service_down unhealthy ∷ []
replay-notices_example = replay-notices (pos 5) (pos 2) outage
