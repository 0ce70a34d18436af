-- ===== src/Idlewatcher/Tests.antt =====
-- internal/idlewatcher: a container that is found stopped, woken by a request and watched.
use godoxy.Prelude.{◌≡◌, ◌≢◌, refl, arith, true, false, none, some, List, [], ◌∷◌}
use godoxy.Prelude.Bytes.{codes}
use godoxy.Idlewatcher.{
  container_error, container_stopped, by_stop, Watcher, new_watcher, check_failed, check_healthy,
  check_unhealthy, health_status, wake, wait_for_ready, set_ready, status_of_error, timed_out,
}
use godoxy.Idlewatcher.Loop.{
  container_starts, container_stops, health_tick, idle_tick, resets, wakes, event, request, Step,
  steps, on_event,
}
use godoxy.Idlewatcher.Phase.{Models, healthy, starting, failed}
use godoxy.Idlewatcher.Refinement.{new_watcher-Models}
use godoxy.Idlewatcher.Stuck.{HasEnded, failed-until_event, starting-ends}
use godoxy.Idlewatcher.Notified.{waited, wait_for_ready-stale}

-- A watcher of a stopped container, with a timeout of 30.
abbrev sleeping : Watcher
unfolding new_watcher
sleeping = new_watcher 30 by_stop container_stopped

-- A request wakes the container, which starts at 5 and is checked at 10.
abbrev woken : List Step
woken =
    request (resets 1)
    ∷ request (wakes none none)
    ∷ event (container_starts 5)
    ∷ event (health_tick 10 true check_unhealthy)
    ∷ []

not_error : container_stopped ≢ container_error
not_error e = ground arith

new_watcher-Models_example :
    Models 30 (starting (some 5) 1) (steps woken (new_watcher 30 by_stop container_stopped))
unfolding timed_out
new_watcher-Models_example = new_watcher-Models 30 by_stop container_stopped woken not_error

abbrev served : List Step
served =
    request (wakes none none)
    ∷ event (container_starts 5)
    ∷ event (health_tick 10 true check_healthy)
    ∷ []

served_is : Models 30 healthy (steps served (new_watcher 30 by_stop container_stopped))
unfolding timed_out
served_is = new_watcher-Models 30 by_stop container_stopped served not_error

abbrev broken : List Step
broken =
    event (container_starts 5) ∷ event (health_tick 10 true (check_failed (codes "refused"))) ∷ []

broken_is :
    Models 30 (failed (codes "refused")) (steps broken (new_watcher 30 by_stop container_stopped))
unfolding timed_out
broken_is = new_watcher-Models 30 by_stop container_stopped broken not_error

abbrev later : List Step
later = request (resets 20) ∷ request (wakes none none) ∷ event idle_tick ∷ []

failed-until_event_example :
    ((steps later (steps broken (new_watcher 30 by_stop container_stopped))).calls
      ≡ (steps broken (new_watcher 30 by_stop container_stopped)).calls)
    × ((wake none none (steps later (steps broken (new_watcher 30 by_stop container_stopped)))).1
        ≡ some status_of_error)
failed-until_event_example =
    failed-until_event 30 (codes "refused") later none
      (steps broken (new_watcher 30 by_stop container_stopped)) broken_is (refl, (refl, (refl, tt)))

starting-ends_example : HasEnded (
    health_status
      (on_event
        (health_tick 40 true check_unhealthy)
        (steps later (steps woken (new_watcher 30 by_stop container_stopped)))).state)
unfolding timed_out
starting-ends_example =
    starting-ends 30 5 1 40 check_unhealthy later
      (steps woken (new_watcher 30 by_stop container_stopped))
      (new_watcher-Models 30 by_stop container_stopped woken not_error) (refl, (refl, (refl, tt)))
      (omega arith)

-- The container is stopped and started again before a request waits.
abbrev restarted : List Step
restarted =
    event (container_stops 50) ∷ request (wakes none none) ∷ event (container_starts 60) ∷ []

wait_for_ready-stale_example :
    waited (wait_for_ready false (steps restarted (set_ready sleeping))) ≡ some true
wait_for_ready-stale_example = wait_for_ready-stale restarted sleeping (refl, (refl, (refl, tt)))

not_ready : (steps restarted (set_ready sleeping)).state.ready ≡ false
unfolding steps set_ready
not_ready = refl
