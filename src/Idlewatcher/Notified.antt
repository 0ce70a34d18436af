-- ===== src/Idlewatcher/Notified.antt =====
-- internal/idlewatcher: the notification of a container that is ready, when nobody waits for it.
use godoxy.Prelude.{
  ℕ, ◌≡◌, inl, inr, refl, arith, Bool, true, false, not, ◌&&◌, Option, none, some, List, [], ◌∷◌,
  if◌then◌else◌, Bool-cases, All,
}
use godoxy.Idlewatcher.{
  Watcher, ProviderCall, call, stop_call, running, wait_for_ready, stop_by_method,
  check_update_state, check_health, set_ready, set_error, set_starting, set_napping, timed_out,
  reset_idle_timer, HealthCheck, check_failed, check_healthy, check_unhealthy,
}
use godoxy.Idlewatcher.Loop.{
  container_starts, container_stops, container_pauses, other_action, force_reload, watcher_error,
  health_tick, idle_tick, resets, wakes, waits, after_check, on_event, on_request, Step, event,
  request, step, steps,
}
use godoxy.Idlewatcher.Untouched.{wake-keeps}

-- The step is no wait of a request.
abbrev pub takes_nothing : Step → Bool
takes_nothing (request (waits c)) = false
takes_nothing _ = true

kept_call :
    (c : Option ProviderCall) (b : Bool) (w : Watcher)
    → w.ready_notify ≡ true
    → (if b then elim c as (λ _. Watcher) [ none ↦ w | some c ↦ call c w ] else w).ready_notify
      ≡ true
kept_call c false w h = h
kept_call none true w h = h
kept_call (some c) true w h = h

kept_check :
    (now : ℕ) (host_set : Bool) (c : HealthCheck) (w : Watcher)
    → w.ready_notify ≡ true
    → (after_check now (check_update_state now host_set c w)).ready_notify ≡ true
unfolding after_check check_update_state check_health set_ready set_error reset_idle_timer
kept_check now false c w h = h
kept_check now true c w h = elim (Bool-cases (timed_out now w.wake_timeout w.state.started_at)) [
  | inl e ↦ rw (check_update_state, e) h
  | inr e ↦ rw (check_update_state, e) (checked c)
]
  where
    checked : (c : HealthCheck) → (after_check now (check_health c w)).ready_notify ≡ true
    checked (check_failed e) = h
    checked check_healthy = refl
    checked check_unhealthy = h

kept_step :
    (s : Step) (w : Watcher)
    → takes_nothing s ≡ true
    → w.ready_notify ≡ true
    → (step s w).ready_notify ≡ true
unfolding step on_event on_request reset_idle_timer set_starting set_napping stop_by_method
kept_step (event (container_starts now)) w q h = h
kept_step (event (container_stops now)) w q h = h
kept_step (event (container_pauses now)) w q h = h
kept_step (event (other_action now)) w q h = h
kept_step (event force_reload) w q h = h
kept_step (event watcher_error) w q h = h
kept_step (event (health_tick now host_set c)) w q h =
    either (w.health_ticking && running w && not w.state.ready)
  where
    either :
        (b : Bool)
        → (if b then after_check now (check_update_state now host_set c w) else w).ready_notify
          ≡ true
    either true = kept_check now host_set c w h
    either false = h
kept_step (event idle_tick) w q h = either w.idle_ticking
  where
    either :
        (b : Bool)
        → (if b then stop_by_method (record w { idle_ticking = false }) else w).ready_notify ≡ true
    either true =
        kept_call (stop_call w.stop_method) (running w) (record w { idle_ticking = false }) h
    either false = h
kept_step (request (resets now)) w q h = h
kept_step (request (wakes deps answer)) w q h =
    wake-keeps (λ w. w.ready_notify ≡ true) (λ e w h. h) (λ c w h. h) deps answer w h
kept_step (request (waits c)) w q h = ground arith

kept_steps :
    (ss : List Step) (w : Watcher)
    → All (λ s. takes_nothing s ≡ true) ss
    → w.ready_notify ≡ true
    → (steps ss w).ready_notify ≡ true
unfolding steps
kept_steps [] w q h = h
kept_steps (s ∷ ss) w q h = kept_steps ss (step s w) q.1 (kept_step s w q.0 h)

abbrev pub waited : Option (Watcher × Bool) → Option Bool
waited none = none
waited (some (w, b)) = some b

-- A notification that no request has taken ends the next wait as if the container were ready, whatever
-- has happened since: the container may have been stopped and started again, and not be ready.
pub wait_for_ready-stale :
    (ss : List Step) (w : Watcher)
    → All (λ s. takes_nothing s ≡ true) ss
    → waited (wait_for_ready false (steps ss (set_ready w))) ≡ some true
unfolding wait_for_ready set_ready
wait_for_ready-stale ss w q = elim (Bool-cases (steps ss (set_ready w)).state.ready) [
  | inl e ↦ rw (wait_for_ready, e) refl
  | inr e ↦ rw (wait_for_ready, e, kept_steps ss (set_ready w) q refl) refl
]
