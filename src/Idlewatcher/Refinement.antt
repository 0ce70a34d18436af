-- ===== src/Idlewatcher/Refinement.antt =====
-- internal/idlewatcher: the watcher and the machine of its phases.
use mathlib.Core.Path.{subst}
use godoxy.Prelude.{
  ℕ, ◌≡◌, ◌≢◌, refl, sym, Bool, true, false, ◌&&◌, none, some, List, [], ◌∷◌, if◌then◌else◌,
}
use godoxy.Idlewatcher.{
  ContainerStatus, container_error, container_running, container_paused, container_stopped,
  StopMethod, Watcher, new_watcher, set_ready, set_starting, set_napping, set_error,
  reset_idle_timer, timeout_error, timed_out, check_health, check_update_state, HealthCheck,
  check_failed, check_healthy, check_unhealthy,
}
use godoxy.Idlewatcher.Loop.{
  container_starts, container_stops, container_pauses, other_action, force_reload, watcher_error,
  health_tick, idle_tick, after_check, on_event, on_request, Step, event, request, step, steps,
}
use godoxy.Idlewatcher.Phase.{
  Phase, state_of, phase_check, phase_tick, phase_step, Models, stopped, paused, healthy, starting,
  failed,
}
use godoxy.Idlewatcher.Untouched.{Same-Models, on_request-Same, idle_tick-Same}

-- A watcher that is put in the phase.
abbrev at : ℕ → Phase → Watcher → Watcher
at timeout (starting t n) w = record w {
  wake_timeout = timeout;
  state = state_of (starting t n);
  health_ticking = true;
}
at timeout p w = record w { wake_timeout = timeout; state = state_of p }

at_fields : (timeout : ℕ) (p : Phase) (w : Watcher) → Models timeout p w → w ≡ at timeout p w
at_fields timeout stopped w m =
    λ i. record w { wake_timeout = m.timeout_is i; state = m.state_is i }
at_fields timeout paused w m = λ i. record w { wake_timeout = m.timeout_is i; state = m.state_is i }
at_fields timeout healthy w m =
    λ i. record w { wake_timeout = m.timeout_is i; state = m.state_is i }
at_fields timeout (failed e) w m =
    λ i. record w { wake_timeout = m.timeout_is i; state = m.state_is i }
at_fields timeout (starting t n) w m = λ i. record w {
  wake_timeout = m.timeout_is i;
  state = m.state_is i;
  health_ticking = m.ticks i;
}

at-Models : (timeout : ℕ) (p : Phase) (w : Watcher) → Models timeout p (at timeout p w)
at-Models timeout stopped w = record { timeout_is = refl; state_is = refl; ticks = tt }
at-Models timeout paused w = record { timeout_is = refl; state_is = refl; ticks = tt }
at-Models timeout healthy w = record { timeout_is = refl; state_is = refl; ticks = tt }
at-Models timeout (failed e) w = record { timeout_is = refl; state_is = refl; ticks = tt }
at-Models timeout (starting t n) w = record { timeout_is = refl; state_is = refl; ticks = refl }

-- The health ticker's step does nothing unless the container starts.
unchecked :
    {timeout : ℕ} {p : Phase} (t r n : Bool) (x y : Watcher)
    → (r && n) ≡ false
    → Models timeout p y
    → Models timeout p (if t && r && n then x else y)
unchecked true true n x y h m = rw h m
unchecked true false n x y h m = m
unchecked false r n x y h m = m

-- A tick of the health ticker in each phase.
tick_at :
    (timeout now : ℕ) (host_set : Bool) (check : HealthCheck) (p : Phase) (w : Watcher)
    → Models timeout
        (phase_tick timeout now host_set check p)
        (on_event (health_tick now host_set check) (at timeout p w))
unfolding on_event check_update_state after_check check_health set_ready set_error
tick_at timeout now host_set check stopped w =
    unchecked w.health_ticking false true
      (after_check now (check_update_state now host_set check (at timeout stopped w)))
      (at timeout stopped w) refl (at-Models timeout stopped w)
tick_at timeout now host_set check paused w =
    unchecked w.health_ticking false true
      (after_check now (check_update_state now host_set check (at timeout paused w)))
      (at timeout paused w) refl (at-Models timeout paused w)
tick_at timeout now host_set check healthy w =
    unchecked w.health_ticking true false
      (after_check now (check_update_state now host_set check (at timeout healthy w)))
      (at timeout healthy w) refl (at-Models timeout healthy w)
tick_at timeout now host_set check (failed e) w =
    unchecked w.health_ticking false true
      (after_check now (check_update_state now host_set check (at timeout (failed e) w)))
      (at timeout (failed e) w) refl (at-Models timeout (failed e) w)
tick_at timeout now false check (starting t n) w = at-Models timeout (starting t n) w
tick_at timeout now true check (starting t n) w = timely (timed_out now timeout t)
  where
    checked :
        (c : HealthCheck)
        → Models timeout
            (phase_check c t n)
            (after_check now (check_health c (at timeout (starting t n) w)))
    checked (check_failed e) = record { timeout_is = refl; state_is = refl; ticks = tt }
    checked check_healthy = record { timeout_is = refl; state_is = refl; ticks = tt }
    checked check_unhealthy = record { timeout_is = refl; state_is = refl; ticks = refl }

    timely :
        (b : Bool)
        → Models timeout (if b then failed timeout_error else phase_check check t n) (
            after_check now (
              if b
              then (
                set_error timeout_error (at timeout (starting t n) w),
                (false, some timeout_error),
              )
              else check_health check (at timeout (starting t n) w)))
    timely true = record { timeout_is = refl; state_is = refl; ticks = tt }
    timely false = checked check

pub tick-Models :
    (timeout now : ℕ) (host_set : Bool) (check : HealthCheck) (p : Phase) (w : Watcher)
    → Models timeout p w
    → Models timeout
        (phase_tick timeout now host_set check p)
        (on_event (health_tick now host_set check) w)
tick-Models timeout now host_set check p w m =
    subst
      (λ w'.
        Models timeout (phase_tick timeout now host_set check p)
          (on_event (health_tick now host_set check) w'))
      (sym (at_fields timeout p w m)) (tick_at timeout now host_set check p w)

-- A step of the watcher is a step of the machine.
pub step-Models :
    (timeout : ℕ) (s : Step) (p : Phase) (w : Watcher)
    → Models timeout p w
    → Models timeout (phase_step timeout s p) (step s w)
unfolding step on_event set_starting set_napping reset_idle_timer
step-Models timeout (event (container_starts now)) p w m = record {
  timeout_is = m.timeout_is;
  state_is = refl;
  ticks = refl;
}
step-Models timeout (event (container_stops now)) p w m = record {
  timeout_is = m.timeout_is;
  state_is = refl;
  ticks = tt;
}
step-Models timeout (event (container_pauses now)) p w m = record {
  timeout_is = m.timeout_is;
  state_is = refl;
  ticks = tt;
}
step-Models timeout (event (other_action now)) p w m =
    Same-Models timeout p w (reset_idle_timer now w) m
      (record { timeout_is = refl; state_is = refl; ticks = refl })
step-Models timeout (event force_reload) p w m = m
step-Models timeout (event watcher_error) p w m = m
step-Models timeout (event (health_tick now host_set check)) p w m =
    tick-Models timeout now host_set check p w m
step-Models timeout (event idle_tick) p w m =
    Same-Models timeout p w (on_event idle_tick w) m (idle_tick-Same w)
step-Models timeout (request r) p w m =
    Same-Models timeout p w (on_request r w) m (on_request-Same r w)

abbrev pub phase_steps : ℕ → List Step → Phase → Phase
phase_steps timeout [] p = p
phase_steps timeout (s ∷ ss) p = phase_steps timeout ss (phase_step timeout s p)

-- The container that NewWatcher finds, unless its status is an error.
abbrev pub first_phase : ContainerStatus → Phase
first_phase container_running = starting none 0
first_phase container_paused = paused
first_phase container_stopped = stopped
first_phase container_error = stopped

pub steps-Models :
    (timeout : ℕ) (ss : List Step) (p : Phase) (w : Watcher)
    → Models timeout p w
    → Models timeout (phase_steps timeout ss p) (steps ss w)
unfolding steps
steps-Models timeout [] p w m = m
steps-Models timeout (s ∷ ss) p w m =
    steps-Models timeout ss (phase_step timeout s p) (step s w) (step-Models timeout s p w m)

-- Whatever the watcher's loop and the requests do, and in whatever order, the watcher of a container
-- that was found without an error is in the phase that a machine of five phases reaches: the state of
-- the container is that of the phase, and the health ticker runs while the container starts.
pub new_watcher-Models :
    (timeout : ℕ) (method : StopMethod) (status : ContainerStatus) (ss : List Step)
    → status ≢ container_error
    → Models timeout
        (phase_steps timeout ss (first_phase status))
        (steps ss (new_watcher timeout method status))
unfolding new_watcher
new_watcher-Models timeout method container_running ss h =
    steps-Models timeout ss _ _ (record { timeout_is = refl; state_is = refl; ticks = refl })
new_watcher-Models timeout method container_paused ss h =
    steps-Models timeout ss _ _ (record { timeout_is = refl; state_is = refl; ticks = tt })
new_watcher-Models timeout method container_stopped ss h =
    steps-Models timeout ss _ _ (record { timeout_is = refl; state_is = refl; ticks = tt })
new_watcher-Models timeout method container_error ss h = absurd (h refl)
