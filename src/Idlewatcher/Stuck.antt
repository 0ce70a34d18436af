-- ===== src/Idlewatcher/Stuck.antt =====
-- internal/idlewatcher: what a container's phase means for requests: a container that failed, and one
-- that starts for too long.
use godoxy.Prelude.{
  ℕ, ◌-◌, ◌<◌, ◌≡◌, ◌⊎◌, inl, inr, refl, sym, ap, ◌∙◌, arith, Bool, true, false, Option, none, some,
  List, [], ◌∷◌, lt→ltb, Bool-cases, All,
}
use godoxy.Prelude.Bytes.{Bytes, codes}
use godoxy.Health.Status.{
  HealthStatus, status_error, status_healthy, status_starting, status_napping,
}
use godoxy.Idlewatcher.{
  Watcher, health_status, detail, wake, wake_if_stopped, wait_for_ready, stop_by_method, timed_out,
  reset_idle_timer, HealthCheck, check_failed, check_healthy, check_unhealthy, status_of_error,
}
use godoxy.Idlewatcher.Loop.{
  container_starts, container_stops, container_pauses, other_action, force_reload, watcher_error,
  health_tick, idle_tick, resets, wakes, waits, on_event, on_request, Step, event, request, step,
  steps,
}
use godoxy.Idlewatcher.Phase.{
  Phase, stopped, paused, healthy, starting, failed, state_of, phase_check, phase_tick, phase_step,
  Models,
}
use godoxy.Idlewatcher.Refinement.{phase_steps, tick-Models, step-Models, steps-Models}
use mathlib.Core.Path.{subst}

-- The status that a phase is shown as.
abbrev pub phase_status : Phase → HealthStatus
phase_status stopped = status_napping
phase_status paused = status_napping
phase_status healthy = status_healthy
phase_status (starting t n) = status_starting
phase_status (failed e) = status_error

abbrev pub phase_detail : Phase → Bytes
phase_detail healthy = codes "starting"
phase_detail (failed e) = e
phase_detail _ = codes "not ready"

status_at :
    (p : Phase)
    → (health_status (state_of p) ≡ phase_status p) × (detail (state_of p) ≡ phase_detail p)
unfolding health_status detail
status_at stopped = (refl, refl)
status_at paused = (refl, refl)
status_at healthy = (refl, refl)
status_at (starting t n) = (refl, refl)
status_at (failed e) = (refl, refl)

-- The status that is shown is that of the phase. The detail beside it is the error of a container that
-- failed, "starting" for one that is healthy, and "not ready" for all others: it is never "napping".
pub health_status-detail :
    (timeout : ℕ) (p : Phase) (w : Watcher)
    → Models timeout p w
    → (health_status w.state ≡ phase_status p) × (detail w.state ≡ phase_detail p)
health_status-detail timeout p w m =
    (ap health_status m.state_is ∙ (status_at p).0, ap detail m.state_is ∙ (status_at p).1)

-- The step is no event of the container.
abbrev pub is_quiet : Step → Bool
is_quiet (event (container_starts now)) = false
is_quiet (event (container_stops now)) = false
is_quiet (event (container_pauses now)) = false
is_quiet _ = true

abbrev pub Quiet : List Step → Type 0
Quiet ss = All (λ s. is_quiet s ≡ true) ss

failed-step :
    (timeout : ℕ) (s : Step) (e : Bytes)
    → is_quiet s ≡ true
    → phase_step timeout s (failed e) ≡ failed e
failed-step timeout (event (container_starts now)) e h = ground arith
failed-step timeout (event (container_stops now)) e h = ground arith
failed-step timeout (event (container_pauses now)) e h = ground arith
failed-step timeout (event (other_action now)) e h = refl
failed-step timeout (event force_reload) e h = refl
failed-step timeout (event watcher_error) e h = refl
failed-step timeout (event (health_tick now host_set check)) e h = refl
failed-step timeout (event idle_tick) e h = refl
failed-step timeout (request r) e h = refl

failed_calls :
    (s : Step) (e : Bytes) (w : Watcher)
    → is_quiet s ≡ true
    → (step s (record w { state = state_of (failed e) })).calls ≡ w.calls
unfolding step on_event on_request reset_idle_timer wake wake_if_stopped wait_for_ready
    stop_by_method
failed_calls (event (container_starts now)) e w h = ground arith
failed_calls (event (container_stops now)) e w h = ground arith
failed_calls (event (container_pauses now)) e w h = ground arith
failed_calls (event (other_action now)) e w h = refl
failed_calls (event force_reload) e w h = refl
failed_calls (event watcher_error) e w h = refl
failed_calls (event (health_tick now host_set check)) e w h = elim (Bool-cases w.health_ticking) [
  | inl t ↦ ground arith
  | inr t ↦ ground arith
]
failed_calls (event idle_tick) e w h = elim (Bool-cases w.idle_ticking) [
  | inl t ↦ ground arith
  | inr t ↦ ground arith
]
failed_calls (request (resets now)) e w h = refl
failed_calls (request (wakes (some d) answer)) e w h = refl
failed_calls (request (wakes none answer)) e w h = refl
failed_calls (request (waits true)) e w h = refl
failed_calls (request (waits false)) e w h = elim (Bool-cases w.ready_notify) [
  | inl t ↦ ground arith
  | inr t ↦ ground arith
]

-- The watcher with its container's state named.
in_state :
    (timeout : ℕ) (p : Phase) (w : Watcher)
    → Models timeout p w
    → w ≡ record w { state = state_of p }
in_state timeout p w m = λ i. record w { state = m.state_is i }

failed_steps :
    (timeout : ℕ) (e : Bytes) (ss : List Step) (w : Watcher)
    → Models timeout (failed e) w
    → Quiet ss
    → Models timeout (failed e) (steps ss w) × ((steps ss w).calls ≡ w.calls)
unfolding steps
failed_steps timeout e [] w m q = (m, refl)
failed_steps timeout e (s ∷ ss) w m q =
    let (m', c) =
      failed_steps timeout e ss (step s w)
        (subst (λ p. Models timeout p (step s w)) (failed-step timeout s e q.0)
          (step-Models timeout s (failed e) w m))
        q.1 in
    (m', c ∙ ap (λ w. (step s w).calls) (in_state timeout (failed e) w m) ∙ failed_calls s e w q.0)

failed_wake :
    (answer : Option Bytes) (e : Bytes) (w : Watcher)
    → (wake none answer (record w { state = state_of (failed e) })).1 ≡ some status_of_error
unfolding wake wake_if_stopped
failed_wake answer e w = refl

-- A container that failed stays so until an event of the container comes: meanwhile the provider is
-- asked for nothing, so that the container is neither started nor stopped, and to wake it is an error.
pub failed-until_event :
    (timeout : ℕ) (e : Bytes) (ss : List Step) (answer : Option Bytes) (w : Watcher)
    → Models timeout (failed e) w
    → Quiet ss
    → ((steps ss w).calls ≡ w.calls) × ((wake none answer (steps ss w)).1 ≡ some status_of_error)
failed-until_event timeout e ss answer w m q =
    let (m', c) = failed_steps timeout e ss w m q in
    (
      c,
      ap (λ w. (wake none answer w).1) (in_state timeout (failed e) (steps ss w) m')
          ∙ failed_wake answer e (steps ss w),
    )

-- The container has been starting since `t`, or has become healthy or failed.
abbrev Since : ℕ → Phase → Type 0
Since t (starting u n) = u ≡ some t
Since t healthy = Unit
Since t (failed e) = Unit
Since t stopped = ⊥
Since t paused = ⊥

Since-check : (t n : ℕ) (c : HealthCheck) → Since t (phase_check c (some t) n)
Since-check t n (check_failed e) = tt
Since-check t n check_healthy = tt
Since-check t n check_unhealthy = refl

Since-tick :
    (timeout now t : ℕ) (host_set : Bool) (c : HealthCheck) (p : Phase)
    → Since t p
    → Since t (phase_tick timeout now host_set c p)
Since-tick timeout now t host_set c stopped h = absurd h
Since-tick timeout now t host_set c paused h = absurd h
Since-tick timeout now t host_set c healthy h = tt
Since-tick timeout now t host_set c (failed e) h = tt
Since-tick timeout now t false c (starting u n) h = h
Since-tick timeout now t true c (starting u n) h = elim (Bool-cases (timed_out now timeout u)) [
  | inl e ↦ rw e tt
  | inr e ↦ rw (e, h) (Since-check t n c)
]

Since-step :
    (timeout t : ℕ) (s : Step) (p : Phase)
    → is_quiet s ≡ true
    → Since t p
    → Since t (phase_step timeout s p)
Since-step timeout t (event (container_starts now)) p q h = ground arith
Since-step timeout t (event (container_stops now)) p q h = ground arith
Since-step timeout t (event (container_pauses now)) p q h = ground arith
Since-step timeout t (event (other_action now)) p q h = h
Since-step timeout t (event force_reload) p q h = h
Since-step timeout t (event watcher_error) p q h = h
Since-step timeout t (event (health_tick now host_set check)) p q h =
    Since-tick timeout now t host_set check p h
Since-step timeout t (event idle_tick) p q h = h
Since-step timeout t (request r) p q h = h

Since-steps :
    (timeout t : ℕ) (ss : List Step) (p : Phase)
    → Quiet ss
    → Since t p
    → Since t (phase_steps timeout ss p)
Since-steps timeout t [] p q h = h
Since-steps timeout t (s ∷ ss) p q h =
    Since-steps timeout t ss (phase_step timeout s p) q.1 (Since-step timeout t s p q.0 h)

-- The status of a container that has become healthy or failed.
abbrev pub HasEnded : HealthStatus → Type 0
HasEnded s = (s ≡ status_healthy) ⊎ (s ≡ status_error)

late_tick :
    (timeout t now : ℕ) (c : HealthCheck) (p : Phase)
    → Since t p
    → timeout < now - t
    → HasEnded (phase_status (phase_tick timeout now true c p))
unfolding timed_out
late_tick timeout t now c stopped h l = absurd h
late_tick timeout t now c paused h l = absurd h
late_tick timeout t now c healthy h l = inl refl
late_tick timeout t now c (failed e) h l = inr refl
late_tick timeout t now c (starting u n) h l = rw (h, lt→ltb timeout (now - t) l) (inr refl)

-- A container does not start for ever: when more than the timeout has passed since it started, the next
-- check, with a known address, leaves it healthy or failed, whatever came between but for events of
-- the container.
pub starting-ends :
    (timeout t n now : ℕ) (c : HealthCheck) (ss : List Step) (w : Watcher)
    → Models timeout (starting (some t) n) w
    → Quiet ss
    → timeout < now - t
    → HasEnded (health_status (on_event (health_tick now true c) (steps ss w)).state)
starting-ends timeout t n now c ss w m q l =
    subst HasEnded
      (sym
        (health_status-detail timeout _ _
          (tick-Models timeout now true c _ _ (steps-Models timeout ss _ w m))).0)
      (late_tick timeout t now c (phase_steps timeout ss (starting (some t) n))
        (Since-steps timeout t ss (starting (some t) n) q refl) l)
