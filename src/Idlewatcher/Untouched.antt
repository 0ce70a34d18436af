-- ===== src/Idlewatcher/Untouched.antt =====
-- internal/idlewatcher: requests and the idle ticker, and the phase of a watcher.
use godoxy.Prelude.{
  ℕ, ◌≡◌, inl, inr, refl, ◌∙◌, Bool, true, false, Option, none, some, if◌then◌else◌, Bool-cases,
}
use godoxy.Prelude.Bytes.{Bytes}
use godoxy.Idlewatcher.{
  container_error, container_running, container_paused, container_stopped, WakeEvent, Watcher,
  running, reset_idle_timer, wake_if_stopped, after_wake, wake, wait_for_ready, stop_by_method,
  stop_call, ProviderCall, container_start, container_unpause, call, send_event, event_starting,
  status_of_error, wake_in_progress,
}
use godoxy.Idlewatcher.Loop.{
  idle_tick, Request, resets, wakes, waits, after_wait, on_event, on_request,
}
use godoxy.Idlewatcher.Phase.{Phase, Ticks, Models, stopped, paused, healthy, starting, failed}

-- A step that leaves alone what a phase is about.
pub record Same (w w' : Watcher) : Type 0 where
  pub timeout_is : w'.wake_timeout ≡ w.wake_timeout
  pub state_is : w'.state ≡ w.state
  pub ticks : w'.health_ticking ≡ w.health_ticking

pub Same-Models :
    (timeout : ℕ) (p : Phase) (w w' : Watcher)
    → Models timeout p w
    → Same w w'
    → Models timeout p w'
Same-Models timeout p w w' m s = record {
  timeout_is = s.timeout_is ∙ m.timeout_is;
  state_is = s.state_is ∙ m.state_is;
  ticks = keep p m.ticks;
}
  where
    keep : (p : Phase) → Ticks p w → Ticks p w'
    keep stopped h = tt
    keep paused h = tt
    keep healthy h = tt
    keep (starting t n) h = s.ticks ∙ h
    keep (failed e) h = tt

Same-refl : (w : Watcher) → Same w w
Same-refl w = record { timeout_is = refl; state_is = refl; ticks = refl }

-- What sending an event and calling the provider keep, waking keeps.
module _ (P : Watcher → Type 0) (on_send : (e : WakeEvent) (w : Watcher) → P w → P (send_event e w))
    (on_call : (c : ProviderCall) (w : Watcher) → P w → P (call c w)) where
  after_wake-keeps : (w : Watcher) (e : Option Bytes) → P w → P (after_wake (w, e)).0
  after_wake-keeps w none h = on_send _ _ (on_send _ w h)
  after_wake-keeps w (some e) h = on_send _ w h

  wake_if_stopped-keeps :
      (answer : Option Bytes) (w : Watcher) → P w → P (wake_if_stopped answer w).0
  unfolding wake_if_stopped
  wake_if_stopped-keeps answer w h =
      elim w.state.status
        as (λ s.
          P
            (elim s as (λ _. Watcher × Option Bytes) [
              | container_running ↦ (w, none)
              | container_stopped ↦ (call container_start (send_event event_starting w), answer)
              | container_paused ↦ (call container_unpause (send_event event_starting w), answer)
              | container_error ↦ (w, some status_of_error)
            ]).0) [
              | container_running ↦ h
              | container_stopped ↦ on_call _ _ (on_send _ w h)
              | container_paused ↦ on_call _ _ (on_send _ w h)
              | container_error ↦ h
            ]

  pub wake-keeps : (deps answer : Option Bytes) (w : Watcher) → P w → P (wake deps answer w).0
  unfolding wake
  wake-keeps (some e) answer w h = on_send _ w h
  wake-keeps none answer w h = elim (Bool-cases (wake_in_progress w)) [
    | inl e ↦ rw (wake, e) h
    | inr e ↦
        rw (wake, e)
          (after_wake-keeps (wake_if_stopped answer w).0 (wake_if_stopped answer w).1
            (wake_if_stopped-keeps answer w h))
  ]

wake-Same : (deps answer : Option Bytes) (w : Watcher) → Same w (wake deps answer w).0
wake-Same deps answer w =
    wake-keeps (Same w)
      (λ e w' s. record { timeout_is = s.timeout_is; state_is = s.state_is; ticks = s.ticks })
      (λ c w' s. record { timeout_is = s.timeout_is; state_is = s.state_is; ticks = s.ticks }) deps
      answer w (Same-refl w)

wait-Same : (cancelled : Bool) (w : Watcher) → Same w (after_wait w (wait_for_ready cancelled w))
unfolding wait_for_ready
wait-Same cancelled w = waiting w.state.ready cancelled w.ready_notify
  where
    waiting :
        (r c n : Bool)
        → Same w (
            after_wait w (
              if r
              then some (w, true)
              else if c
              then some (w, false)
              else if n
              then some (record w { ready_notify = false }, true)
              else none))
    waiting true c n = Same-refl w
    waiting false true n = Same-refl w
    waiting false false true = record { timeout_is = refl; state_is = refl; ticks = refl }
    waiting false false false = Same-refl w

pub on_request-Same : (r : Request) (w : Watcher) → Same w (on_request r w)
unfolding on_request reset_idle_timer
on_request-Same (resets now) w = record { timeout_is = refl; state_is = refl; ticks = refl }
on_request-Same (wakes deps answer) w = wake-Same deps answer w
on_request-Same (waits cancelled) w = wait-Same cancelled w

pub idle_tick-Same : (w : Watcher) → Same w (on_event idle_tick w)
unfolding on_event stop_by_method
idle_tick-Same w = stopping w.idle_ticking (stop_call w.stop_method) (running w)
  where
    stopping :
        (i : Bool) (c : Option ProviderCall) (b : Bool)
        → Same w (
            if i
            then if b
              then elim c as (λ _. Watcher) [
                | none ↦ record w { idle_ticking = false }
                | some c ↦ call c (record w { idle_ticking = false })
              ]
              else record w { idle_ticking = false }
            else w)
    stopping false c b = Same-refl w
    stopping true c false = record { timeout_is = refl; state_is = refl; ticks = refl }
    stopping true none true = record { timeout_is = refl; state_is = refl; ticks = refl }
    stopping true (some c) true = record { timeout_is = refl; state_is = refl; ticks = refl }
