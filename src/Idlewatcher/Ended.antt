-- ===== src/Idlewatcher/Ended.antt =====
-- internal/idlewatcher/watcher.go: how the loop of watchUntilDestroy ends, and what the goroutine of
-- NewWatcher does then: the tickers stop, the watcher is set ready, and its channel is closed, so that
-- every request that waits goes on, as one does that finds the watcher ready. Only requests reach it
-- from then on. The watcher leaves the map of watchers, which is not modelled.
use godoxy.Prelude.{◌≡◌, refl, ap, ◌∙◌, Bool, true, Option, none, some, List, [], ◌∷◌}
use godoxy.Prelude.Bytes.{Bytes}
use godoxy.Idlewatcher.{Watcher, set_ready, wake, wake_if_stopped, wait_for_ready, reset_idle_timer}
use godoxy.Idlewatcher.Loop.{
  resets, wakes, waits, Request, Step, event, request, step, on_request, stop_tickers,
}
use godoxy.Idlewatcher.Phase.{healthy, state_of}
use godoxy.Idlewatcher.Notified.{waited}

-- The context of the watcher's task is done, or `causeContainerDestroy`.
data Exit : Type 0 where
  context_done container_destroyed : Exit

data Life : Type 0 where
  watching : Watcher → Life
  ended : Exit → Watcher → Life

data Input : Type 0 where
  takes : Step → Input
  exits : Exit → Input

finish_watch : Watcher → Watcher
finish_watch w = set_ready (stop_tickers w)

live : Input → Life → Life
unfolding finish_watch
live (takes s) (watching w) = watching (step s w)
live (exits cause) (watching w) = ended cause (finish_watch w)
live (takes (request r)) (ended cause w) = ended cause (on_request r w)
live (takes (event e)) (ended cause w) = ended cause w
live (exits _) (ended cause w) = ended cause w

lives : List Input → Life → Life
unfolding live
lives [] l = l
lives (i ∷ is) l = lives is (live i l)

-- The watcher is ready and has made no call since `w`.
record Idle (w x : Watcher) : Type 0 where
  state_is : x.state ≡ state_of healthy
  calls_are : x.calls ≡ w.calls

in_healthy : (w x : Watcher) → Idle w x → x ≡ record x { state = state_of healthy }
in_healthy w x h = λ i. record x { state = h.state_is i }

healthy_request :
    (r : Request) (x : Watcher)
    → ((on_request r (record x { state = state_of healthy })).state ≡ state_of healthy)
      × ((on_request r (record x { state = state_of healthy })).calls ≡ x.calls)
unfolding on_request reset_idle_timer wake wake_if_stopped wait_for_ready
healthy_request (resets now) x = (refl, refl)
healthy_request (wakes (some d) answer) x = (refl, refl)
healthy_request (wakes none answer) x = (refl, refl)
healthy_request (waits cancelled) x = (refl, refl)

request-Idle : (r : Request) (w x : Watcher) → Idle w x → Idle w (on_request r x)
request-Idle r w x h = record {
  state_is = ap (λ x. (on_request r x).state) (in_healthy w x h) ∙ (healthy_request r x).0;
  calls_are =
      ap (λ x. (on_request r x).calls) (in_healthy w x h) ∙ (healthy_request r x).1 ∙ h.calls_are;
}

lives-Idle :
    (is : List Input) (cause : Exit) (w x : Watcher)
    → Idle w x
    → (y : Watcher) × (lives is (ended cause x) ≡ ended cause y) × Idle w y
unfolding lives live
lives-Idle [] cause w x h = (x, refl, h)
lives-Idle (takes (request r) ∷ is) cause w x h =
    lives-Idle is cause w (on_request r x) (request-Idle r w x h)
lives-Idle (takes (event e) ∷ is) cause w x h = lives-Idle is cause w x h
lives-Idle (exits _ ∷ is) cause w x h = lives-Idle is cause w x h

healthy_answers :
    (cancelled : Bool) (answer : Option Bytes) (x : Watcher)
    → (waited (wait_for_ready cancelled (record x { state = state_of healthy })) ≡ some true)
      × ((wake none answer (record x { state = state_of healthy })).1 ≡ none)
unfolding wait_for_ready wake wake_if_stopped
healthy_answers cancelled answer x = (refl, refl)

-- After the loop has ended, because the container was destroyed too, the watcher stays so: no request
-- waits and none asks the provider for anything, but each is let through as if the container ran.
lives-ended :
    (is : List Input) (cause : Exit) (w : Watcher) (cancelled : Bool) (answer : Option Bytes)
    → (x : Watcher) × (lives is (live (exits cause) (watching w)) ≡ ended cause x)
      × (x.calls ≡ w.calls)
      × (waited (wait_for_ready cancelled x) ≡ some true)
      × ((wake none answer x).1 ≡ none)
unfolding live finish_watch set_ready
lives-ended is cause w cancelled answer =
    let (x, e, h) =
      lives-Idle is cause w (finish_watch w) (record { state_is = refl; calls_are = refl }) in
    (
      x,
      e,
      h.calls_are,
      ap (λ x. waited (wait_for_ready cancelled x)) (in_healthy w x h)
          ∙ (healthy_answers cancelled answer x).0,
      ap (λ x. (wake none answer x).1) (in_healthy w x h) ∙ (healthy_answers cancelled answer x).1,
    )
