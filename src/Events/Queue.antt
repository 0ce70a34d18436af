-- ===== src/Events/Queue.antt =====
-- internal/watcher/events/event_queue.go: the loop of `Start`.
use mathlib.Core.Path.{subst}
use godoxy.Prelude.{
  ◌≡◌, refl, sym, ap, ◌∙◌, Bool, false, Option, none, some, List, [], ◌∷◌, ◌++◌, append_assoc,
  append-nil, All, ◌≢◌, if◌then◌else◌,
}

-- What the `select` receives: the end of the task, a tick with the error that a panic of `onFlush`
-- would be reported as, or a value of a channel, which is `none` once that is closed.
pub data Input (A E : Type 0) : Type 0 where
  cancelled : Input A E
  tick : Option E → Input A E
  event : Option A → Input A E
  error : Option (Option E) → Input A E

-- The queue, the calls of `onFlush` and `onError` so far, and whether the loop still runs. A loop that
-- has crashed is a panic that left the goroutine.
pub data Phase : Type 0 where
  running stopped crashed : Phase

pub record EventQueue (A E : Type 0) : Type 0 where
  pub queue : List A
  pub flushed : List (List A)
  pub errors : List E
  pub phase : Phase

module _ {A : Type 0} where
  abbrev pub join : List (List A) → List A
  join [] = []
  join (xs ∷ xss) = xs ++ join xss

  join-snoc : (xss : List (List A)) (xs : List A) → join (xss ++ xs ∷ []) ≡ join xss ++ xs
  join-snoc [] xs = append-nil xs
  join-snoc (ys ∷ xss) xs =
      ap (λ t. ys ++ t) (join-snoc xss xs) ∙ sym (append_assoc ys (join xss) xs)

  All-snoc :
      (xss : List (List A)) (b : List A)
      → All (λ c. c ≢ []) xss
      → b ≢ []
      → All (λ c. c ≢ []) (xss ++ b ∷ [])
  All-snoc [] b h g = (g, tt)
  All-snoc (xs ∷ xss) b h g = (h.0, All-snoc xss b h.1 g)

module _ {A E : Type 0} where
  unfoldable pub new_event_queue : EventQueue A E
  new_event_queue = record { queue = []; flushed = []; errors = []; phase = running }

  -- The wrapped `onFlush`, for the panic of the original one: outside debug mode it is recovered.
  on_flush : Bool → List A → Option E → EventQueue A E → EventQueue A E
  on_flush debug events none q = record q { flushed = q.flushed ++ events ∷ [] }
  on_flush debug events (some e) q = record q {
    flushed = q.flushed ++ events ∷ [];
    errors = q.errors ++ e ∷ [];
    phase = if debug then crashed else q.phase;
  }

  -- The branch of the ticker: clone, clear, flush.
  on_tick : Bool → List A → Option E → EventQueue A E → EventQueue A E
  unfolding on_flush
  on_tick debug [] o q = q
  on_tick debug (a ∷ events) o q = on_flush debug (a ∷ events) o (record q { queue = [] })

  receive : Bool → Input A E → EventQueue A E → EventQueue A E
  unfolding on_tick
  receive debug cancelled q = record q { phase = stopped }
  receive debug (tick o) q = on_tick debug q.queue o q
  receive debug (event none) q = record q { phase = stopped }
  receive debug (event (some a)) q = record q { queue = q.queue ++ a ∷ [] }
  receive debug (error none) q = record q { phase = stopped }
  receive debug (error (some none)) q = q
  receive debug (error (some (some e))) q = record q { errors = q.errors ++ e ∷ [] }

  step_in : Phase → Bool → Input A E → EventQueue A E → EventQueue A E
  unfolding receive
  step_in running debug i q = receive debug i q
  step_in stopped debug i q = q
  step_in crashed debug i q = q

  unfoldable pub step : Bool → Input A E → EventQueue A E → EventQueue A E
  unfolding step_in
  step debug i q = step_in q.phase debug i q

  unfoldable pub run : Bool → List (Input A E) → EventQueue A E → EventQueue A E
  run debug [] q = q
  run debug (i ∷ is) q = run debug is (step debug i q)

  -- The events that arrive before the loop is told to stop.
  abbrev pub arrived : List (Input A E) → List A
  arrived [] = []
  arrived (cancelled ∷ is) = []
  arrived (tick o ∷ is) = arrived is
  arrived (event none ∷ is) = []
  arrived (event (some a) ∷ is) = a ∷ arrived is
  arrived (error none ∷ is) = []
  arrived (error (some o) ∷ is) = arrived is

  -- All that has been received: flushed in batches, and still waiting.
  abbrev pub received : EventQueue A E → List A
  received q = join q.flushed ++ q.queue

  run-halted :
      (debug : Bool) (is : List (Input A E)) (q : EventQueue A E)
      → run debug is (record q { phase = stopped }) ≡ record q { phase = stopped }
  unfolding run step step_in
  run-halted debug [] q = refl
  run-halted debug (i ∷ is) q = run-halted debug is q

  -- Every batch has an event.
  abbrev pub Batches : EventQueue A E → Type 0
  Batches q = All (λ b. b ≢ []) q.flushed

  -- What a step leaves of the facts, outside debug mode.
  abbrev Kept : List A → EventQueue A E → Type 0
  Kept xs q = (received q ≡ xs) × Batches q × (q.phase ≡ running)

  flushed-Kept :
      (a : A) (events : List A) (o : Option E) (q : EventQueue A E)
      → q.phase ≡ running
      → Batches q
      → Kept
          (join q.flushed ++ a ∷ events)
          (on_flush false (a ∷ events) o (record q { queue = [] }))
  unfolding on_flush
  flushed-Kept a events none q h b = (
    append-nil _ ∙ join-snoc q.flushed (a ∷ events),
    All-snoc q.flushed (a ∷ events) b (λ e. cc),
    h,
  )
  flushed-Kept a events (some e) q h b = (
    append-nil _ ∙ join-snoc q.flushed (a ∷ events),
    All-snoc q.flushed (a ∷ events) b (λ e. cc),
    h,
  )

  on_tick-Kept :
      (events : List A) (o : Option E) (q : EventQueue A E)
      → q.queue ≡ events
      → q.phase ≡ running
      → Batches q
      → Kept (join q.flushed ++ events) (on_tick false events o q)
  unfolding on_tick
  on_tick-Kept [] o q e h b = (ap (λ t. join q.flushed ++ t) e, b, h)
  on_tick-Kept (a ∷ events) o q e h b = flushed-Kept a events o q h b

  abbrev Complete : List (Input A E) → EventQueue A E → Type 0
  Complete is q = (received (run false is q) ≡ received q ++ arrived is) × Batches (run false is q)

  halted :
      (is : List (Input A E)) (q : EventQueue A E)
      → Batches q
      → (received (run false is (record q { phase = stopped })) ≡ received q ++ [])
        × Batches (run false is (record q { phase = stopped }))
  halted is q b = rw (run-halted false is q) (sym (append-nil _), b)

  step-running :
      (i : Input A E) (q : EventQueue A E) → q.phase ≡ running → step false i q ≡ receive false i q
  unfolding step step_in
  step-running i q h = ap (λ p. step_in p false i q) h

  advance :
      (i : Input A E) (is : List (Input A E)) (q : EventQueue A E) (xs : List A)
      → q.phase ≡ running
      → (received (run false is (receive false i q)) ≡ xs)
        × Batches (run false is (receive false i q))
      → (received (run false (i ∷ is) q) ≡ xs) × Batches (run false (i ∷ is) q)
  unfolding run
  advance i is q xs h t =
      subst (λ r. (received r ≡ xs) × Batches r) (sym (ap (run false is) (step-running i q h))) t

  run_kept :
      (is : List (Input A E)) (q q' : EventQueue A E)
      → received q' ≡ received q
      → Complete is q'
      → (received (run false is q') ≡ received q ++ arrived is) × Batches (run false is q')
  run_kept is q q' e (c, b) = (c ∙ ap (λ t. t ++ arrived is) e, b)

  run_from :
      (is : List (Input A E)) (q : EventQueue A E) → q.phase ≡ running → Batches q → Complete is q
  unfolding run receive
  run_from [] q h b = (sym (append-nil _), b)
  run_from (cancelled ∷ is) q h b = advance cancelled is q _ h (halted is q b)
  run_from (tick o ∷ is) q h b =
      let (e, c, k) = on_tick-Kept q.queue o q refl h b in
      advance (tick o) is q _ h
        (run_kept is q (on_tick false q.queue o q) e (run_from is (on_tick false q.queue o q) k c))
  run_from (event none ∷ is) q h b = advance (event none) is q _ h (halted is q b)
  run_from (event (some a) ∷ is) q h b =
      let (e, c) = run_from is (record q { queue = q.queue ++ a ∷ [] }) h b in
      advance (event (some a)) is q _ h (
        e
            ∙ ap (λ t. t ++ arrived is) (sym (append_assoc (join q.flushed) q.queue (a ∷ [])))
            ∙ append_assoc (received q) (a ∷ []) (arrived is),
        c,
      )
  run_from (error none ∷ is) q h b = advance (error none) is q _ h (halted is q b)
  run_from (error (some none) ∷ is) q h b = advance (error (some none)) is q _ h (run_from is q h b)
  run_from (error (some (some e)) ∷ is) q h b =
      advance (error (some (some e))) is q _ h
        (run_from is (record q { errors = q.errors ++ e ∷ [] }) h b)

  -- Outside debug mode the batches that are flushed and the events that still wait are together, in
  -- their order, the events that arrived before the loop was told to stop, whatever panics; no batch
  -- is empty.
  pub run-arrived :
      (is : List (Input A E))
      → (received (run false is new_event_queue) ≡ arrived is)
        × Batches (run false is new_event_queue)
  unfolding new_event_queue
  run-arrived is = run_from is new_event_queue refl tt
