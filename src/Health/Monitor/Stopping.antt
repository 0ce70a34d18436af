-- ===== src/Health/Monitor/Stopping.antt =====
-- The loop of internal/health/monitor/monitor.go: when it stops, and with which status.
use mathlib.Core.Path.{subst}
use Prim.Native.String.{String}
use godoxy.Prelude.{ℕ, suc, ◌+◌, ◌≤◌, ◌<◌, ◌≡◌, ◌⊎◌, refl, true, some, List, [], ◌∷◌, arith, length}
use godoxy.Prelude.Int.{pos, ltb_ℤ}
use godoxy.Health.Status.{status_unhealthy, status_error}
use godoxy.Health.Monitor.{
  Outcome, failed, returned, Monitor, check_update_health, Loop, waiting, stopped, Event, cancelled,
  tick, round, rounds, start, on_exit, first_failures, error_of,
}

-- Every event is a round whose check returned an error.
abbrev pub AllFailed : List Event → Type 0
AllFailed [] = Unit
AllFailed (tick now (failed e) ∷ es) = AllFailed es
AllFailed (tick now (returned r) ∷ es) = ⊥
AllFailed (cancelled ∷ es) = ⊥

-- The loop after `k` failures in a row.
abbrev pub AfterFailures : ℕ → Loop → Type 0
AfterFailures k (waiting n m) = (n ≡ k) × (k < 5)
AfterFailures k (stopped m) = (5 ≤ k) × (m.status ≡ status_error)

check_error : (now : ℕ) (o : Outcome) (m : Monitor) → (check_update_health now o m).1 ≡ error_of o
unfolding check_update_health
check_error now o m = refl

round-failed :
    (n now : ℕ) (m : Monitor) (e : String)
    → n < 5
    → AfterFailures (n + 1) (round (tick now (failed e)) (waiting n m))
unfolding round
round-failed n now m e h = ground (arith, check_error now (failed e) m)

rounds-stopped : (es : List Event) (m : Monitor) → rounds es (stopped m) ≡ stopped m
unfolding rounds
rounds-stopped [] m = refl
rounds-stopped (e ∷ es) m = rounds-stopped es m

AfterFailures-later :
    (k j : ℕ) (m : Monitor) → AfterFailures k (stopped m) → AfterFailures (k + j) (stopped m)
AfterFailures-later k j m h = (omega arith, h.1)

regroup : (k j : ℕ) → k + 1 + j ≡ k + suc j
regroup k j = omega arith

rounds-AfterFailures :
    (es : List Event) (k : ℕ) (l : Loop)
    → AllFailed es
    → AfterFailures k l
    → AfterFailures (k + length es) (rounds es l)
unfolding rounds
rounds-AfterFailures [] k (waiting n m) a h = (omega arith, omega arith)
rounds-AfterFailures es k (stopped m) a h =
    rw (rounds-stopped es m) (AfterFailures-later k (length es) m h)
rounds-AfterFailures (tick now (failed e) ∷ es) k (waiting n m) a h =
    subst (λ j. AfterFailures j (rounds es (round (tick now (failed e)) (waiting n m))))
      (regroup k (length es))
      (rounds-AfterFailures es (k + 1) (round (tick now (failed e)) (waiting n m)) a (
        subst (λ j. AfterFailures (j + 1) (round (tick now (failed e)) (waiting n m))) h.0
          (round-failed n now m e (omega arith))))
rounds-AfterFailures (tick now (returned r) ∷ es) k (waiting n m) a h = absurd a
rounds-AfterFailures (cancelled ∷ es) k (waiting n m) a h = absurd a

abbrev pub Ended : Loop → Type 0
Ended (waiting n m) = Unit
Ended (stopped m) = (m.status ≡ status_error) ⊎ (m.status ≡ status_unhealthy)

on_exit-Ended : (m : Monitor) → Ended (stopped (on_exit m))
unfolding on_exit
on_exit-Ended m = ground arith

round-Ended : (e : Event) (l : Loop) → Ended l → Ended (round e l)
unfolding round
round-Ended e (stopped m) h = h
round-Ended cancelled (waiting n m) h = on_exit-Ended m
round-Ended (tick now o) (waiting n m) h = ground arith

rounds-Ended : (es : List Event) (l : Loop) → Ended l → Ended (rounds es l)
unfolding rounds
rounds-Ended [] l h = h
rounds-Ended (e ∷ es) l h = rounds-Ended es (round e l) (round-Ended e l h)

-- From fewer than five failures in a row, a run of failed rounds goes on counting while the total
-- stays under five, and otherwise has stopped the loop with the error status.
pub failures_stop :
    (es : List Event) (n : ℕ) (m : Monitor)
    → AllFailed es
    → n < 5
    → AfterFailures (n + length es) (rounds es (waiting n m))
failures_stop es n m a h = rounds-AfterFailures es n (waiting n m) a (refl, h)

-- With a positive interval `Start` gives a loop, and whenever that loop has stopped, for whatever
-- reason, it has left the error or the unhealthy status behind.
pub start-Ended :
    (now : ℕ) (o : Outcome) (es : List Event) (m : Monitor)
    → ltb_ℤ (pos 0) m.interval ≡ true
    → (l : Loop) × (start now o es m ≡ some l) × Ended l
unfolding start
start-Ended now o es m h = (
  rounds es (waiting (first_failures (error_of o)) (check_update_health now o m).0),
  simp (h, check_error now o m),
  rounds-Ended es (waiting (first_failures (error_of o)) (check_update_health now o m).0) tt,
)
