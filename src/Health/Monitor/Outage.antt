-- ===== src/Health/Monitor/Outage.antt =====
-- The notifications of internal/health/monitor/monitor.go against the history of checks.
use godoxy.Prelude.{
  ℕ, zero, suc, ◌≡◌, refl, ap, ◌∙◌, List, [], ◌∷◌, arith, leb, ◌==◌, if◌then◌else◌,
}
use godoxy.Prelude.Int.{ℤ, pos, negsuc}
use godoxy.Health.Status.{status_healthy}
use godoxy.Health.Monitor.{
  HealthCheckResult, Outcome, failed, returned, Notice, service_up, service_down, Monitor, init,
  result_of, check_update_health,
}

-- The checks so far with their times, the newest first.
abbrev pub History : Type 0
History = List (ℕ × Outcome)

-- The monitor after these checks.
unfoldable pub replay : Monitor → History → Monitor
unfolding check_update_health
replay m [] = m
replay m ((now, o) ∷ h) = (check_update_health now o (replay m h)).0

-- The number of unhealthy checks since the last healthy one.
abbrev pub trailing : History → ℕ
trailing [] = 0
trailing ((now, o) ∷ h) = let rest = trailing h in if (result_of o).healthy then 0 else suc rest

-- The failure at which an outage is reported: the first for a negative number of retries or none.
abbrev pub threshold : ℤ → ℕ
threshold (pos zero) = 1
threshold (pos (suc n)) = suc n
threshold (negsuc n) = 1

-- The notices due: one for each outage, at its threshold, and one for each recovery.
abbrev pub due : ℕ → History → List Notice
due k [] = []
due k ((now, o) ∷ h) =
    let rest = due k h in
    if (result_of o).healthy
    then if trailing h == 0 then rest else service_up (result_of o) ∷ rest
    else if suc (trailing h) == k
    then service_down (result_of o) ∷ rest
    else rest

abbrev pub Counts : ℤ → ℕ → Monitor → Type 0
Counts (pos n) t m = m.num_consec_failures ≡ t
Counts (negsuc n) t m = Unit

-- One check from a state with these facts, for each form of the retries.
abbrev Tracks : ℤ → ℕ → Monitor → Type 0
Tracks r t m =
    (m.retries ≡ r)
    × ((m.status == status_healthy) ≡ (t == 0))
    × (m.down_notification_sent ≡ leb (threshold r) t)
    × Counts r t m

abbrev due_now : ℕ → ℕ → HealthCheckResult → List Notice → List Notice
due_now k t r rest =
    if r.healthy
    then if t == 0 then rest else service_up r ∷ rest
    else if suc t == k
    then service_down r ∷ rest
    else rest

check-Tracks :
    (r : ℤ) (t now : ℕ) (o : Outcome) (m : Monitor)
    → Tracks r t m
    → Tracks r (if (result_of o).healthy then 0 else suc t) (check_update_health now o m).0
      × ((check_update_health now o m).0.notices ≡ due_now (threshold r) t (result_of o) m.notices)
unfolding check_update_health
check-Tracks (pos zero) t now (failed e) m h = ground arith
check-Tracks (pos zero) t now (returned x) m h = ground arith
check-Tracks (pos (suc n)) t now (failed e) m h = ground arith
check-Tracks (pos (suc n)) t now (returned x) m h = ground arith
check-Tracks (negsuc n) t now (failed e) m h = ground arith
check-Tracks (negsuc n) t now (returned x) m h = ground arith

init-Tracks : (i r : ℤ) → Tracks r 0 (init i r)
unfolding init
init-Tracks i (pos zero) = ground arith
init-Tracks i (pos (suc n)) = ground arith
init-Tracks i (negsuc n) = ground arith

init-notices : (i r : ℤ) → (init i r).notices ≡ []
unfolding init
init-notices i r = refl

replay-Tracks :
    (i r : ℤ) (h : History)
    → Tracks r (trailing h) (replay (init i r) h)
      × ((replay (init i r) h).notices ≡ due (threshold r) h)
unfolding replay
replay-Tracks i r [] = (init-Tracks i r, init-notices i r)
replay-Tracks i r ((now, o) ∷ h) =
    let (before, sent) = replay-Tracks i r h in
    let (after, more) = check-Tracks r (trailing h) now o (replay (init i r) h) before in
    (after, more ∙ ap (due_now (threshold r) (trailing h) (result_of o)) sent)

-- After any history of checks the notices sent are exactly those due: a service-down notice at the
-- threshold of each outage and at no other check, and a service-up notice at each recovery.
pub replay-notices : (i r : ℤ) (h : History) → (replay (init i r) h).notices ≡ due (threshold r) h
replay-notices i r h = (replay-Tracks i r h).1

-- After any history of checks the status is healthy exactly when the newest check was (or there was
-- none), the flag says whether the present outage has reached its threshold, and for a number of
-- retries that is not negative the counter is the number of unhealthy checks since the last healthy
-- one.
pub replay_state :
    (i r : ℤ) (h : History)
    → ((replay (init i r) h).status == status_healthy ≡ (trailing h == 0))
      × ((replay (init i r) h).down_notification_sent ≡ leb (threshold r) (trailing h))
      × Counts r (trailing h) (replay (init i r) h)
replay_state i r h =
    let (_, status, sent, counts) = (replay-Tracks i r h).0 in (status, sent, counts)
