-- ===== src/Period/Tests.antt =====
-- Witnesses for the theorems on the metric periods.
use godoxy.Prelude.{ℕ, ◌≡◌, List, [], ◌∷◌}
use godoxy.Period.Entries.{
  Entries, new_entries, add_with_time, get, restore, max_entries, interval_of,
}
use godoxy.Period.Window.{take_last, new_entries-IsValid, add_with_time-IsValid}
use godoxy.Period.History.{accepted, add_all, get-add_run, get-restore-get}

-- Samples of a ring whose interval is one second: the second comes too early.
abbrev samples : List (ℕ × ℕ)
samples = (1000000000, 7) ∷ (1500000000, 8) ∷ (2000000000, 9) ∷ []

get-add_run_example :
    get (add_all samples (new_entries 0 100000000000 0))
    ≡ take_last max_entries (accepted (interval_of 100000000000) 0 samples)
get-add_run_example = get-add_run 0 100000000000 0 samples

abbrev two : Entries ℕ
two = add_with_time 6 8 (add_with_time 5 7 (new_entries 0 100000000000 0))

get-restore-get_example :
    get (restore 9 1000000000 (get two) (new_entries 0 300000000000 1)) ≡ get two
get-restore-get_example = get-restore-get two 0 300000000000 1 9 1000000000 (
    add_with_time-IsValid 6 8 (add_with_time 5 7 (new_entries 0 100000000000 0)) (
      add_with_time-IsValid 5 7 (new_entries 0 100000000000 0)
        (new_entries-IsValid 0 100000000000 0)))
