-- ===== src/Period/Filters.antt =====
-- internal/metrics/period/period.go: the rings of the five periods. `Entries` is a map with the
-- filters as keys; the samples that JSON decoding left there may bring other keys.
use Prim.Native.String.{String}
use text.Mathlib.Text.{◌==◌ as str_eq}
use godoxy.Prelude.{
  ℕ, ◌+◌, ◌*◌, ◌≡◌, refl, Option, none, some, List, [], ◌∷◌, arith, if◌then◌else◌, All,
}
use godoxy.Period.Entries.{
  Entries, second, interval_of, new_entries, add, get, validate_interval, fix_interval,
}

abbrev minute : ℕ
minute = 60 * second

-- `durations`: the five periods with their lengths.
unfoldable pub duration_of : String → Option ℕ
duration_of f =
    if str_eq f "5m"
    then some (5 * minute)
    else if str_eq f "15m"
    then some (15 * minute)
    else if str_eq f "1h"
    then some (60 * minute)
    else if str_eq f "1d"
    then some (1440 * minute)
    else if str_eq f "1mo"
    then some (43200 * minute)
    else none

abbrev pub Period : Type 0 → Type 0
Period A = List (String × Entries A)

module _ {A : Type 0} where
  unfoldable pub new_period : A → ℕ → Period A
  new_period z now =
      ("5m", new_entries z (5 * minute) now)
      ∷ ("15m", new_entries z (15 * minute) now)
      ∷ ("1h", new_entries z (60 * minute) now)
      ∷ ("1d", new_entries z (1440 * minute) now)
      ∷ ("1mo", new_entries z (43200 * minute) now)
      ∷ []

  unfoldable pub add_info : ℕ → A → Period A → Period A
  add_info now info [] = []
  add_info now info ((f, e) ∷ p) = (f, add now info e) ∷ add_info now info p

  unfoldable pub get_filter : String → Period A → Option (List A)
  get_filter filter [] = none
  get_filter filter ((f, e) ∷ p) = if str_eq f filter then some (get e) else get_filter filter p

  unfoldable pub total : Period A → ℕ
  total [] = 0
  total ((f, e) ∷ p) = e.count + total p

  fix_entry : Option ℕ → Entries A → Entries A
  fix_entry none e = e
  fix_entry (some expected) e = if validate_interval expected e then e else fix_interval expected e

  unfoldable pub validate_and_fix_intervals : Period A → Period A
  unfolding fix_entry
  validate_and_fix_intervals [] = []
  validate_and_fix_intervals ((f, e) ∷ p) =
      (f, fix_entry (duration_of f) e) ∷ validate_and_fix_intervals p

  -- The ring of a known period has the interval of that period.
  abbrev pub HasInterval : Option ℕ → Entries A → Type 0
  HasInterval none e = Unit
  HasInterval (some expected) e = e.interval ≡ interval_of expected

  fix_entry-HasInterval :
      (o : Option ℕ) (e : Entries A)
      → HasInterval o (fix_entry o e)
        × (get (fix_entry o e) ≡ get e)
        × ((fix_entry o e).count ≡ e.count)
  unfolding fix_entry validate_interval fix_interval get
  fix_entry-HasInterval none e = (tt, refl, refl)
  fix_entry-HasInterval (some d) e = (ground arith, ground arith, ground arith)

  -- After `ValidateAndFixIntervals` every known period has its own interval, and no sample, no key
  -- and no count has changed.
  pub validate_and_fix-HasInterval :
      (p : Period A) (filter : String)
      → All (λ r. HasInterval (duration_of r.0) r.1) (validate_and_fix_intervals p)
        × (get_filter filter (validate_and_fix_intervals p) ≡ get_filter filter p)
        × (total (validate_and_fix_intervals p) ≡ total p)
  unfolding validate_and_fix_intervals get_filter total
  validate_and_fix-HasInterval [] filter = (tt, refl, refl)
  validate_and_fix-HasInterval ((f, e) ∷ p) filter =
      let (h, g, t) = fix_entry-HasInterval (duration_of f) e in
      let (hs, gs, ts) = validate_and_fix-HasInterval p filter in
      ((h, hs), rw (g, gs) refl, rw (t, ts) refl)
