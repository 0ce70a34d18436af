-- ===== src/Period/Entries.antt =====
-- internal/metrics/period/entries.go: the last `max_entries` samples in a ring. A time and a duration
-- is a number of nanoseconds, and `zero_value` is Go's zero value of the sample's type.
use godoxy.Prelude.{
  ℕ, ◌+◌, ◌-◌, ◌*◌, ◌/◌, ◌%◌, max, Bool, List, [], ◌∷◌, ◌++◌, ltb, leb, ◌==◌, if◌then◌else◌, length,
  set, take, drop, replicate,
}

abbrev pub max_entries : ℕ
max_entries = 100

abbrev pub second : ℕ
second = 1000000000

pub record Entries (A : Type 0) : Type 0 where
  pub entries : List A
  pub index : ℕ
  pub count : ℕ
  pub interval : ℕ
  pub last_add : ℕ

-- `max(duration/maxEntries, time.Second)`.
abbrev pub interval_of : ℕ → ℕ
interval_of duration = max (duration / max_entries) second

module _ {A : Type 0} where
  unfoldable pub new_entries : A → ℕ → ℕ → Entries A
  new_entries zero_value duration now = record {
    entries = replicate max_entries zero_value;
    index = 0;
    count = 0;
    interval = interval_of duration;
    last_add = now;
  }

  unfoldable pub add_with_time : ℕ → A → Entries A → Entries A
  add_with_time timestamp info e = record e {
    entries = set e.entries e.index info;
    index = (e.index + 1) % max_entries;
    count = if ltb e.count max_entries then e.count + 1 else e.count;
    last_add = timestamp;
  }

  -- `now.Sub(e.lastAdd)` is negative where the clock went back, and then less than the interval.
  unfoldable pub add : ℕ → A → Entries A → Entries A
  unfolding add_with_time
  add now info e = if ltb now (e.last_add + e.interval) then e else add_with_time now info e

  unfoldable pub validate_interval : ℕ → Entries A → Bool
  validate_interval expected e = e.interval == interval_of expected

  unfoldable pub fix_interval : ℕ → Entries A → Entries A
  fix_interval expected e = record e { interval = interval_of expected }

  -- `Get`. The copies fill `res` from its start; `res` is as long as the ring.
  unfoldable pub get : Entries A → List A
  get e =
      if ltb e.count max_entries
      then take e.count e.entries
      else if leb e.count e.index
      then take e.count e.entries
      else drop e.index e.entries ++ take e.index e.entries

  -- The loop of `UnmarshalJSON`, from the `i`-th of `n` samples on.
  unfoldable pub restore_from : ℕ → ℕ → ℕ → List A → Entries A → Entries A
  unfolding add_with_time
  restore_from now n i [] e = e
  restore_from now n i (info ∷ infos) e =
      restore_from now n (i + 1) infos (add_with_time (now - (n - 1 - i) * e.interval) info e)

  unfoldable pub restore_some : ℕ → ℕ → List A → Entries A → Entries A
  unfolding restore_from
  restore_some now interval infos e =
      let kept = if ltb max_entries (length infos) then take max_entries infos else infos in
      restore_from now (length kept) 0 kept (record e { interval = interval })

  -- `UnmarshalJSON`, for the samples and the interval that were decoded.
  unfoldable pub restore : ℕ → ℕ → List A → Entries A → Entries A
  unfolding restore_some
  restore now interval [] e = e
  restore now interval (info ∷ infos) e = restore_some now interval (info ∷ infos) e
