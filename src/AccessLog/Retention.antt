-- ===== src/AccessLog/Retention.antt =====
-- internal/logging/accesslog/retention.go: the retention of a log, and its syntax. `SplitSpace` and
-- `strconv.ParseUint` are arguments; the latter returns a number and whether there was an error.
use Prim.Native.String.{String}
use mathlib.Core.Path.{subst}
use text.Mathlib.Text.{◌==◌ as str_eq}
use godoxy.Prelude.{
  ℕ, zero, suc, ◌*◌, ◌%◌, ◌<◌, ◌≡◌, ◌⊎◌, inl, inr, refl, arith, Bool, true, false, ◌||◌, Option,
  none, some, List, [], ◌∷◌, ltb, if◌then◌else◌, Bool-cases,
}

pub record Retention : Type 0 where
  pub days : ℕ
  pub last : ℕ
  pub keep_size : ℕ

pub data RetentionError : Type 0 where
  invalid_syntax zero_value invalid_number : RetentionError

-- The retention that `Parse` leaves, with the error that it returns.
abbrev pub Outcome : Type 0
Outcome = Retention × Option RetentionError

abbrev pub u64 : ℕ → ℕ
u64 n = n % 18446744073709551616

unfoldable pub is_valid : Retention → Bool
is_valid r = ltb 0 r.days || (ltb 0 r.last || ltb 0 r.keep_size)

-- The number of bytes of a unit.
unfoldable pub unit_size : String → Option ℕ
unit_size u =
    if str_eq u "kb" || str_eq u "Kb"
    then some 1000
    else if str_eq u "KB"
    then some 1024
    else if str_eq u "mb" || str_eq u "Mb"
    then some 1000000
    else if str_eq u "MB"
    then some 1048576
    else if str_eq u "gb" || str_eq u "Gb"
    then some 1000000000
    else if str_eq u "GB"
    then some 1073741824
    else none

-- The number of days of a unit.
unfoldable pub unit_days : String → Option ℕ
unit_days u =
    if str_eq u "day" || str_eq u "days"
    then some 1
    else if str_eq u "week" || str_eq u "weeks"
    then some 7
    else if str_eq u "month" || str_eq u "months"
    then some 30
    else none

-- The end of `Parse`.
checked : Retention → Bool → Outcome
unfolding is_valid
checked r bad =
    if is_valid r
    then (if bad then (r, some invalid_number) else (r, none))
    else (r, some zero_value)

parse_size : ℕ → Option ℕ → Retention → Outcome
unfolding checked
parse_size n none r = (r, some invalid_syntax)
parse_size n (some k) r = checked (record r { keep_size = u64 (n * k) }) false

parse_days : ℕ → String → Option ℕ → Retention → Outcome
unfolding parse_size unit_size checked
parse_days n unit none r = parse_size n (unit_size unit) r
parse_days n unit (some k) r = checked (record r { days = u64 (n * k) }) false

parse_number : String → ℕ × Bool → Retention → Outcome
unfolding parse_days unit_days
parse_number unit (n, true) r = (r, some invalid_number)
parse_number unit (n, false) r = parse_days n unit (unit_days unit) r

parse_words : (String → ℕ × Bool) → List String → Retention → Outcome
unfolding parse_number checked
parse_words parse_uint (a ∷ b ∷ []) r =
    if str_eq a "last"
    then checked (record r { last = (parse_uint b).0 }) (parse_uint b).1
    else parse_number b (parse_uint a) r
parse_words parse_uint _ r = (r, some invalid_syntax)

unfoldable pub parse_retention :
    (String → List String) → (String → ℕ × Bool) → String → Retention → Outcome
unfolding parse_words
parse_retention split_space parse_uint v r = parse_words parse_uint (split_space v) r

abbrev pub fresh : Retention
fresh = record { days = 0; last = 0; keep_size = 0 }

-- Exactly one of the three limits is set.
abbrev pub IsOne : Retention → Type 0
IsOne r =
    ((0 < r.days) × (r.last ≡ 0) × (r.keep_size ≡ 0))
    ⊎ (((r.days ≡ 0) × (0 < r.last) × (r.keep_size ≡ 0))
        ⊎ ((r.days ≡ 0) × (r.last ≡ 0) × (0 < r.keep_size)))

-- With no error there is one limit, and without one there is an error.
abbrev Right : Outcome → Type 0
Right (r, none) = IsOne r
Right (r, some e) = Unit

checked-Right : (r : Retention) (bad : Bool) → (is_valid r ≡ true → IsOne r) → Right (checked r bad)
unfolding checked
checked-Right r bad f = elim (Bool-cases (is_valid r)) [
  | inl e ↦ elim bad as (λ b. Right (checked r b)) [
    | true ↦ rw (e, checked) tt
    | false ↦ rw (e, checked) (f e)
  ]
  | inr e ↦ rw (e, checked) tt
]

last-Right : (n : ℕ) (bad : Bool) → Right (checked (record fresh { last = n }) bad)
unfolding is_valid
last-Right n bad = checked-Right (record fresh { last = n }) bad (one n)
  where
    one : (n : ℕ) → is_valid (record fresh { last = n }) ≡ true → IsOne (record fresh { last = n })
    one zero h = absurd (cc)
    one (suc n) h = inr (inl (refl, omega arith, refl))

days-Right : (n : ℕ) → Right (checked (record fresh { days = n }) false)
unfolding is_valid
days-Right n = checked-Right (record fresh { days = n }) false (one n)
  where
    one : (n : ℕ) → is_valid (record fresh { days = n }) ≡ true → IsOne (record fresh { days = n })
    one zero h = absurd (cc)
    one (suc n) h = inl (omega arith, refl, refl)

size-Right : (n : ℕ) → Right (checked (record fresh { keep_size = n }) false)
unfolding is_valid
size-Right n = checked-Right (record fresh { keep_size = n }) false (one n)
  where
    one :
        (n : ℕ)
        → is_valid (record fresh { keep_size = n }) ≡ true
        → IsOne (record fresh { keep_size = n })
    one zero h = absurd (cc)
    one (suc n) h = inr (inr (refl, refl, omega arith))

parse_size-Right : (n : ℕ) (o : Option ℕ) → Right (parse_size n o fresh)
unfolding parse_size
parse_size-Right n none = tt
parse_size-Right n (some k) = size-Right (u64 (n * k))

parse_days-Right : (n : ℕ) (unit : String) (o : Option ℕ) → Right (parse_days n unit o fresh)
unfolding parse_days
parse_days-Right n unit none = parse_size-Right n (unit_size unit)
parse_days-Right n unit (some k) = days-Right (u64 (n * k))

parse_number-Right : (unit : String) (p : ℕ × Bool) → Right (parse_number unit p fresh)
unfolding parse_number
parse_number-Right unit (n, true) = tt
parse_number-Right unit (n, false) = parse_days-Right n unit (unit_days unit)

parse_words-Right :
    (parse_uint : String → ℕ × Bool) (ws : List String) → Right (parse_words parse_uint ws fresh)
unfolding parse_words
parse_words-Right parse_uint [] = tt
parse_words-Right parse_uint (a ∷ []) = tt
parse_words-Right parse_uint (a ∷ b ∷ []) = elim (Bool-cases (str_eq a "last")) [
  | inl e ↦ rw e (last-Right (parse_uint b).0 (parse_uint b).1)
  | inr e ↦ rw e (parse_number-Right b (parse_uint a))
]
parse_words-Right parse_uint (a ∷ b ∷ c ∷ ws) = tt

-- A retention that is parsed without an error sets exactly one limit, and not to zero, whatever the
-- text, its number and its unit are.
pub parse_retention-IsOne :
    (split_space : String → List String) (parse_uint : String → ℕ × Bool) (v : String)
    (r : Retention)
    → parse_retention split_space parse_uint v fresh ≡ (r, none)
    → IsOne r
unfolding parse_retention
parse_retention-IsOne split_space parse_uint v r h =
    subst Right h (parse_words-Right parse_uint (split_space v))
