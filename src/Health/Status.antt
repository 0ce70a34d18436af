-- ===== src/Health/Status.antt =====
-- internal/types/health.go: the status byte, its masks and its texts.
use Prim.Native.Nat.{bit_and, bit_or}
use Prim.Native.String.{String}
use text.Mathlib.Text.{◌==◌ as str_eq}
use godoxy.Prelude.{
  ℕ, ◌≡◌, refl, ◌⊎◌, ◌↔◌, Bool, true, false, not, ◌||◌, arith, ◌==◌, if◌then◌else◌,
}

-- A `uint8`; `1 << iota` starts at iota = 1.
abbrev pub HealthStatus : Type 0
HealthStatus = ℕ

abbrev pub status_unknown : HealthStatus
status_unknown = 0

abbrev pub status_healthy : HealthStatus
status_healthy = 2

abbrev pub status_napping : HealthStatus
status_napping = 4

abbrev pub status_starting : HealthStatus
status_starting = 8

abbrev pub status_unhealthy : HealthStatus
status_unhealthy = 16

abbrev pub status_error : HealthStatus
status_error = 32

abbrev pub healthy_mask : HealthStatus
healthy_mask = bit_or (bit_or status_healthy status_napping) status_starting

abbrev pub idling_mask : HealthStatus
idling_mask = bit_or status_napping status_starting

-- The second text of each case is the decimal form of the byte.
unfoldable pub new_health_status_from_string : String → HealthStatus
new_health_status_from_string s =
    if str_eq s "healthy" || str_eq s "2"
    then status_healthy
    else if str_eq s "unhealthy" || str_eq s "16"
    then status_unhealthy
    else if str_eq s "napping" || str_eq s "4"
    then status_napping
    else if str_eq s "starting" || str_eq s "8"
    then status_starting
    else if str_eq s "error" || str_eq s "32"
    then status_error
    else status_unknown

unfoldable pub status_string : HealthStatus → String
status_string s =
    if s == status_healthy
    then "healthy"
    else if s == status_unhealthy
    then "unhealthy"
    else if s == status_napping
    then "napping"
    else if s == status_starting
    then "starting"
    else if s == status_error
    then "error"
    else "unknown"

unfoldable pub good : HealthStatus → Bool
good s = not (bit_and s healthy_mask == 0)

unfoldable pub bad : HealthStatus → Bool
bad s = bit_and s healthy_mask == 0

unfoldable pub idling : HealthStatus → Bool
idling s = not (bit_and s idling_mask == 0)

-- The six values that the constants name.
pub data IsStatus : HealthStatus → Type 0 where
  unknown : IsStatus 0
  healthy : IsStatus 2
  napping : IsStatus 4
  starting : IsStatus 8
  unhealthy : IsStatus 16
  error : IsStatus 32

-- The text of each of the six statuses reads back as that status.
pub from_string-status_string :
    {s : HealthStatus} → IsStatus s → new_health_status_from_string (status_string s) ≡ s
unfolding new_health_status_from_string status_string
from_string-status_string unknown = refl
from_string-status_string healthy = refl
from_string-status_string napping = refl
from_string-status_string starting = refl
from_string-status_string unhealthy = refl
from_string-status_string error = refl

if-IsStatus :
    (b : Bool) {x y : HealthStatus} → IsStatus x → IsStatus y → IsStatus (if b then x else y)
if-IsStatus true p q = p
if-IsStatus false p q = q

-- Every text, known or not, is read as one of the six statuses.
from_string-IsStatus : (t : String) → IsStatus (new_health_status_from_string t)
unfolding new_health_status_from_string
from_string-IsStatus t = if-IsStatus _ healthy (
    if-IsStatus _ unhealthy
      (if-IsStatus _ napping (if-IsStatus _ starting (if-IsStatus _ error unknown))))

-- Reading any text gives one of the six statuses, and printing that status and reading it again
-- gives the same status.
pub from_string_normal :
    (t : String)
    → IsStatus (new_health_status_from_string t)
      × (new_health_status_from_string (status_string (new_health_status_from_string t))
          ≡ new_health_status_from_string t)
from_string_normal t = (from_string-IsStatus t, from_string-status_string (from_string-IsStatus t))

-- For each of the six statuses: `Good` is the negation of `Bad`, `Good` holds exactly of healthy,
-- napping and starting, and `Idling` exactly of napping and starting.
pub good_iff :
    {s : HealthStatus}
    → IsStatus s
    → (good s ≡ not (bad s))
      × ((good s ≡ true) ↔ ((s ≡ status_healthy) ⊎ ((s ≡ status_napping) ⊎ (s ≡ status_starting))))
      × ((idling s ≡ true) ↔ ((s ≡ status_napping) ⊎ (s ≡ status_starting)))
unfolding good bad idling
good_iff unknown = ground arith
good_iff healthy = ground arith
good_iff napping = ground arith
good_iff starting = ground arith
good_iff unhealthy = ground arith
good_iff error = ground arith
