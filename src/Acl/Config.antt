-- ===== src/Acl/Config.antt =====
-- internal/acl/config.go: `Validate` and `IPAllowed`. A time is a number of nanoseconds; the cache is
-- the map `ipCache`, and `log` what was sent on `logNotifyCh`, the newest first. The goroutine that
-- reads the channel is in Acl/Notify. Left out is the lookup of the country
-- that `cacheRecord` may force, which fills a field of the cached address only.
pub mod Decision
pub mod Validation
use Prim.Native.String.{String}
use text.Mathlib.Text.{◌==◌ as str_eq}
use godoxy.Prelude.{
  ℕ, ◌+◌, Bool, true, false, not, ◌&&◌, ◌||◌, Option, none, some, List, [], ◌∷◌, ltb, ◌==◌,
  if◌then◌else◌, length,
}
use godoxy.Prelude.Int.{ℤ, pos, ltb_ℤ}
use godoxy.Prelude.Bytes.{Bytes, bytes_eq}
use godoxy.Acl.Matcher.{Net, Matcher, match_any}

-- A `net.IP` that is not nil.
abbrev pub Ip : Type 0
Ip = ℕ

pub record CheckCache : Type 0 where
  pub allow : Bool
  pub created : ℕ

abbrev pub cache_ttl : ℕ
cache_ttl = 60000000000

pub record Config : Type 0 where
  pub default_allow : Bool
  pub allow_local : Bool
  pub allow : List Matcher
  pub deny : List Matcher
  pub notify_interval : ℤ
  pub notify_allowed : Bool
  pub ip_cache : Bytes → Option CheckCache
  pub logs : Bool
  pub log : List (Bytes × Bool)

-- The fields as they are written in the configuration.
pub record Settings : Type 0 where
  pub default : String
  pub allow_local : Option Bool
  pub allow : List Matcher
  pub deny : List Matcher
  pub notify_interval : ℤ
  pub include_allowed : Option Bool

pub data ConfigError : Type 0 where
  invalid_default no_allow_rules : ConfigError

pub data Validated : Type 0 where
  valid : Config → Validated
  invalid : ConfigError → Validated

abbrev default_notify_interval : ℤ
default_notify_interval = pos 60000000000

abbrev or_default : Bool → Option Bool → Bool
or_default d none = d
or_default d (some b) = b

abbrev is_empty : List Matcher → Bool
is_empty [] = true
is_empty (m ∷ ms) = false

validate_with : Bool → Settings → Validated
validate_with default_allow s =
    let local : Bool = or_default true s.allow_local in
    if not local && (not default_allow && is_empty s.allow)
    then invalid no_allow_rules
    else valid (record {
      default_allow = default_allow;
      allow_local = local;
      allow = s.allow;
      deny = s.deny;
      notify_interval =
          if ltb_ℤ (pos 0) s.notify_interval then s.notify_interval else default_notify_interval;
      notify_allowed = or_default false s.include_allowed;
      ip_cache = λ k. none;
      logs = false;
      log = [];
    })

unfoldable pub validate : Settings → Validated
unfolding validate_with
validate s =
    if str_eq s.default "" || str_eq s.default "allow"
    then validate_with true s
    else if str_eq s.default "deny"
    then validate_with false s
    else invalid invalid_default

abbrev pub expired : ℕ → CheckCache → Bool
expired now r = ltb (r.created + cache_ttl) now

log_and_notify : Bytes → Bool → Config → Config
log_and_notify str allowed c = record c { log = if c.logs then (str, allowed) ∷ c.log else c.log }

abbrev store : Bytes → CheckCache → (Bytes → Option CheckCache) → Bytes → Option CheckCache
store k r cache j = if bytes_eq j k then some r else cache j

cache_record : ℕ → Bytes → Bool → Config → Config
cache_record now str allow c = record c {
  ip_cache = store str (record { allow = allow; created = now }) c.ip_cache;
}

-- A decision by the rules: it is logged and cached.
settle : ℕ → Bytes → Bool → Config → Config × Bool
unfolding log_and_notify cache_record
settle now str allowed c = (cache_record now str allowed (log_and_notify str allowed c), allowed)

decide : ℕ → Net → Ip → Config → Config × Bool
unfolding settle
decide now net i c =
    if match_any net c.deny i
    then settle now (net.to_string i) false c
    else if match_any net c.allow i
    then settle now (net.to_string i) true c
    else settle now (net.to_string i) c.default_allow c

from_cache : ℕ → Net → Ip → Option CheckCache → Config → Config × Bool
unfolding decide log_and_notify
from_cache now net i none c = decide now net i c
from_cache now net i (some r) c =
    if expired now r
    then decide now net i c
    else (log_and_notify (net.to_string i) r.allow c, r.allow)

-- `IPAllowed`; `none` is the nil address.
unfoldable pub ip_allowed : ℕ → Net → Option Ip → Config → Config × Bool
unfolding from_cache log_and_notify
ip_allowed now net none c = (c, false)
ip_allowed now net (some i) c =
    if net.is_loopback i
    then (c, true)
    else if c.allow_local && net.is_private i
    then (log_and_notify (net.to_string i) true c, true)
    else from_cache now net i (c.ip_cache (net.to_string i)) c
