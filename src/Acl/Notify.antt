-- ===== src/Acl/Notify.antt =====
-- internal/acl/config.go: logNotifyLoop, which logs what IPAllowed decided and sends summaries. A map of
-- counters is an association list; `logged` and `sent` record the calls of LogACL and Notify, the
-- newest first. A summary keeps the numbers that its text is made of.
pub mod Accounts
use godoxy.Prelude.{
  ℕ, suc, ◌+◌, ◌%◌, ◌^◌, Bool, true, false, not, ◌&&◌, ◌||◌, Option, none, some, List, [], ◌∷◌,
  ◌==◌, if◌then◌else◌, length,
}
use godoxy.Prelude.Bytes.{Bytes, bytes_eq}

abbrev pub u32 : ℕ
u32 = 4294967296

abbrev pub u64 : ℕ
u64 = 18446744073709551616

abbrev pub Counts : Type 0
Counts = List (Bytes × ℕ)

-- The value of a key that is missing is 0.
unfoldable pub get_count : Bytes → Counts → ℕ
get_count ip [] = 0
get_count ip ((k, n) ∷ m) = let rest = get_count ip m in if bytes_eq k ip then n else rest

-- `m[ip]++` on a `uint32`.
unfoldable pub bump : Bytes → Counts → Counts
bump ip [] = (ip, 1) ∷ []
bump ip ((k, n) ∷ m) =
    let rest = bump ip m in if bytes_eq k ip then (k, (n + 1) % u32) ∷ m else (k, n) ∷ rest

pub record Summary : Type 0 where
  pub total_allowed : ℕ
  pub total_blocked : ℕ
  pub allowed : Counts
  pub blocked : Counts

-- What the loop reads and writes. `logged` has an address and whether it was blocked.
pub record Notifier : Type 0 where
  pub has_logger : Bool
  pub log_allowed : Bool
  pub need_notify : Bool
  pub notify_allowed : Bool
  pub allowed_count : Counts
  pub blocked_count : Counts
  pub total_allowed_count : ℕ
  pub total_blocked_count : ℕ
  pub logged : List (Bytes × Bool)
  pub sent : List Summary

-- `Start`, for a logger, the flags, and whether anyone is to be notified.
unfoldable pub start_notifier : Bool → Bool → Bool → Bool → Notifier
start_notifier logger log_allowed notify notify_allowed = record {
  has_logger = logger;
  log_allowed = log_allowed;
  need_notify = notify;
  notify_allowed = notify_allowed;
  allowed_count = [];
  blocked_count = [];
  total_allowed_count = 0;
  total_blocked_count = 0;
  logged = [];
  sent = [];
}

unfoldable pub log_acl : Bytes → Bool → Notifier → Notifier
log_acl ip allowed n =
    if n.has_logger && (not allowed || n.log_allowed)
    then record n { logged = (ip, not allowed) ∷ n.logged }
    else n

abbrev count_allowed : Bytes → Notifier → Notifier
unfolding bump
count_allowed ip n = record n {
  allowed_count = bump ip n.allowed_count;
  total_allowed_count = (n.total_allowed_count + 1) % u64;
}

abbrev count_blocked : Bytes → Notifier → Notifier
unfolding bump
count_blocked ip n = record n {
  blocked_count = bump ip n.blocked_count;
  total_blocked_count = (n.total_blocked_count + 1) % u64;
}

unfoldable pub count_log : Bytes → Bool → Notifier → Notifier
unfolding count_allowed count_blocked
count_log ip true n = if n.need_notify && n.notify_allowed then count_allowed ip n else n
count_log ip false n = if n.need_notify then count_blocked ip n else n

abbrev summary_of : Notifier → Summary
summary_of n = record {
  total_allowed = n.total_allowed_count;
  total_blocked = n.total_blocked_count;
  allowed = n.allowed_count;
  blocked = n.blocked_count;
}

-- A tick, which sends nothing when nothing was counted.
unfoldable pub notify_tick : Notifier → Notifier
notify_tick n =
    if length n.allowed_count + length n.blocked_count == 0
    then n
    else record n { allowed_count = []; blocked_count = []; sent = summary_of n ∷ n.sent }

-- What the loop receives. Without anyone to notify, no tick comes.
pub data LogEvent : Type 0 where
  ip_log : Bytes → Bool → LogEvent
  tick : LogEvent

unfoldable pub on_log : LogEvent → Notifier → Notifier
unfolding log_acl count_log notify_tick
on_log (ip_log ip allowed) n = count_log ip allowed (log_acl ip allowed n)
on_log tick n = notify_tick n

unfoldable pub log_notify_loop : List LogEvent → Notifier → Notifier
unfolding on_log
log_notify_loop [] n = n
log_notify_loop (e ∷ es) n = log_notify_loop es (on_log e n)
