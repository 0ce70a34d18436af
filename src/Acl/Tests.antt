-- ===== src/Acl/Tests.antt =====
-- Witnesses for the theorems on the access lists.
use godoxy.Prelude.{ℕ, ◌+◌, ◌≡◌, refl, arith, true, false, Option, none, some, List, [], ◌∷◌, ◌==◌}
use godoxy.Prelude.Int.{pos}
use godoxy.Prelude.Bytes.{Bytes, codes, bytes_eq}
use godoxy.Acl.Notify.{Notifier, start_notifier, LogEvent, ip_log, tick, log_notify_loop, get_count}
use godoxy.Acl.Notify.Accounts.{reported_blocked, reported_allowed, log_notify_loop-reported}
use godoxy.Acl.Matcher.{Net, ip}
use godoxy.Acl.Config.{Config, Settings, valid, validate}
use godoxy.Acl.Config.Decision.{run, answers, TextDecides, CacheAgrees, run-answers}

-- Addresses written in unary; the loopback address is 0.
abbrev unary : ℕ → Bytes
unary n = n ∷ []

abbrev net : Net
net = record {
  parse_ip = λ b. none;
  parse_cidr = λ b. none;
  ip_equal = λ a b. a == b;
  contains = λ a b. true;
  lookup_city = λ a. none;
  to_string = unary;
  is_loopback = λ a. a == 0;
  is_private = λ a. false;
}

abbrev closed : Config
closed = record {
  default_allow = false;
  allow_local = true;
  allow = record { rule = ip 3; raw = codes "ip:3" } ∷ [];
  deny = record { rule = ip 4; raw = codes "ip:4" } ∷ [];
  notify_interval = pos 5;
  notify_allowed = true;
  ip_cache = λ k. none;
  logs = true;
  log = [];
}

closed_decides : TextDecides net closed
closed_decides i j e = cc

closed_agrees : CacheAgrees net closed
closed_agrees i r e = cc

abbrev calls : List (ℕ × Option ℕ)
calls = (1, some 3) ∷ (2, some 9) ∷ (3, some 3) ∷ (4, some 0) ∷ (5, none) ∷ []

run-answers_example : run net calls closed ≡ answers net closed calls
run-answers_example = run-answers net calls closed closed_decides closed_agrees

abbrev settings : Settings
settings = record {
  default = "deny";
  allow_local = none;
  allow = [];
  deny = [];
  notify_interval = pos 5;
  include_allowed = none;
}

abbrev validated : Config
validated = record {
  default_allow = false;
  allow_local = true;
  allow = [];
  deny = [];
  notify_interval = pos 5;
  notify_allowed = false;
  ip_cache = λ k. none;
  logs = false;
  log = [];
}

settings_valid : validate settings ≡ valid validated
unfolding validate
settings_valid = refl

-- Two denials and a permission of one address, with a summary in between.
abbrev decisions : List LogEvent
decisions =
    ip_log (codes "1.2.3.4") false
    ∷ tick
    ∷ ip_log (codes "1.2.3.4") true
    ∷ ip_log (codes "1.2.3.4") false
    ∷ ip_log (codes "5.6.7.8") false
    ∷ []

abbrev informed : Notifier
unfolding log_notify_loop start_notifier
informed = log_notify_loop decisions (start_notifier true true true true)

log_notify_loop-reported_example :
    (reported_blocked (codes "1.2.3.4") informed.sent
        + get_count (codes "1.2.3.4") informed.blocked_count
      ≡ 2)
    × (reported_allowed (codes "1.2.3.4") informed.sent
          + get_count (codes "1.2.3.4") informed.allowed_count
        ≡ 1)
unfolding informed bytes_eq
log_notify_loop-reported_example =
    log_notify_loop-reported true true (codes "1.2.3.4") decisions (omega arith)
