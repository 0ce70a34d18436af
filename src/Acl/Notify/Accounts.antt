-- ===== src/Acl/Notify/Accounts.antt =====
-- internal/acl/config.go: what the summaries say of the decisions.
use godoxy.Prelude.{
  ℕ, ◌+◌, ◌≤◌, ◌<◌, ◌%◌, ◌≡◌, inl, inr, refl, sym, ◌∙◌, arith, Bool, true, false, not, ◌&&◌, ◌||◌,
  List, [], ◌∷◌, ◌==◌, if◌then◌else◌, length, Bool-cases,
}
use godoxy.Prelude.Bytes.{Bytes, bytes_eq, bytes_eq→eq, bytes_eq_refl}
use godoxy.Acl.Notify.{
  u32, Counts, get_count, bump, Summary, Notifier, start_notifier, log_acl, count_allowed,
  count_blocked, count_log, summary_of, notify_tick, LogEvent, ip_log, tick, on_log,
  log_notify_loop,
}

-- How often the summaries say that the address was blocked, and allowed.
abbrev pub reported_blocked : Bytes → List Summary → ℕ
reported_blocked ip [] = 0
reported_blocked ip (s ∷ ss) = get_count ip s.blocked + reported_blocked ip ss

abbrev pub reported_allowed : Bytes → List Summary → ℕ
reported_allowed ip [] = 0
reported_allowed ip (s ∷ ss) = get_count ip s.allowed + reported_allowed ip ss

-- How often the decision on the address was this one.
abbrev pub decided : Bytes → Bool → List LogEvent → ℕ
decided ip allowed [] = 0
decided ip allowed (tick ∷ es) = decided ip allowed es
decided ip true (ip_log k true ∷ es) = (if bytes_eq k ip then 1 else 0) + decided ip true es
decided ip true (ip_log k false ∷ es) = decided ip true es
decided ip false (ip_log k false ∷ es) = (if bytes_eq k ip then 1 else 0) + decided ip false es
decided ip false (ip_log k true ∷ es) = decided ip false es

get_count-bump :
    (k ip : Bytes) (m : Counts)
    → get_count ip m + 1 < u32
    → get_count ip (bump k m) ≡ get_count ip m + (if bytes_eq k ip then 1 else 0)
unfolding get_count bump
get_count-bump k ip [] h = omega arith
get_count-bump k ip ((j, n) ∷ m) h = elim (Bool-cases (bytes_eq j k)) [
  | inl e ↦ rw (e, sym (bytes_eq→eq j k e)) (found (bytes_eq j ip) n (get_count ip m) h)
  | inr e ↦
      rw e (kept (bytes_eq j ip) refl (λ f. other f e) (λ f. get_count-bump k ip m (ground arith)))
]
  where
    found :
        (b : Bool) (n r : ℕ)
        → (if b then n else r) + 1 < u32
        → (if b then (n + 1) % u32 else r) ≡ (if b then n else r) + (if b then 1 else 0)
    found true n r h = omega (arith, h)
    found false n r h = omega arith

    kept :
        (b : Bool)
        → bytes_eq j ip ≡ b
        → (b ≡ true → bytes_eq k ip ≡ false)
        → (b ≡ false → get_count ip (bump k m) ≡ get_count ip m + (if bytes_eq k ip then 1 else 0))
        → (if b then n else get_count ip (bump k m))
          ≡ (if b then n else get_count ip m) + (if bytes_eq k ip then 1 else 0)
    kept true f g h = rw (g refl) (omega arith)
    kept false f g h = h refl

    same_key : bytes_eq j ip ≡ true → bytes_eq k ip ≡ true → bytes_eq j k ≡ true
    same_key f g = rw (bytes_eq→eq j ip f, bytes_eq→eq k ip g) (bytes_eq_refl ip)

    other : bytes_eq j ip ≡ true → bytes_eq j k ≡ false → bytes_eq k ip ≡ false
    other f e = elim (Bool-cases (bytes_eq k ip)) [
      | inl g ↦ ground (arith, same_key f g)
      | inr g ↦ g
    ]

-- So far the summaries and the counters account for this many decisions on the address.
record Accounts (ip : Bytes) (allowed blocked : ℕ) (n : Notifier) : Type 0 where
  allowed_is : reported_allowed ip n.sent + get_count ip n.allowed_count ≡ allowed
  blocked_is : reported_blocked ip n.sent + get_count ip n.blocked_count ≡ blocked
  notifies : n.need_notify ≡ true
  includes : n.notify_allowed ≡ true

log_acl-Accounts :
    (k ip : Bytes) (b : Bool) (x y : ℕ) (n : Notifier)
    → Accounts ip x y n
    → Accounts ip x y (log_acl k b n)
unfolding log_acl
log_acl-Accounts k ip b x y n a = logged (n.has_logger && (not b || n.log_allowed))
  where
    logged :
        (c : Bool) → Accounts ip x y (if c then record n { logged = (k, not b) ∷ n.logged } else n)
    logged true = record {
      allowed_is = a.allowed_is;
      blocked_is = a.blocked_is;
      notifies = a.notifies;
      includes = a.includes;
    }
    logged false = a

abbrev one_if : Bool → ℕ
one_if b = if b then 1 else 0

count_log-Accounts :
    (k ip : Bytes) (b : Bool) (x y : ℕ) (n : Notifier)
    → Accounts ip x y n
    → x + 1 < u32
    → y + 1 < u32
    → Accounts ip
        (if b then one_if (bytes_eq k ip) + x else x)
        (if b then y else one_if (bytes_eq k ip) + y)
        (count_log k b n)
unfolding count_log
count_log-Accounts k ip true x y n a p q =
    counted (n.need_notify && n.notify_allowed) (rw (a.notifies, a.includes) refl)
  where
    counted :
        (c : Bool)
        → c ≡ true
        → Accounts ip (one_if (bytes_eq k ip) + x) y (if c then count_allowed k n else n)
    counted true e = record {
      allowed_is = omega (
        arith,
        a.allowed_is,
        get_count-bump k ip n.allowed_count (omega (arith, p, a.allowed_is)),
      );
      blocked_is = a.blocked_is;
      notifies = a.notifies;
      includes = a.includes;
    }
    counted false e = ground arith
count_log-Accounts k ip false x y n a p q = counted n.need_notify a.notifies
  where
    counted :
        (c : Bool)
        → c ≡ true
        → Accounts ip x (one_if (bytes_eq k ip) + y) (if c then count_blocked k n else n)
    counted true e = record {
      allowed_is = a.allowed_is;
      blocked_is = omega (
        arith,
        a.blocked_is,
        get_count-bump k ip n.blocked_count (omega (arith, q, a.blocked_is)),
      );
      notifies = a.notifies;
      includes = a.includes;
    }
    counted false e = ground arith

notify_tick-Accounts :
    (ip : Bytes) (x y : ℕ) (n : Notifier) → Accounts ip x y n → Accounts ip x y (notify_tick n)
unfolding notify_tick get_count
notify_tick-Accounts ip x y n a = told (length n.allowed_count + length n.blocked_count == 0)
  where
    told :
        (c : Bool)
        → Accounts ip x y (
            if c
            then n
            else record n { allowed_count = []; blocked_count = []; sent = summary_of n ∷ n.sent })
    told true = a
    told false = record {
      allowed_is = omega (arith, a.allowed_is);
      blocked_is = omega (arith, a.blocked_is);
      notifies = a.notifies;
      includes = a.includes;
    }

regrouped :
    (ip : Bytes) (x y x' y' : ℕ) (n : Notifier)
    → Accounts ip x y n
    → x ≡ x'
    → y ≡ y'
    → Accounts ip x' y' n
regrouped ip x y x' y' n a e f = record {
  allowed_is = a.allowed_is ∙ e;
  blocked_is = a.blocked_is ∙ f;
  notifies = a.notifies;
  includes = a.includes;
}

one_if-le : (b : Bool) → one_if b ≤ 1
one_if-le true = omega arith
one_if-le false = omega arith

loop-Accounts :
    (ip : Bytes) (es : List LogEvent) (x y : ℕ) (n : Notifier)
    → Accounts ip x y n
    → x + y + length es < u32
    → Accounts ip (x + decided ip true es) (y + decided ip false es) (log_notify_loop es n)
unfolding log_notify_loop on_log
loop-Accounts ip [] x y n a h = regrouped ip x y (x + 0) (y + 0) n a (omega arith) (omega arith)
loop-Accounts ip (tick ∷ es) x y n a h =
    loop-Accounts ip es x y (notify_tick n) (notify_tick-Accounts ip x y n a) (omega (arith, h))
loop-Accounts ip (ip_log k true ∷ es) x y n a h =
    regrouped ip _ _ (x + decided ip true (ip_log k true ∷ es))
      (y + decided ip false (ip_log k true ∷ es)) _
      (loop-Accounts ip es (one_if (bytes_eq k ip) + x) (y) (count_log k true (log_acl k true n))
        (count_log-Accounts k ip true x y (log_acl k true n) (log_acl-Accounts k ip true x y n a)
          (omega (arith, h)) (omega (arith, h)))
        (omega (arith, h, one_if-le (bytes_eq k ip))))
      (omega arith) (omega arith)
loop-Accounts ip (ip_log k false ∷ es) x y n a h =
    regrouped ip _ _ (x + decided ip true (ip_log k false ∷ es))
      (y + decided ip false (ip_log k false ∷ es)) _
      (loop-Accounts ip es (x) (one_if (bytes_eq k ip) + y) (count_log k false (log_acl k false n))
        (count_log-Accounts k ip false x y (log_acl k false n) (log_acl-Accounts k ip false x y n a)
          (omega (arith, h)) (omega (arith, h)))
        (omega (arith, h, one_if-le (bytes_eq k ip))))
      (omega arith) (omega arith)

-- Where allowed addresses are included, the summaries that were sent and the counters that wait for the
-- next one account together for every decision: an address was blocked, and was allowed, as often as
-- they say, whenever the ticks came, for fewer than 2 ^ 32 events.
pub log_notify_loop-reported :
    (logger log_allowed : Bool) (ip : Bytes) (es : List LogEvent)
    → length es < u32
    → let n = log_notify_loop es (start_notifier logger log_allowed true true) in
      (reported_blocked ip n.sent + get_count ip n.blocked_count ≡ decided ip false es)
      × (reported_allowed ip n.sent + get_count ip n.allowed_count ≡ decided ip true es)
unfolding start_notifier get_count
log_notify_loop-reported logger log_allowed ip es h =
    let a =
      loop-Accounts ip es 0 0 (start_notifier logger log_allowed true true)
        (record { allowed_is = refl; blocked_is = refl; notifies = refl; includes = refl })
        (omega (arith, h)) in
    (omega (arith, a.blocked_is), omega (arith, a.allowed_is))
