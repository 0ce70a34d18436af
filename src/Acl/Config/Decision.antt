-- ===== src/Acl/Config/Decision.antt =====
-- internal/acl/config.go: the answers of any run of `IPAllowed` against the rules, with the cache in
-- between.
use mathlib.Core.Path.{subst, ap₂}
use godoxy.Prelude.{
  some-injective, ℕ, ◌≡◌, refl, sym, ap, ◌∙◌, Bool, true, false, ◌&&◌, Option, none, some, List, [],
  ◌∷◌, if◌then◌else◌, Bool-cases, inl, inr,
}
use godoxy.Prelude.Bytes.{Bytes, bytes_eq, bytes_eq_iff}
use godoxy.Acl.Matcher.{Net, match_any}
use godoxy.Acl.Config.{
  Ip, CheckCache, Config, expired, log_and_notify, store, settle, decide, from_cache, ip_allowed,
}

-- The answer with no cache: loopback, then private addresses, then the deny list, then the allow
-- list, then the default.
abbrev pub rules : Net → Config → Ip → Bool
rules net c i =
    if match_any net c.deny i
    then false
    else if match_any net c.allow i
    then true
    else c.default_allow

abbrev pub answer : Net → Config → Option Ip → Bool
answer net c none = false
answer net c (some i) =
    if net.is_loopback i
    then true
    else if c.allow_local && net.is_private i
    then true
    else rules net c i

-- The text of an address settles what the rules say of it.
abbrev pub TextDecides : Net → Config → Type 0
TextDecides net c = (i j : Ip) → net.to_string i ≡ net.to_string j → rules net c i ≡ rules net c j

-- What is cached under the text of an address is what the rules say of it.
abbrev pub CacheAgrees : Net → Config → Type 0
CacheAgrees net c =
    (i : Ip) (r : CheckCache) → c.ip_cache (net.to_string i) ≡ some r → r.allow ≡ rules net c i

-- The lists and the flags.
abbrev pub SameRules : Config → Config → Type 0
SameRules c d =
    (d.default_allow ≡ c.default_allow)
    × (d.allow_local ≡ c.allow_local)
    × (d.allow ≡ c.allow)
    × (d.deny ≡ c.deny)

abbrev Right : Net → Config → Bool → Config × Bool → Type 0
Right net c b r = (r.1 ≡ b) × CacheAgrees net r.0 × SameRules c r.0

log_and_notify-Right :
    (net : Net) (c : Config) (str : Bytes) (b : Bool)
    → CacheAgrees net c
    → Right net c b (log_and_notify str b c, b)
unfolding log_and_notify
log_and_notify-Right net c str b h = (refl, h, (refl, refl, refl, refl))

settle-Right :
    (net : Net) (c : Config) (i : Ip) (now : ℕ) (b : Bool)
    → TextDecides net c
    → CacheAgrees net c
    → b ≡ rules net c i
    → Right net c b (settle now (net.to_string i) b c)
unfolding settle
settle-Right net c i now b t h e = (refl, agrees, (refl, refl, refl, refl))
  where
    agrees :
        (j : Ip) (r : CheckCache)
        → store (net.to_string i) (record { allow = b; created = now }) c.ip_cache (net.to_string j)
          ≡ some r
        → r.allow ≡ rules net c j
    agrees j r q = elim (Bool-cases (bytes_eq (net.to_string j) (net.to_string i))) [
      | inl s ↦
          ap (λ k. k.allow) (some-injective (sym (rw s at q)))
          ∙ e
          ∙ t i j (sym ((bytes_eq_iff (net.to_string j) (net.to_string i)).0 s))
      | inr s ↦ h j r (rw s at q)
    ]

decide-settle :
    (net : Net) (c : Config) (i : Ip) (now : ℕ)
    → decide now net i c ≡ settle now (net.to_string i) (rules net c i) c
unfolding decide
decide-settle net c i now = elim (Bool-cases (match_any net c.deny i)) [
  | inl e ↦ rw e refl
  | inr e ↦
      rw e (elim (Bool-cases (match_any net c.allow i)) [ inl k ↦ rw k refl | inr k ↦ rw k refl ])
]

decide-Right :
    (net : Net) (c : Config) (i : Ip) (now : ℕ)
    → TextDecides net c
    → CacheAgrees net c
    → Right net c (rules net c i) (decide now net i c)
decide-Right net c i now t h =
    subst (Right net c (rules net c i)) (sym (decide-settle net c i now))
      (settle-Right net c i now (rules net c i) t h refl)

from_cache-Right :
    (net : Net) (c : Config) (i : Ip) (now : ℕ) (o : Option CheckCache)
    → TextDecides net c
    → CacheAgrees net c
    → c.ip_cache (net.to_string i) ≡ o
    → Right net c (rules net c i) (from_cache now net i o c)
unfolding from_cache
from_cache-Right net c i now none t h e = decide-Right net c i now t h
from_cache-Right net c i now (some r) t h e = elim (Bool-cases (expired now r)) [
  | inl k ↦ rw k (decide-Right net c i now t h)
  | inr k ↦ rw k (
      subst (λ b. Right net c b (log_and_notify (net.to_string i) r.allow c, r.allow)) (h i r e)
        (log_and_notify-Right net c (net.to_string i) r.allow h))
]

ip_allowed-Right :
    (net : Net) (c : Config) (o : Option Ip) (now : ℕ)
    → TextDecides net c
    → CacheAgrees net c
    → Right net c (answer net c o) (ip_allowed now net o c)
unfolding ip_allowed
ip_allowed-Right net c none now t h = (refl, h, (refl, refl, refl, refl))
ip_allowed-Right net c (some i) now t h = elim (Bool-cases (net.is_loopback i)) [
  | inl e ↦ rw e (refl, h, (refl, refl, refl, refl))
  | inr e ↦ rw e (elim (Bool-cases (c.allow_local && net.is_private i)) [
    | inl k ↦ rw k (log_and_notify-Right net c (net.to_string i) true h)
    | inr k ↦ rw k (from_cache-Right net c i now (c.ip_cache (net.to_string i)) t h refl)
  ])
]

-- The answers of a run of calls, each with its time.
unfoldable pub run : Net → List (ℕ × Option Ip) → Config → List Bool
run net [] c = []
run net ((now, o) ∷ calls) c = (ip_allowed now net o c).1 ∷ run net calls (ip_allowed now net o c).0

abbrev pub answers : Net → Config → List (ℕ × Option Ip) → List Bool
answers net c [] = []
answers net c ((now, o) ∷ calls) = answer net c o ∷ answers net c calls

rules-same : (net : Net) (c d : Config) (i : Ip) → SameRules c d → rules net d i ≡ rules net c i
rules-same net c d i (a, b, p, q) = rw (a, p, q) refl

answer-same :
    (net : Net) (c d : Config) (o : Option Ip) → SameRules c d → answer net d o ≡ answer net c o
answer-same net c d none h = refl
answer-same net c d (some i) (a, b, p, q) = rw (a, b, p, q) refl

answers-same :
    (net : Net) (c d : Config) (calls : List (ℕ × Option Ip))
    → SameRules c d
    → answers net d calls ≡ answers net c calls
answers-same net c d [] h = refl
answers-same net c d ((now, o) ∷ calls) h =
    ap₂ (λ x xs. x ∷ xs) (answer-same net c d o h) (answers-same net c d calls h)

-- From a configuration whose cache agrees with its rules, in particular from one with an empty cache,
-- every call of any run answers what the rules say without a cache, whatever the times are, provided
-- that addresses with one text are treated alike by the rules.
pub run-answers :
    (net : Net) (calls : List (ℕ × Option Ip)) (c : Config)
    → TextDecides net c
    → CacheAgrees net c
    → run net calls c ≡ answers net c calls
unfolding run
run-answers net [] c t h = refl
run-answers net ((now, o) ∷ calls) c t h =
    let (b, h', same) = ip_allowed-Right net c o now t h in
    let d : Config = (ip_allowed now net o c).0 in
    ap₂ (λ x xs. x ∷ xs) b
      (run-answers net calls d
          (λ i j e. rules-same net c d i same ∙ t i j e ∙ sym (rules-same net c d j same)) h'
        ∙ answers-same net c d calls same)
