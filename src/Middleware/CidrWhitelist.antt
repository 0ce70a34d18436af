-- ===== src/Middleware/CidrWhitelist.antt =====
-- internal/net/gphttp/middleware/cidr_whitelist.go: the addresses that may pass, with the cache of
-- their answers. The functions of Go's net package are arguments; an address that does not parse is
-- the nil IP, which `parse_ip` gives.
use godoxy.Prelude.{
  ◌≡◌, refl, ap, ◌∙◌, inl, inr, Bool, true, false, Option, none, some, List, [], ◌∷◌, map,
  if◌then◌else◌, Bool-cases, some-injective, sym,
}
use godoxy.Prelude.Bytes.{Bytes, bytes_eq, bytes_eq→eq}

abbrev Cache : Type 0
Cache = Bytes → Option Bool

store : Bytes → Bool → Cache → Cache
store addr allow cache a = if bytes_eq a addr then some allow else cache a

store-same :
    (addr : Bytes) (x : Bool) (cache : Cache) (a : Bytes)
    → bytes_eq a addr ≡ true
    → store addr x cache a ≡ some x
unfolding store
store-same addr x cache a q = rw q refl

store-other :
    (addr : Bytes) (x : Bool) (cache : Cache) (a : Bytes)
    → bytes_eq a addr ≡ false
    → store addr x cache a ≡ cache a
unfolding store
store-other addr x cache a q = rw q refl

module _ {Ip Net : Type 0} (split_host_port : Bytes → Option Bytes) (parse_ip : Bytes → Ip)
    (contains : Net → Ip → Bool) (allow : List Net) where
  unfoldable pub ip_str : Bytes → Bytes
  ip_str addr = elim (split_host_port addr) [ some host ↦ host | none ↦ addr ]

  unfoldable pub any_contains : List Net → Ip → Bool
  any_contains [] ip = false
  any_contains (cidr ∷ cidrs) ip =
      let rest = any_contains cidrs ip in if contains cidr ip then true else rest

  answer : Bytes → Cache → Option Bool → Cache × Bool
  unfolding store any_contains ip_str
  answer addr cache (some allowed) = (cache, allowed)
  answer addr cache none =
      let allowed = any_contains allow (parse_ip (ip_str addr)) in
      (store addr allowed cache, allowed)

  -- `checkIP`: the cache, and whether the request may pass.
  check_ip : Bytes → Cache → Cache × Bool
  unfolding answer
  check_ip addr cache = answer addr cache (cache addr)

  pub check_ips : List Bytes → Cache → List Bool
  unfolding check_ip
  check_ips [] cache = []
  check_ips (a ∷ addrs) cache =
      let (cache', allowed) = check_ip a cache in allowed ∷ check_ips addrs cache'

  -- Some allowed network has the address.
  abbrev allowed_by : Bytes → Bool
  allowed_by addr = any_contains allow (parse_ip (ip_str addr))

  -- Every answer in the cache is right.
  abbrev Agrees : Cache → Type 0
  Agrees cache = (a : Bytes) (b : Bool) → cache a ≡ some b → b ≡ allowed_by a

  store-Agrees :
      (addr : Bytes) (cache : Cache) → Agrees cache → Agrees (store addr (allowed_by addr) cache)
  store-Agrees addr cache h a b e = elim (Bool-cases (bytes_eq a addr)) [
    | inl q ↦
        some-injective (sym e ∙ store-same addr (allowed_by addr) cache a q)
        ∙ ap allowed_by (sym (bytes_eq→eq a addr q))
    | inr q ↦ h a b (sym (store-other addr (allowed_by addr) cache a q) ∙ e)
  ]

  answer-Agrees :
      (addr : Bytes) (cache : Cache) (o : Option Bool)
      → cache addr ≡ o
      → Agrees cache
      → Agrees (answer addr cache o).0 × ((answer addr cache o).1 ≡ allowed_by addr)
  unfolding answer
  answer-Agrees addr cache (some b) e h = (h, h addr b e)
  answer-Agrees addr cache none e h = (store-Agrees addr cache h, refl)

  -- Whatever addresses ask, in whatever order and however often, each is answered by whether some
  -- allowed network has it, when the answers that are cached at the beginning are right.
  pub check_ips_lem :
      (addrs : List Bytes) (cache : Cache)
      → Agrees cache
      → check_ips addrs cache ≡ map allowed_by addrs
  unfolding check_ips check_ip
  check_ips_lem [] cache h = refl
  check_ips_lem (a ∷ addrs) cache h =
      let (h', e) = answer-Agrees a cache (cache a) refl h in rw (e, check_ips_lem addrs _ h') refl
