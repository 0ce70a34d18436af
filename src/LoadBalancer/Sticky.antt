-- ===== src/LoadBalancer/Sticky.antt =====
-- internal/net/gphttp/loadbalancer/sticky.go: the cookie that binds a client to a server. The 64-bit
-- hash of a key (xxhash3) is an argument.
use native.Mathlib.Nat.{pow-suc}
use godoxy.Prelude.{
  ℕ, zero, suc, ◌+◌, ◌-◌, ◌%◌, ◌/◌, ◌^◌, ◌<◌, ◌≡◌, ◌⊎◌, inl, inr, ap, false, Option, none, some,
  List, [], ◌∷◌, arith, ltb, if◌then◌else◌, In, All, Bool-cases,
}
use godoxy.Prelude.Bytes.{Bytes, bytes_eq, bytes_eq_iff, bytes_eq_refl}
use godoxy.LoadBalancer.Defs.{Server}

-- `hex.EncodeToString`.
hex_digit : ℕ → ℕ
hex_digit d = if ltb d 10 then b'0' + d else b'a' + (d - 10)

-- The hex digits of the `n` bytes of a number, the lowest byte first, as the cast to `[8]byte` on a
-- little-endian machine gives them.
encode_bytes : ℕ → ℕ → Bytes
unfolding hex_digit
encode_bytes zero h = []
encode_bytes (suc n) h = hex_digit (h % 256 / 16) ∷ hex_digit (h % 16) ∷ encode_bytes n (h / 256)

unfoldable pub hash_server_key : (Bytes → ℕ) → Bytes → Bytes
unfolding encode_bytes
hash_server_key hash key = encode_bytes 8 (hash key)

-- The loop of `getStickyServer`.
find_server : (Bytes → ℕ) → (Server → Bytes) → Bytes → List Server → Option Server
unfolding hash_server_key
find_server hash key cookie [] = none
find_server hash key cookie (s ∷ srvs) =
    if bytes_eq (hash_server_key hash (key s)) cookie
    then some s
    else find_server hash key cookie srvs

unfoldable pub get_sticky_server :
    (Bytes → ℕ) → (Server → Bytes) → Option Bytes → List Server → Option Server
unfolding find_server
get_sticky_server hash key none srvs = none
get_sticky_server hash key (some cookie) srvs = find_server hash key cookie srvs

-- The value of the cookie that `setStickyCookie` sets.
unfoldable pub sticky_cookie_value : (Bytes → ℕ) → (Server → Bytes) → Server → Bytes
sticky_cookie_value hash key srv = hash_server_key hash (key srv)

hex_digit-injective : (a b : ℕ) → a < 16 → b < 16 → hex_digit a ≡ hex_digit b → a ≡ b
unfolding hex_digit
hex_digit-injective a b h k e = ground arith

encode_bytes-injective :
    (n a b : ℕ) → a < 256 ^ n → b < 256 ^ n → encode_bytes n a ≡ encode_bytes n b → a ≡ b
unfolding encode_bytes
encode_bytes-injective zero a b h k e = omega arith
encode_bytes-injective (suc n) a b h k e = ground (
  arith,
  hex_digit-injective (a % 256 / 16) (b % 256 / 16),
  hex_digit-injective (a % 16) (b % 16),
  pow-suc 256 n,
  encode_bytes-injective n (a / 256) (b / 256),
)

hash_server_key-injective :
    (hash : Bytes → ℕ) (j k : Bytes)
    → hash j < 256 ^ 8
    → hash k < 256 ^ 8
    → hash_server_key hash j ≡ hash_server_key hash k
    → hash j ≡ hash k
unfolding hash_server_key
hash_server_key-injective hash j k a b e = encode_bytes-injective 8 (hash j) (hash k) a b e

-- No other server of the list has a key with the hash of this one's.
abbrev pub NoCollision : (Bytes → ℕ) → (Server → Bytes) → Server → List Server → Type 0
NoCollision hash key s srvs =
    All (λ t. (hash (key t) < 256 ^ 8) × (hash (key t) ≡ hash (key s) → t ≡ s)) srvs

find_server-found :
    (hash : Bytes → ℕ) (key : Server → Bytes) (s : Server) (srvs : List Server)
    → hash (key s) < 256 ^ 8
    → NoCollision hash key s srvs
    → In s srvs
    → find_server hash key (hash_server_key hash (key s)) srvs ≡ some s
unfolding find_server
find_server-found hash key s [] b n i = absurd i
find_server-found hash key s (t ∷ srvs) b (n, ns) i =
    elim (Bool-cases (bytes_eq (hash_server_key hash (key t)) (hash_server_key hash (key s)))) [
      | inl e ↦ rw e (
          ap some
            (n.1 (hash_server_key-injective hash (key t) (key s) n.0 b ((bytes_eq_iff _ _).0 e))))
      | inr e ↦ rw e (find_server-found hash key s srvs b ns (later t i e))
    ]
  where
    later :
        (t : Server)
        → (s ≡ t) ⊎ In s srvs
        → bytes_eq (hash_server_key hash (key t)) (hash_server_key hash (key s)) ≡ false
        → In s srvs
    later t (inr i) e = i
    later t (inl p) e = cc (
      ap (λ x. bytes_eq (hash_server_key hash (key x)) (hash_server_key hash (key s))) p,
      bytes_eq_refl (hash_server_key hash (key s)),
    )

-- A 64-bit hash that tells the keys of the list from this server's: the cookie set for a server of
-- the list leads back to that server.
pub get-set_sticky :
    (hash : Bytes → ℕ) (key : Server → Bytes) (s : Server) (srvs : List Server)
    → hash (key s) < 256 ^ 8
    → NoCollision hash key s srvs
    → In s srvs
    → get_sticky_server hash key (some (sticky_cookie_value hash key s)) srvs ≡ some s
unfolding get_sticky_server sticky_cookie_value
get-set_sticky hash key s srvs b n i = find_server-found hash key s srvs b n i

find_server-In :
    (hash : Bytes → ℕ) (key : Server → Bytes) (cookie : Bytes) (srvs : List Server) (s : Server)
    → find_server hash key cookie srvs ≡ some s
    → In s srvs
unfolding find_server
find_server-In hash key cookie [] s e = cc
find_server-In hash key cookie (t ∷ srvs) s e =
    ground (arith, find_server-In hash key cookie srvs s)

-- A server found by the cookie is one of the list.
pub get_sticky_server-In :
    (hash : Bytes → ℕ) (key : Server → Bytes) (cookie : Option Bytes) (srvs : List Server)
    (s : Server)
    → get_sticky_server hash key cookie srvs ≡ some s
    → In s srvs
unfolding get_sticky_server
get_sticky_server-In hash key none srvs s e = cc
get_sticky_server-In hash key (some c) srvs s e = find_server-In hash key c srvs s e
