-- ===== src/LoadBalancer/Pool.antt =====
-- internal/net/gphttp/loadbalancer/loadbalancer.go: `New`, `UpdateConfigIfNeeded`, `AddServer`,
-- `RemoveServer` and the cleanup of `Start`, over the pool of servers, which is a keyed pool of another
-- package: its operations are an argument.
pub mod Registered
use Prim.Native.String.{String}
use text.Mathlib.Text.{◌==◌ as str_eq}
use godoxy.Prelude.{
  ℕ, refl, ◌≡◌, ◌≢◌, ◌⊎◌, Bool, true, false, not, ◌&&◌, Option, none, some, List, [], ◌∷◌,
  if◌then◌else◌, In, ◌==◌, length,
}
use godoxy.Prelude.Int.{ℤ, pos, ◌+ℤ◌, ◌-ℤ◌}
use godoxy.Prelude.Bytes.{Bytes}
use godoxy.LoadBalancer.Defs.{
  Server, Mode, unset, round_robin, least_conn, ip_hash, validate_update,
}
use godoxy.LoadBalancer.LeastConn
use godoxy.LoadBalancer.IpHash
use godoxy.LoadBalancer.IpHash.{RealIp}
use godoxy.LoadBalancer.Rebalance.{Balance, Weights, rebalance}
use godoxy.LoadBalancer.Serve.{Impl, by_index, by_connections, by_address, add_to, update_impl}

-- The operations of a pool, where `iter` gives the order in which its servers are visited.
pub record PoolOps (P : Type 0) : Type 0 where
  pub get : Bytes → P → Option Server
  pub add : Server → P → P
  pub del : Server → P → P
  pub iter : P → List Server

-- What the pool promises: a server that is added or was there, and never one with the key of a server
-- that was deleted.
pub record PoolLaws (P : Type 0) (key : Server → Bytes) (ops : PoolOps P) : Type 0 where
  pub In-add : (s t : Server) (p : P) → In s (ops.iter (ops.add t p)) → (s ≡ t) ⊎ In s (ops.iter p)
  pub In-del :
      (s t : Server) (p : P) → In s (ops.iter (ops.del t p)) → In s (ops.iter p) × (key s ≢ key t)

-- The load balancer. The weights are read through its servers.
pub record LoadBalancer (P : Type 0) : Type 0 where
  pub impl : Impl
  pub pool : P
  pub balance : Balance
  pub finished : Bool

-- `impl.OnRemoveServer`; `none` is a panic.
unfoldable pub remove_from_impl : Server → Impl → Option Impl
remove_from_impl s (by_index i) = some (by_index i)
remove_from_impl s (by_connections l) = some (by_connections (LeastConn.on_remove_server s l))
remove_from_impl s (by_address m pool) = elim (IpHash.on_remove_server s pool) [
  | none ↦ none
  | some pool' ↦ some (by_address m pool')
]

-- `sumWeight += w` and `sumWeight -= w`.
abbrev pub raise : ℤ → Balance → Balance
raise w b = record { weights = b.weights; sum_weight = b.sum_weight +ℤ w }

abbrev pub lower : ℤ → Balance → Balance
lower w b = record { weights = b.weights; sum_weight = b.sum_weight -ℤ w }

module _ {P : Type 0} (ops : PoolOps P) (key : Server → Bytes) (scale : ℤ → ℤ → ℤ) where
  -- The server with the same key, if there is one, leaves first.
  replace_old : Option Server → LoadBalancer P → Option (LoadBalancer P)
  replace_old none lb = some lb
  replace_old (some old) lb = elim (remove_from_impl old lb.impl) [
    | none ↦ none
    | some impl ↦ some (record lb {
      impl = impl;
      pool = ops.del old lb.pool;
      balance = lower (lb.balance.weights old) lb.balance;
    })
  ]

  add_new : Server → LoadBalancer P → LoadBalancer P
  add_new srv lb =
      let pool = ops.add srv lb.pool in
      record lb {
        impl = add_to srv lb.impl;
        pool = pool;
        balance = rebalance scale (ops.iter pool) (raise (lb.balance.weights srv) lb.balance);
      }

  unfoldable pub add_server : Server → LoadBalancer P → Option (LoadBalancer P)
  unfolding replace_old add_new
  add_server srv lb = elim (replace_old (ops.get (key srv) lb.pool) lb) [
    | none ↦ none
    | some lb' ↦ some (add_new srv lb')
  ]

  is_empty : List Server → Bool
  is_empty [] = true
  is_empty (s ∷ srvs) = false

  remove_found : Server → LoadBalancer P → Option (LoadBalancer P)
  unfolding is_empty
  remove_found srv lb =
      let pool = ops.del srv lb.pool in
      elim (remove_from_impl srv lb.impl) [
        | none ↦ none
        | some impl ↦ some (record {
          impl = impl;
          pool = pool;
          balance = rebalance scale (ops.iter pool) (lower (lb.balance.weights srv) lb.balance);
          finished = if is_empty (ops.iter pool) then true else lb.finished;
        })
      ]

  -- A server whose key is not in the pool is not removed.
  unfoldable pub remove_server : Server → LoadBalancer P → Option (LoadBalancer P)
  unfolding remove_found
  remove_server srv lb = elim (ops.get (key srv) lb.pool) [
    | none ↦ some lb
    | some old ↦ remove_found srv lb
  ]

  -- The `OnCancel` callback of `Start`, for the servers of the pool.
  unfoldable pub cleanup : List Server → Impl → Option Impl
  cleanup [] impl = some impl
  cleanup (s ∷ srvs) impl = elim (remove_from_impl s impl) [
    | none ↦ none
    | some impl' ↦ cleanup srvs impl'
  ]

-- The switch of `updateImpl` on the text of a mode.
unfoldable pub mode_of : String → Mode
mode_of mode =
    if str_eq mode ""
    then unset
    else if str_eq mode "leastconn"
    then least_conn
    else if str_eq mode "iphash"
    then ip_hash
    else round_robin

abbrev mode_text : Mode → String
mode_text unset = ""
mode_text round_robin = "roundrobin"
mode_text least_conn = "leastconn"
mode_text ip_hash = "iphash"

-- `ValidateUpdate` on `lb.Mode`: a text that is normalised to the empty one is kept.
abbrev validated_text : String → String → String
validated_text mode normal = if str_eq normal "" then mode else mode_text (validate_update normal).0

abbrev impl_or : Impl → Option Impl → Impl
impl_or fresh none = fresh
impl_or fresh (some impl) = impl

-- `UpdateConfigIfNeeded`, for `strutils.ToLowerNoSnake`, the real-ip middleware of the options, the
-- servers of the pool, the mode of the load balancer and the mode of the configuration: the mode and
-- the implementation afterwards.
unfoldable pub update_config_if_needed :
    (String → String)
    → Option RealIp
    → List Server
    → String
    → Option String
    → Option Impl
    → String × Impl
unfolding mode_of
update_config_if_needed normal m iter mode none impl =
    (mode, impl_or (update_impl (mode_of mode) m iter) impl)
update_config_if_needed normal m iter mode (some cfg) impl =
    if str_eq mode "" && not (str_eq cfg "")
    then (let t = validated_text cfg (normal cfg) in (t, update_impl (mode_of t) m iter))
    else (mode, impl_or (update_impl (mode_of mode) m iter) impl)

-- `New`: the configuration of the load balancer is the very object that it is then updated with.
unfoldable pub new_load_balancer : (String → String) → Option RealIp → String → String × Impl
unfolding update_config_if_needed
new_load_balancer normal m cfg = update_config_if_needed normal m [] cfg (some cfg) none

-- A mode that is written in another way than `updateImpl` compares it, such as `ip_hash`, is round
-- robin for a new load balancer, while one without a mode that is updated with it gets the mode meant.
pub new_load_balancer-mode :
    (normal : String → String) (m : Option RealIp) (cfg : String) (iter : List Server)
    (impl : Option Impl)
    → str_eq cfg "" ≡ false
    → str_eq cfg "leastconn" ≡ false
    → str_eq cfg "iphash" ≡ false
    → normal cfg ≡ "iphash"
    → (new_load_balancer normal m cfg ≡ (cfg, by_index 0))
      × (update_config_if_needed normal m iter "" (some cfg) impl
          ≡ ("iphash", update_impl ip_hash m iter))
unfolding new_load_balancer update_config_if_needed mode_of update_impl validate_update
new_load_balancer-mode normal m cfg iter impl a b c e = (rw (a, b, c) refl, rw (a, e) refl)
