-- ===== src/LoadBalancer/Serve.antt =====
-- internal/net/gphttp/loadbalancer/loadbalancer.go: `ServeHTTP` and the health of the pool. The pool
-- is given by the order in which its servers are visited; the status and the key of a server are
-- functions, and so are the hashes.
pub mod Safety
pub mod Counted
use Prim.Native.String.{String}
use text.Mathlib.Text.{◌==◌ as str_eq}
use godoxy.Prelude.{
  ℕ, zero, suc, ◌+◌, ◌≤◌, ◌<◌, ◌≡◌, ◌⊎◌, inl, inr, refl, sym, ap, ◌∙◌, Bool, true, false, not, ◌||◌,
  Option, none, some, List, [], ◌∷◌, arith, ltb, ◌==◌, if◌then◌else◌, length, In, All, Bool-cases,
}
use godoxy.Prelude.Bytes.{Bytes}
use godoxy.Health.Status.{HealthStatus, good, status_unknown, status_healthy, status_unhealthy}
use godoxy.LoadBalancer.Defs.{
  Server, Request, Mode, unset, round_robin, least_conn, ip_hash, Reply, http_error, served,
  wake_events_path, is_idlewatcher_request, status_service_unavailable,
  status_internal_server_error,
}
use godoxy.LoadBalancer.RoundRobin
use godoxy.LoadBalancer.LeastConn
use godoxy.LoadBalancer.LeastConn.{LeastConn}
use godoxy.LoadBalancer.IpHash
use godoxy.LoadBalancer.IpHash.{RealIp}
use godoxy.LoadBalancer.Sticky.{get_sticky_server}

-- The field `impl`, with the state of each implementation.
pub data Impl : Type 0 where
  by_index : ℕ → Impl
  by_connections : LeastConn → Impl
  by_address : Option RealIp → List Server → Impl

-- `updateImpl`: the servers of the pool are added to a fresh implementation.
unfoldable pub add_to : Server → Impl → Impl
add_to s (by_index i) = by_index i
add_to s (by_connections l) = by_connections (LeastConn.on_add_server s l)
add_to s (by_address m pool) = by_address m (IpHash.on_add_server s pool)

new_impl : Mode → Option RealIp → Impl
new_impl unset m = by_index 0
new_impl round_robin m = by_index 0
new_impl least_conn m = by_connections LeastConn.new
new_impl ip_hash m = by_address m []

add_all : List Server → Impl → Impl
unfolding add_to
add_all [] impl = impl
add_all (s ∷ srvs) impl = add_all srvs (add_to s impl)

unfoldable pub update_impl : Mode → Option RealIp → List Server → Impl
unfolding new_impl add_all
update_impl mode m iter = add_all iter (new_impl mode m)

-- What a load balancer is given from outside.
pub record Env : Type 0 where
  pub status : Server → HealthStatus
  pub key : Server → Bytes
  pub key_hash : Bytes → ℕ
  pub address_hash : String → ℕ

-- What a request leads to: the answer (`none` if the real-ip middleware has answered), the server
-- that the sticky cookie is set for, the servers that were woken, and the implementation with the
-- request under way.
pub record Response : Type 0 where
  pub reply : Option Reply
  pub cookie : Option Server
  pub woken : List Server
  pub impl : Impl

-- The loops of `availServers` and `status`.
unfoldable pub avail_servers : (Server → HealthStatus) → List Server → List Server
avail_servers status [] = []
avail_servers status (s ∷ iter) =
    let rest = avail_servers status iter in if good (status s) then s ∷ rest else rest

count_healthy : (Server → HealthStatus) → List Server → ℕ
count_healthy status [] = 0
count_healthy status (s ∷ iter) =
    let rest = count_healthy status iter in if good (status s) then suc rest else rest

pool_status : (Server → HealthStatus) → List Server → HealthStatus × ℕ
unfolding count_healthy
pool_status status [] = (status_unknown, 0)
pool_status status (s ∷ iter) =
    let n = count_healthy status (s ∷ iter) in
    if n == 0 then (status_unhealthy, n) else (status_healthy, n)

-- `impl.ChooseServer`.
pub choose : Env → Impl → List Server → Request → Option Server
choose env (by_index i) srvs r = (RoundRobin.choose_server i srvs).1
choose env (by_connections l) srvs r = LeastConn.choose_server l srvs
choose env (by_address m pool) srvs r = IpHash.choose_server env.address_hash pool r

after_choose : Impl → List Server → Impl
after_choose (by_index i) srvs = by_index (RoundRobin.choose_server i srvs).0
after_choose (by_connections l) srvs = by_connections l
after_choose (by_address m pool) srvs = by_address m pool

reply_of : Option Server → Reply
reply_of none = http_error status_service_unavailable
reply_of (some s) = served s

-- The answer and the implementation that `leastConn.ServeHTTP` leaves while the server is serving.
least_conn_reply : LeastConn → LeastConn.Begin → Reply × Impl
least_conn_reply l LeastConn.unavailable = (http_error status_service_unavailable, by_connections l)
least_conn_reply l LeastConn.internal_error =
    (http_error status_internal_server_error, by_connections l)
least_conn_reply l (LeastConn.serving s c l') = (served s, by_connections l')

-- The end of `ServeHTTP`: the implementation's own handler, if it has one, or its choice.
dispatch : Env → List Server → Impl → List Server → Request → Response
unfolding reply_of least_conn_reply
dispatch env woken (by_index i) srvs r =
    let (i', s) = RoundRobin.choose_server i srvs in
    record { reply = some (reply_of s); cookie = none; woken = woken; impl = by_index i' }
dispatch env woken (by_connections l) srvs r =
    let (reply, impl) = least_conn_reply l (LeastConn.serve_begin l srvs) in
    record { reply = some reply; cookie = none; woken = woken; impl = impl }
dispatch env woken (by_address m pool) srvs r = record {
  reply = IpHash.serve_http env.address_hash env.status m pool r;
  cookie = none;
  woken = woken;
  impl = by_address m pool;
}

-- The sticky branch, for the server that the cookie leads to.
pub sticky : Env → List Server → Impl → List Server → Request → Option Server → Response
unfolding choose after_choose dispatch
sticky env woken impl srvs r (some s) = record {
  reply = some (served s);
  cookie = none;
  woken = woken;
  impl = impl;
}
sticky env woken impl srvs r none = elim (choose env impl srvs r) [
  | some s ↦ record {
    reply = some (served s);
    cookie = some s;
    woken = woken;
    impl = after_choose impl srvs;
  }
  | none ↦ dispatch env woken (after_choose impl srvs) srvs r
]

abbrev pub is_sticky : Bool → Request → Bool
is_sticky sticky_on r = sticky_on || is_idlewatcher_request r

serve_avail : Env → Bool → Impl → List Server → Request → Response
unfolding sticky dispatch
serve_avail env sticky_on impl [] r = record {
  reply = some (http_error status_service_unavailable);
  cookie = none;
  woken = [];
  impl = impl;
}
serve_avail env sticky_on impl (s ∷ srvs) r =
    let woken : List Server = if str_eq r.path wake_events_path then s ∷ srvs else [] in
    if is_sticky sticky_on r
    then sticky env woken impl (s ∷ srvs) r
        (get_sticky_server env.key_hash env.key r.sticky_cookie (s ∷ srvs))
    else dispatch env woken impl (s ∷ srvs) r

unfoldable pub serve_http : Env → Bool → Impl → List Server → Request → Response
unfolding serve_avail
serve_http env sticky_on impl iter r =
    serve_avail env sticky_on impl (avail_servers env.status iter) r
