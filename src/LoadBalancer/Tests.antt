-- ===== src/LoadBalancer/Tests.antt =====
-- Witnesses for the theorems on the load balancer.
mod Pools
use Prim.Native.String.{String}
use godoxy.Prelude.{
  ℕ, ◌+◌, ◌%◌, ◌≤◌, ◌<◌, ◌≡◌, ◌≢◌, ◌⊎◌, inl, inr, refl, arith, Bool, true, false, Option, none,
  some, List, [], ◌∷◌, ◌++◌, ◌==◌, if◌then◌else◌, map, length, take, drop, In, All,
}
use godoxy.Prelude.Bytes.{Bytes, codes}
use godoxy.Health.Status.{HealthStatus, good}
use godoxy.LoadBalancer.Defs.{
  Server, Request, is_idlewatcher_request, http_error, served, status_service_unavailable,
}
use godoxy.LoadBalancer.IpHash
use godoxy.LoadBalancer.Serve.{
  Impl, by_index, by_connections, by_address, Env, Response, is_sticky, avail_servers, serve_http,
}
use godoxy.LoadBalancer.RoundRobin
use godoxy.LoadBalancer.Serve.Safety.{
  serve_http-good, serve_http-served, serve_http-unavailable, serve_http-unchecked,
}

-- Server 1 is unhealthy, server 2 is napping, the others are healthy; addresses hash to 0.
abbrev status : Server → HealthStatus
status s = if s == 1 then 16 else if s == 2 then 4 else 2

abbrev env : Env
env = record { status = status; key = λ s. s ∷ []; key_hash = length; address_hash = λ a. 0 }

abbrev request : Request
request = record {
  path = "/";
  remote_addr = "10.0.0.9:4000";
  remote_host = some "10.0.0.9";
  sticky_cookie = none;
}

abbrev pool : List Server
pool = 1 ∷ 2 ∷ 3 ∷ []

-- The run in which server 3 is chosen: the good servers are 2 and 3, and the counter is odd.
chosen_third : (serve_http env false (by_index 1) pool request).reply ≡ some (served 3)
unfolding serve_http good avail_servers is_idlewatcher_request RoundRobin.choose_server
chosen_third = refl

serve_http-good_example : good (env.status 3) ≡ true
serve_http-good_example = serve_http-good env false (by_index 1) pool request 3 tt chosen_third
