-- ===== src/LoadBalancer/Serve/Counted.antt =====
-- internal/net/gphttp/loadbalancer: `ServeHTTP` under `leastConn`, for servers that have a counter.
use mathlib.Core.Path.{subst}
use godoxy.Prelude.{
  ℕ, ◌≡◌, inl, inr, sym, ap, ◌∙◌, Bool, true, some, List, [], ◌∷◌, In, All, Bool-cases,
}
use godoxy.LoadBalancer.Defs.{Server, Request, served}
use godoxy.LoadBalancer.LeastConn
use godoxy.LoadBalancer.LeastConn.{LeastConn}
use godoxy.Health.Status.{HealthStatus, good}
use godoxy.LoadBalancer.Serve.{
  Env, by_connections, avail_servers, choose, dispatch, least_conn_reply, is_sticky, serve_avail,
  serve_http,
}
use godoxy.LoadBalancer.Serve.Safety.{sticky-served}

pub All-In : (P : Server → Type 0) (srvs : List Server) (s : Server) → All P srvs → In s srvs → P s
All-In P [] s h i = absurd i
All-In P (x ∷ srvs) s h (inl e) = subst P (sym e) h.0
All-In P (x ∷ srvs) s h (inr i) = All-In P srvs s h.1 i

-- Every server of the list has a counter.
abbrev pub Counted : LeastConn → List Server → Type 0
Counted l srvs = All (λ s. (c : ℕ) × (l.n_conn s ≡ some c)) srvs

avail_servers-In :
    (status : Server → HealthStatus) (iter : List Server) (s : Server)
    → good (status s) ≡ true
    → In s iter
    → In s (avail_servers status iter)
unfolding avail_servers
avail_servers-In status [] s g i = i
avail_servers-In status (x ∷ iter) s g (inl p) = rw (ap (λ t. good (status t)) (sym p) ∙ g) (inl p)
avail_servers-In status (x ∷ iter) s g (inr i) = elim (Bool-cases (good (status x))) [
  | inl e ↦ rw e (inr (avail_servers-In status iter s g i))
  | inr e ↦ rw e (avail_servers-In status iter s g i)
]

chosen :
    (l : LeastConn) (srvs : List Server) (s : Server)
    → Counted l srvs
    → In s srvs
    → (t : Server) × (c : ℕ) × (LeastConn.choose_server l srvs ≡ some t) × (l.n_conn t ≡ some c)
chosen l srvs s h i = elim (LeastConn.choose_server-IsLeast l srvs) [
  | inl (e, none_of) ↦
      (let (c, q) = All-In _ srvs s h i in absurd (cc (All-In _ srvs s none_of i, q)))
  | inr (t, c, e, j, q, a) ↦ (t, c, e, q)
]

dispatch_counted :
    (env : Env) (woken : List Server) (l : LeastConn) (srvs : List Server) (r : Request)
    (t : Server) (c : ℕ)
    → LeastConn.choose_server l srvs ≡ some t
    → l.n_conn t ≡ some c
    → (dispatch env woken (by_connections l) srvs r).reply ≡ some (served t)
unfolding dispatch least_conn_reply
dispatch_counted env woken l srvs r t c e q =
    let (l', b) = LeastConn.serve_begin_lem l srvs t c e q in
    ap (λ k. some (least_conn_reply l k).0) b

serve-Counted :
    (env : Env) (on : Bool) (l : LeastConn) (srvs : List Server) (r : Request) (s : Server)
    → Counted l srvs
    → In s srvs
    → (t : Server) × ((serve_avail env on (by_connections l) srvs r).reply ≡ some (served t))
unfolding serve_avail dispatch
serve-Counted env on l [] r s h i = absurd i
serve-Counted env on l (x ∷ srvs) r s h i =
    let (t, c, e, q) = chosen l (x ∷ srvs) s h i in
    elim (Bool-cases (is_sticky on r)) [
      | inl k ↦ rw k (sticky-served env _ (by_connections l) (x ∷ srvs) r _ t (unfold choose in e))
      | inr k ↦ rw k (t, dispatch_counted env [] l (x ∷ srvs) r t c e q)
    ]

Counted-avail_servers :
    (status : Server → HealthStatus) (l : LeastConn) (iter : List Server)
    → Counted l iter
    → Counted l (avail_servers status iter)
unfolding avail_servers
Counted-avail_servers status l [] h = tt
Counted-avail_servers status l (x ∷ iter) h = elim (Bool-cases (good (status x))) [
  | inl e ↦ rw e (h.0, Counted-avail_servers status l iter h.1)
  | inr e ↦ rw e (Counted-avail_servers status l iter h.1)
]

-- Under `leastConn` a request is handed to some server whenever the pool has a good one, if every
-- server of the pool has a counter.
pub serve_http-Counted :
    (env : Env) (on : Bool) (l : LeastConn) (iter : List Server) (r : Request) (s : Server)
    → Counted l iter
    → In s iter
    → good (env.status s) ≡ true
    → (t : Server) × ((serve_http env on (by_connections l) iter r).reply ≡ some (served t))
unfolding serve_http
serve_http-Counted env on l iter r s h i g =
    serve-Counted env on l (avail_servers env.status iter) r s
      (Counted-avail_servers env.status l iter h) (avail_servers-In env.status iter s g i)
