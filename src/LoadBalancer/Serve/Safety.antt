-- ===== src/LoadBalancer/Serve/Safety.antt =====
-- internal/net/gphttp/loadbalancer: which servers `ServeHTTP` hands a request to.
use Prim.Native.String.{String}
use godoxy.Prelude.{
  some-injective, ℕ, ◌≤◌, ◌<◌, ◌≡◌, ◌⊎◌, inl, inr, refl, sym, ap, ◌∙◌, Bool, true, false, Option,
  none, some, List, [], ◌∷◌, arith, length, In, All, Bool-cases, Option-cases,
}
use godoxy.Health.Status.{HealthStatus, good}
use godoxy.LoadBalancer.Defs.{Server, Request, http_error, served, status_service_unavailable}
use godoxy.LoadBalancer.RoundRobin
use godoxy.LoadBalancer.LeastConn
use godoxy.LoadBalancer.LeastConn.{LeastConn}
use godoxy.LoadBalancer.IpHash
use godoxy.LoadBalancer.IpHash.{RealIp}
use godoxy.LoadBalancer.Sticky.{get_sticky_server, get_sticky_server-In}
use godoxy.LoadBalancer.Serve.{
  Impl, by_index, by_connections, by_address, Env, avail_servers, choose, after_choose, reply_of,
  least_conn_reply, dispatch, sticky, is_sticky, serve_avail, serve_http,
}

good_of :
    (status : Server → HealthStatus) (x s : Server) (rest : List Server)
    → good (status x) ≡ true
    → (In s rest → good (status s) ≡ true)
    → (s ≡ x) ⊎ In s rest
    → good (status s) ≡ true
good_of status x s rest e f (inl p) = rw p e
good_of status x s rest e f (inr i) = f i

avail_servers-good :
    (status : Server → HealthStatus) (iter : List Server) (s : Server)
    → In s (avail_servers status iter)
    → good (status s) ≡ true
unfolding avail_servers
avail_servers-good status [] s h = absurd h
avail_servers-good status (x ∷ iter) s h = elim (Bool-cases (good (status x))) [
  | inl e ↦
      good_of status x s (avail_servers status iter) e (avail_servers-good status iter s)
        (rw e at h)
  | inr e ↦ avail_servers-good status iter s (rw e at h)
]

address_served :
    (hash : String → ℕ) (status : Server → HealthStatus) (m : Option RealIp) (pool : List Server)
    (r : Request) (s : Server)
    → IpHash.serve_http hash status m pool r ≡ some (served s)
    → good (status s) ≡ true
unfolding IpHash.serve_http good
address_served hash status none pool r s h = ground arith
address_served hash status (some m) pool r s h = ground arith

connections_served :
    (l : LeastConn) (srvs : List Server) (b : LeastConn.Begin) (s : Server)
    → LeastConn.serve_begin l srvs ≡ b
    → (least_conn_reply l b).0 ≡ served s
    → LeastConn.choose_server l srvs ≡ some s
unfolding least_conn_reply
connections_served l srvs LeastConn.unavailable s e h = cc
connections_served l srvs LeastConn.internal_error s e h = cc
connections_served l srvs (LeastConn.serving t c l') s e h =
    LeastConn.serve_begin-chosen l srvs t c l' e ∙ (cc)

reply_of-served : (o : Option Server) (s : Server) → reply_of o ≡ served s → o ≡ some s
unfolding reply_of
reply_of-served none s h = cc
reply_of-served (some t) s h = cc

dispatch-good :
    (env : Env) (woken : List Server) (impl : Impl) (srvs : List Server) (r : Request) (s : Server)
    → ((t : Server) → In t srvs → good (env.status t) ≡ true)
    → (dispatch env woken impl srvs r).reply ≡ some (served s)
    → good (env.status s) ≡ true
unfolding dispatch
dispatch-good env woken (by_index i) srvs r s g h =
    g s (RoundRobin.choose_server-In i srvs s (reply_of-served _ s (some-injective h)))
dispatch-good env woken (by_connections l) srvs r s g h = g s (
    LeastConn.choose_server-In l srvs s
      (connections_served l srvs (LeastConn.serve_begin l srvs) s refl (some-injective h)))
dispatch-good env woken (by_address m pool) srvs r s g h =
    address_served env.address_hash env.status m pool r s h

-- The one way round the check of the status: a sticky request under `ipHash`.
abbrev pub Checked : Impl → Bool → Type 0
Checked (by_index i) b = Unit
Checked (by_connections l) b = Unit
Checked (by_address m pool) b = b ≡ false

choose-In :
    (env : Env) (impl : Impl) (srvs : List Server) (r : Request) (s : Server)
    → Checked impl true
    → choose env impl srvs r ≡ some s
    → In s srvs
unfolding choose
choose-In env (by_index i) srvs r s c h = RoundRobin.choose_server-In i srvs s h
choose-In env (by_connections l) srvs r s c h = LeastConn.choose_server-In l srvs s h
choose-In env (by_address m pool) srvs r s c h = cc

served-injective : {a b : Server} → served a ≡ served b → a ≡ b
served-injective h = cc

sticky-good :
    (env : Env) (woken : List Server) (impl : Impl) (srvs : List Server) (r : Request)
    (o : Option Server) (s : Server)
    → Checked impl true
    → ((t : Server) → In t srvs → good (env.status t) ≡ true)
    → ((t : Server) → o ≡ some t → In t srvs)
    → (sticky env woken impl srvs r o).reply ≡ some (served s)
    → good (env.status s) ≡ true
unfolding sticky
sticky-good env woken impl srvs r (some t) s c g f h = g s (f s (cc))
sticky-good env woken impl srvs r none s c g f h = elim (Option-cases (choose env impl srvs r)) [
  | inl e ↦ dispatch-good env woken (after_choose impl srvs) srvs r s g (rw (e, sticky) at h)
  | inr (t, e) ↦ g s (
      choose-In env impl srvs r s c
        (e ∙ ap some (served-injective (some-injective (rw (e, sticky) at h)))))
]

serve_avail-good :
    (env : Env) (on : Bool) (impl : Impl) (srvs : List Server) (r : Request) (s : Server)
    → Checked impl (is_sticky on r)
    → ((t : Server) → In t srvs → good (env.status t) ≡ true)
    → (serve_avail env on impl srvs r).reply ≡ some (served s)
    → good (env.status s) ≡ true
unfolding serve_avail
serve_avail-good env on impl [] r s c g h = cc
serve_avail-good env on impl (x ∷ srvs) r s c g h = elim (Bool-cases (is_sticky on r)) [
  | inl e ↦
      sticky-good env _ impl (x ∷ srvs) r
        (get_sticky_server env.key_hash env.key r.sticky_cookie (x ∷ srvs)) s (rw e at c) g
        (get_sticky_server-In env.key_hash env.key r.sticky_cookie (x ∷ srvs)) (rw e at h)
  | inr e ↦ dispatch-good env _ impl (x ∷ srvs) r s g (rw e at h)
]

-- Unless the mode is `ipHash` and the request is sticky, a request is only ever handed to a server
-- whose status is good.
pub serve_http-good :
    (env : Env) (on : Bool) (impl : Impl) (iter : List Server) (r : Request) (s : Server)
    → Checked impl (is_sticky on r)
    → (serve_http env on impl iter r).reply ≡ some (served s)
    → good (env.status s) ≡ true
unfolding serve_http
serve_http-good env on impl iter r s c h =
    serve_avail-good env on impl (avail_servers env.status iter) r s c
      (avail_servers-good env.status iter) h

avail_servers-nil :
    (status : Server → HealthStatus) (iter : List Server)
    → All (λ s. good (status s) ≡ false) iter
    → avail_servers status iter ≡ []
unfolding avail_servers
avail_servers-nil status [] h = refl
avail_servers-nil status (s ∷ iter) h = rw h.0 (avail_servers-nil status iter h.1)

avail_servers-cons :
    (status : Server → HealthStatus) (iter : List Server) (s : Server)
    → In s iter
    → good (status s) ≡ true
    → 0 < length (avail_servers status iter)
unfolding avail_servers
avail_servers-cons status [] s i g = absurd i
avail_servers-cons status (x ∷ iter) s (inl p) g =
    rw (ap (λ t. good (status t)) (sym p) ∙ g) (omega arith)
avail_servers-cons status (x ∷ iter) s (inr i) g =
    ground (arith, avail_servers-cons status iter s i g)

length-avail_servers :
    (status : Server → HealthStatus) (iter : List Server)
    → length (avail_servers status iter) ≤ length iter
unfolding avail_servers
length-avail_servers status [] = omega arith
length-avail_servers status (x ∷ iter) = ground (arith, length-avail_servers status iter)

-- With no good server in the pool every request is answered 503 and nothing else happens, in every
-- mode.
pub serve_http-unavailable :
    (env : Env) (on : Bool) (impl : Impl) (iter : List Server) (r : Request)
    → All (λ s. good (env.status s) ≡ false) iter
    → serve_http env on impl iter r ≡ record {
      reply = some (http_error status_service_unavailable);
      cookie = none;
      woken = [];
      impl = impl;
    }
unfolding serve_http serve_avail
serve_http-unavailable env on impl iter r h = rw (avail_servers-nil env.status iter h)

sticky-choose :
    (env : Env) (woken : List Server) (impl : Impl) (srvs : List Server) (r : Request) (s : Server)
    → choose env impl srvs r ≡ some s
    → (sticky env woken impl srvs r none).reply ≡ some (served s)
unfolding sticky
sticky-choose env woken impl srvs r s e = rw (e, sticky) refl

pub sticky-served :
    (env : Env) (woken : List Server) (impl : Impl) (srvs : List Server) (r : Request)
    (o : Option Server) (s : Server)
    → choose env impl srvs r ≡ some s
    → (t : Server) × ((sticky env woken impl srvs r o).reply ≡ some (served t))
sticky-served env woken impl srvs r (some t) s e = (t, found)
  where
    found : (sticky env woken impl srvs r (some t)).reply ≡ some (served t)
    found = unfold sticky in refl
sticky-served env woken impl srvs r none s e = (s, sticky-choose env woken impl srvs r s e)

serve_avail-served :
    (env : Env) (on : Bool) (i : ℕ) (srvs : List Server) (r : Request)
    → i < RoundRobin.u32
    → 0 < length srvs
    → length srvs < RoundRobin.u32
    → (t : Server) × ((serve_avail env on (by_index i) srvs r).reply ≡ some (served t))
unfolding serve_avail
serve_avail-served env on i [] r a b c = absurd (omega arith)
serve_avail-served env on i (x ∷ srvs) r a b c =
    let (s, e, _) = RoundRobin.choose_server_total i (x ∷ srvs) a b c in
    elim (Bool-cases (is_sticky on r)) [
      | inl k ↦ rw k (sticky-served env _ (by_index i) (x ∷ srvs) r _ s (unfold choose in e))
      | inr k ↦ rw k (s, unfold dispatch reply_of in rw e refl)
    ]

-- Under `roundrobin`, with a 32-bit counter and at most as many servers as it counts, a request is
-- handed to some server whenever the pool has a good one.
pub serve_http-served :
    (env : Env) (on : Bool) (i : ℕ) (iter : List Server) (r : Request) (s : Server)
    → i < RoundRobin.u32
    → length iter < RoundRobin.u32
    → In s iter
    → good (env.status s) ≡ true
    → (t : Server) × ((serve_http env on (by_index i) iter r).reply ≡ some (served t))
unfolding serve_http
serve_http-served env on i iter r s a c k g =
    serve_avail-served env on i (avail_servers env.status iter) r a
      (avail_servers-cons env.status iter s k g)
      (omega (arith, length-avail_servers env.status iter))

-- A sticky request without a cookie under `ipHash`, in a pool with some good server, is handed to
-- the server that the address hashes to, whatever the status of that server.
pub serve_http-unchecked :
    (env : Env) (on : Bool) (m : Option RealIp) (pool iter : List Server) (r : Request)
    (s t : Server)
    → is_sticky on r ≡ true
    → r.sticky_cookie ≡ none
    → In s iter
    → good (env.status s) ≡ true
    → IpHash.choose_server env.address_hash pool r ≡ some t
    → (serve_http env on (by_address m pool) iter r).reply ≡ some (served t)
unfolding serve_http
serve_http-unchecked env on m pool iter r s t k n i g e =
    unchecked (avail_servers env.status iter) (avail_servers-cons env.status iter s i g)
  where
    no_cookie :
        (srvs : List Server) → get_sticky_server env.key_hash env.key r.sticky_cookie srvs ≡ none
    no_cookie srvs = rw n (unfold get_sticky_server in refl)

    unchecked :
        (srvs : List Server)
        → 0 < length srvs
        → (serve_avail env on (by_address m pool) srvs r).reply ≡ some (served t)
    unchecked [] h = absurd (omega arith)
    unchecked (x ∷ srvs) h =
        unfold serve_avail in
        rw (k, no_cookie (x ∷ srvs))
          (sticky-choose env _ (by_address m pool) (x ∷ srvs) r t (unfold choose in e))
