-- ===== src/LoadBalancer/Pool/Registered.antt =====
-- internal/net/gphttp/loadbalancer: under `leastConn` the servers of the pool are those with a counter.
use mathlib.Core.Path.{subst}
use godoxy.Prelude.{
  ℕ, ◌≡◌, ◌≢◌, ◌⊎◌, inl, inr, refl, sym, ap, Bool, true, false, Option, none, some, List, [], ◌∷◌,
  arith, In, All, ◌==◌, some-injective, Bool-cases, Option-cases, if◌then◌else◌,
}
use godoxy.Prelude.Int.{ℤ}
use godoxy.Prelude.Bytes.{Bytes}
use godoxy.LoadBalancer.Defs.{Server}
use godoxy.LoadBalancer.LeastConn
use godoxy.LoadBalancer.LeastConn.{LeastConn}
use godoxy.LoadBalancer.Serve.Counted.{Counted, All-In}
use godoxy.LoadBalancer.Serve.{by_connections, add_to}
use godoxy.LoadBalancer.Pool.{
  PoolOps, PoolLaws, LoadBalancer, add_server, remove_server, remove_from_impl, replace_old,
  add_new, remove_found,
}

All-tabulate :
    {P : Server → Type 0} (srvs : List Server) → ((s : Server) → In s srvs → P s) → All P srvs
All-tabulate [] f = tt
All-tabulate (x ∷ srvs) f = (f x (inl refl), All-tabulate srvs (λ s i. f s (inr i)))

Counted-on_add_server :
    (l : LeastConn) (t s : Server)
    → (s ≡ t) ⊎ ((c : ℕ) × (l.n_conn s ≡ some c))
    → (c : ℕ) × ((LeastConn.on_add_server t l).n_conn s ≡ some c)
unfolding LeastConn.on_add_server
Counted-on_add_server l t s h = elim (Bool-cases (s == t)) [
  | inl e ↦ rw e (l.next_cell, refl)
  | inr e ↦ elim h [ inl p ↦ absurd (ground arith) | inr q ↦ rw e q ]
]

Counted-on_remove_server :
    (l : LeastConn) (t s : Server)
    → s ≢ t
    → (c : ℕ) × (l.n_conn s ≡ some c)
    → (c : ℕ) × ((LeastConn.on_remove_server t l).n_conn s ≡ some c)
unfolding LeastConn.on_remove_server
Counted-on_remove_server l t s n h = elim (Bool-cases (s == t)) [
  | inl e ↦ absurd (n (ground arith))
  | inr e ↦ rw e h
]

module _ {P : Type 0} (ops : PoolOps P) (key : Server → Bytes) (scale : ℤ → ℤ → ℤ)
    (laws : PoolLaws P key ops) where
  -- The load balancer runs `leastConn`, and every server of its pool has a counter.
  pub record Registered (lb : LoadBalancer P) : Type 0 where
    pub least : LeastConn
    pub runs : lb.impl ≡ by_connections least
    pub counted : Counted least (ops.iter lb.pool)

  after_del :
      (l : LeastConn) (t : Server) (p : P)
      → Counted l (ops.iter p)
      → Counted (LeastConn.on_remove_server t l) (ops.iter (ops.del t p))
  after_del l t p h = All-tabulate (ops.iter (ops.del t p)) (λ s i.
      let (j, n) = laws.In-del s t p i in
      Counted-on_remove_server l t s (λ e. n (ap key e)) (All-In _ (ops.iter p) s h j))

  after_add :
      (l : LeastConn) (t : Server) (p : P)
      → Counted l (ops.iter p)
      → Counted (LeastConn.on_add_server t l) (ops.iter (ops.add t p))
  after_add l t p h = All-tabulate (ops.iter (ops.add t p)) (λ s i.
      Counted-on_add_server l t s
        (elim (laws.In-add s t p i) [ inl e ↦ inl e | inr j ↦ inr (All-In _ (ops.iter p) s h j) ]))

  Done : Option (LoadBalancer P) → Type 0
  Done o = (lb : LoadBalancer P) × (o ≡ some lb) × Registered lb

  impl_removed :
      (t : Server) (lb : LoadBalancer P) (h : Registered lb)
      → remove_from_impl t lb.impl ≡ some (by_connections (LeastConn.on_remove_server t h.least))
  unfolding remove_from_impl
  impl_removed t lb h = ap (remove_from_impl t) h.runs

  replace_old-Done :
      (o : Option Server) (lb : LoadBalancer P)
      → Registered lb
      → Done (replace_old ops key scale o lb)
  unfolding Done replace_old
  replace_old-Done none lb h = (lb, refl, h)
  replace_old-Done (some old) lb h =
      rw (impl_removed old lb h, replace_old)
        (
          _,
          refl,
          record {
            least = LeastConn.on_remove_server old h.least;
            runs = refl;
            counted = after_del h.least old lb.pool h.counted;
          },
        )

  add_new-Registered :
      (srv : Server) (lb : LoadBalancer P)
      → Registered lb
      → Registered (add_new ops key scale srv lb)
  unfolding add_new add_to
  add_new-Registered srv lb h = record {
    least = LeastConn.on_add_server srv h.least;
    runs = ap (add_to srv) h.runs;
    counted = after_add h.least srv lb.pool h.counted;
  }

  add_server-Done :
      (srv : Server) (lb : LoadBalancer P) → Registered lb → Done (add_server ops key scale srv lb)
  unfolding Done add_server
  add_server-Done srv lb h =
      let (lb', e, r) = replace_old-Done (ops.get (key srv) lb.pool) lb h in
      rw (e, add_server) (add_new ops key scale srv lb', refl, add_new-Registered srv lb' r)

  remove_found-Done :
      (srv : Server) (lb : LoadBalancer P)
      → Registered lb
      → Done (remove_found ops key scale srv lb)
  unfolding Done remove_found
  remove_found-Done srv lb h =
      rw (impl_removed srv lb h, remove_found)
        (
          _,
          refl,
          record {
            least = LeastConn.on_remove_server srv h.least;
            runs = refl;
            counted = after_del h.least srv lb.pool h.counted;
          },
        )

  remove_server-Done :
      (srv : Server) (lb : LoadBalancer P)
      → Registered lb
      → Done (remove_server ops key scale srv lb)
  unfolding Done remove_server
  remove_server-Done srv lb h = elim (Option-cases (ops.get (key srv) lb.pool)) [
    | inl e ↦ rw (e, remove_server) (lb, refl, h)
    | inr (old, e) ↦ rw (e, remove_server) (remove_found-Done srv lb h)
  ]

  -- The calls that change a pool, one after the other; `none` is a panic.
  unfoldable pub run_changes : List (Bool × Server) → LoadBalancer P → Option (LoadBalancer P)
  run_changes [] lb = some lb
  run_changes ((joins, srv) ∷ changes) lb =
      elim (if joins then add_server ops key scale srv lb else remove_server ops key scale srv lb) [
        | none ↦ none
        | some lb' ↦ run_changes changes lb'
      ]

  goes_on :
      (changes : List (Bool × Server)) (o : Option (LoadBalancer P))
      → Done o
      → ((lb : LoadBalancer P) → Registered lb → Done (run_changes changes lb))
      → Done (elim o [ none ↦ none | some lb' ↦ run_changes changes lb' ])
  unfolding Done
  goes_on changes none (lb, e, r) f = cc
  goes_on changes (some lb') (lb, e, r) f = f lb' (subst Registered (sym (some-injective e)) r)

  -- Under `leastConn` servers join and leave without a panic, and after any number of such calls every
  -- server of the pool has a counter, if that was so before.
  pub run_changes-Registered :
      (changes : List (Bool × Server)) (lb : LoadBalancer P)
      → Registered lb
      → (lb' : LoadBalancer P) × (run_changes changes lb ≡ some lb') × Registered lb'
  unfolding run_changes Done
  run_changes-Registered [] lb h = (lb, refl, h)
  run_changes-Registered ((true, srv) ∷ changes) lb h =
      goes_on changes (add_server ops key scale srv lb) (add_server-Done srv lb h)
        (run_changes-Registered changes)
  run_changes-Registered ((false, srv) ∷ changes) lb h =
      goes_on changes (remove_server ops key scale srv lb) (remove_server-Done srv lb h)
        (run_changes-Registered changes)
