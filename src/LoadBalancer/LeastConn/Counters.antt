-- ===== src/LoadBalancer/LeastConn/Counters.antt =====
-- internal/net/gphttp/loadbalancer/least_conn.go: the counters while requests come and go in any
-- order, with servers added and removed between them.
use godoxy.Prelude.{ℕ, ◌+◌, ◌≤◌, ◌<◌, ◌≡◌, refl, some, List, [], ◌∷◌, arith, ◌==◌, if◌then◌else◌}
use godoxy.LoadBalancer.Defs.{Server}
use godoxy.LoadBalancer.LeastConn.{
  LeastConn, update, new, on_add_server, on_remove_server, serving, serve_begin, serve_end,
}

-- The cells held by the requests that are being served.
abbrev pub Open : Type 0
Open = List ℕ

abbrev pub count : ℕ → Open → ℕ
count c [] = 0
count c (x ∷ xs) = (if x == c then 1 else 0) + count c xs

-- A request begins, one of those being served ends, or a server comes or goes.
pub data Step : LeastConn → Open → LeastConn → Open → Type 0 where
  add : (l : LeastConn) (o : Open) (s : Server) → Step l o (on_add_server s l) o
  remove : (l : LeastConn) (o : Open) (s : Server) → Step l o (on_remove_server s l) o
  begins :
      (l : LeastConn) (o : Open) (srvs : List Server) (s : Server) (c : ℕ) (l' : LeastConn)
      → serve_begin l srvs ≡ serving s c l'
      → Step l o l' (c ∷ o)
  ends :
      (l : LeastConn) (o o' : Open) (c : ℕ)
      → ((k : ℕ) → count k o ≡ (if c == k then 1 else 0) + count k o')
      → Step l o (serve_end l c) o'

pub data Reach : LeastConn → Open → Type 0 where
  start : Reach new []
  next : {l l' : LeastConn} {o o' : Open} → Reach l o → Step l o l' o' → Reach l' o'

-- Every counter is the number of requests that hold its cell, and cells are allocated once.
pub record Counts (l : LeastConn) (o : Open) : Type 0 where
  pub exact : (c : ℕ) → l.cells c ≡ count c o
  pub fresh : (c : ℕ) → l.next_cell ≤ c → count c o ≡ 0
  pub registered : (s : Server) (c : ℕ) → l.n_conn s ≡ some c → c < l.next_cell

begin_lem :
    (l : LeastConn) (srvs : List Server) (s : Server) (c : ℕ) (l' : LeastConn)
    → serve_begin l srvs ≡ serving s c l'
    → (l.n_conn s ≡ some c) × (l' ≡ record l { cells = update l.cells c (l.cells c + 1) })
unfolding serve_begin
begin_lem l srvs s c l' h = ground arith

Step-Counts : {l l' : LeastConn} {o o' : Open} → Step l o l' o' → Counts l o → Counts l' o'
unfolding on_add_server on_remove_server serve_end
Step-Counts (add l o s) h = record {
  exact = λ c. ground (arith, h.exact c, h.fresh c);
  fresh = λ c k. ground (arith, h.fresh c);
  registered = λ t c e. ground (arith, h.registered t c);
}
Step-Counts (remove l o s) h = record {
  exact = h.exact;
  fresh = h.fresh;
  registered = λ t c e. ground (arith, h.registered t c);
}
Step-Counts (begins l o srvs s c l' e) h =
    let (r, q) = begin_lem l srvs s c l' e in
    rw q (record {
      exact = λ k. ground (arith, h.exact k);
      fresh = λ k p. ground (arith, h.fresh k, h.registered s c);
      registered = h.registered;
    })
Step-Counts (ends l o o' c e) h = record {
  exact = λ k. ground (arith, h.exact k, e k);
  fresh = λ k p. ground (arith, h.fresh k, e k);
  registered = h.registered;
}

new-Counts : Counts new []
unfolding new
new-Counts = record { exact = λ c. refl; fresh = λ c k. refl; registered = λ s c e. ground arith }

-- However requests and changes of the pool are ordered, every counter is the number of requests that
-- are served with it, so no counter that a request gives back is 0.
pub Reach-Counts : {l : LeastConn} {o : Open} → Reach l o → Counts l o
Reach-Counts start = new-Counts
Reach-Counts (next r s) = Step-Counts s (Reach-Counts r)
