-- ===== src/LoadBalancer/LeastConn.antt =====
-- internal/net/gphttp/loadbalancer/least_conn.go: the open connections of each server. The map `nConn`
-- holds a pointer to a counter for each server, which a request keeps while it is served, so the
-- counters are cells of their own: a server that is added again gets a new cell, and a request that
-- is still served gives back the old one.
pub mod Counters
use godoxy.Prelude.{
  some-injective, ℕ, zero, suc, ◌+◌, ◌-◌, ◌≤◌, ◌<◌, ◌≡◌, ◌≢◌, ◌⊎◌, inl, inr, ◌↔◌, refl, sym, ap,
  ◌∙◌, Bool, true, false, Option, none, some, List, [], ◌∷◌, arith, ltb, ◌==◌, if◌then◌else◌, All,
  In, Option-cases, Bool-cases,
}
use mathlib.Core.Path.{subst}
use godoxy.LoadBalancer.Defs.{Server}

pub record LeastConn : Type 0 where
  pub n_conn : Server → Option ℕ
  pub cells : ℕ → ℕ
  pub next_cell : ℕ

abbrev pub update {ℓ} : {A : Type ℓ} → (ℕ → A) → ℕ → A → ℕ → A
update f k v j = if j == k then v else f j

unfoldable pub new : LeastConn
new = record { n_conn = λ s. none; cells = λ c. 0; next_cell = 0 }

unfoldable pub on_add_server : Server → LeastConn → LeastConn
on_add_server srv l = record l {
  n_conn = update l.n_conn srv (some l.next_cell);
  cells = update l.cells l.next_cell 0;
  next_cell = l.next_cell + 1;
}

unfoldable pub on_remove_server : Server → LeastConn → LeastConn
on_remove_server srv l = record l { n_conn = update l.n_conn srv none }

-- `srv` and `minConn` of the loop.
abbrev pub Best : Type 0
Best = Option (Server × ℕ)

better : LeastConn → Server → ℕ → Best → Best
better l s c none = some (s, c)
better l s c (some (t, d)) = if ltb (l.cells c) (l.cells d) then some (s, c) else some (t, d)

visit : LeastConn → Server → Option ℕ → Best → Best
unfolding better
visit l s none best = best
visit l s (some c) best = better l s c best

choose_from : LeastConn → List Server → Best → Best
unfolding visit
choose_from l [] best = best
choose_from l (s ∷ srvs) best = choose_from l srvs (visit l s (l.n_conn s) best)

abbrev server_of : Best → Option Server
server_of none = none
server_of (some (s, c)) = some s

unfoldable pub choose_server : LeastConn → List Server → Option Server
unfolding choose_from
choose_server l srvs = server_of (choose_from l srvs none)

-- The first half of `ServeHTTP`, up to the call of the server: the HTTP error, or the server with the
-- cell to give back.
pub data Begin : Type 0 where
  unavailable internal_error : Begin
  serving : Server → ℕ → LeastConn → Begin

begin_with : LeastConn → Server → Option ℕ → Begin
begin_with l srv none = internal_error
begin_with l srv (some c) = serving srv c (record l { cells = update l.cells c (l.cells c + 1) })

begin_chosen : LeastConn → Option Server → Begin
unfolding begin_with
begin_chosen l none = unavailable
begin_chosen l (some srv) = begin_with l srv (l.n_conn srv)

unfoldable pub serve_begin : LeastConn → List Server → Begin
unfolding begin_chosen
serve_begin l srvs = begin_chosen l (choose_server l srvs)

-- The deferred `Add(-1)`. The counter is not 0 then (`Reach-Counts` of LeastConn/Counters).
unfoldable pub serve_end : LeastConn → ℕ → LeastConn
serve_end l c = record l { cells = update l.cells c (l.cells c - 1) }

-- The cell is that of a server which is no busier than any registered server of the list.
abbrev pub IsLeast : LeastConn → ℕ → List Server → Type 0
IsLeast l c srvs = All (λ s. (d : ℕ) → l.n_conn s ≡ some d → l.cells c ≤ l.cells d) srvs

IsLeast-le :
    (l : LeastConn) (c d : ℕ) (srvs : List Server)
    → l.cells c ≤ l.cells d
    → IsLeast l d srvs
    → IsLeast l c srvs
IsLeast-le l c d [] h a = tt
IsLeast-le l c d (s ∷ srvs) h (p, a) = (λ e q. omega (arith, p e q), IsLeast-le l c d srvs h a)

-- What the loop has found, from a best server `(t, d)` on.
abbrev Found : LeastConn → List Server → Server → ℕ → Server × ℕ → Type 0
Found l srvs t d (s, c) =
    (((s ≡ t) × (c ≡ d)) ⊎ (In s srvs × (l.n_conn s ≡ some c)))
    × (l.cells c ≤ l.cells d)
    × IsLeast l c srvs

-- One server of the loop.
visit_step :
    (l : LeastConn) (s t : Server) (d : ℕ) (o : Option ℕ)
    → l.n_conn s ≡ o
    → (t' : Server) × (d' : ℕ) × (visit l s o (some (t, d)) ≡ some (t', d'))
      × (((t' ≡ t) × (d' ≡ d)) ⊎ ((t' ≡ s) × (l.n_conn t' ≡ some d')))
      × (l.cells d' ≤ l.cells d)
      × ((k : ℕ) → o ≡ some k → l.cells d' ≤ l.cells k)
unfolding visit
visit_step l s t d none e = (t, d, refl, inl (refl, refl), omega arith, λ k q. cc)
visit_step l s t d (some c) e = elim (Bool-cases (ltb (l.cells c) (l.cells d))) [
  | inl lt ↦ (s, c, rw lt refl, inr (refl, e), ground arith, λ k q. ground arith)
  | inr ge ↦ (t, d, rw ge refl, inl (refl, refl), omega arith, λ k q. ground arith)
]

choose_from-some :
    (l : LeastConn) (srvs : List Server) (t : Server) (d : ℕ)
    → (s : Server) × (c : ℕ) × (choose_from l srvs (some (t, d)) ≡ some (s, c))
      × (((s ≡ t) × (c ≡ d)) ⊎ (In s srvs × (l.n_conn s ≡ some c)))
      × (l.cells c ≤ l.cells d)
      × IsLeast l c srvs
unfolding choose_from
choose_from-some l [] t d = (t, d, refl, inl (refl, refl), omega arith, tt)
choose_from-some l (x ∷ srvs) t d =
    let (t', d', e, o, h, k) = visit_step l x t d (l.n_conn x) refl in
    let (s, c, p, o', h', a) = choose_from-some l srvs t' d' in
    (s, c, rw e p, ground arith, omega arith, (λ j q. omega (arith, k j q), a))

abbrev Chosen : LeastConn → List Server → Option Server → Type 0
Chosen l srvs r =
    ((r ≡ none) × All (λ s. l.n_conn s ≡ none) srvs)
    ⊎ ((s : Server) × (c : ℕ) × (r ≡ some s) × In s srvs × (l.n_conn s ≡ some c) × IsLeast l c srvs)

Chosen-skip :
    (l : LeastConn) (x : Server) (srvs : List Server) (r : Option Server)
    → l.n_conn x ≡ none
    → Chosen l srvs r
    → Chosen l (x ∷ srvs) r
Chosen-skip l x srvs r e (inl (h, a)) = inl (h, (e, a))
Chosen-skip l x srvs r e (inr (s, c, p, i, q, a)) = inr (s, c, p, inr i, q, ((λ d k. cc), a))

Chosen-first :
    (l : LeastConn) (x : Server) (srvs : List Server) (k : ℕ)
    → l.n_conn x ≡ some k
    → Chosen l (x ∷ srvs) (server_of (choose_from l srvs (some (x, k))))
Chosen-first l x srvs k e =
    let (s, c, p, o, h, a) = choose_from-some l srvs x k in
    rw p (inr (s, c, refl, ground arith, ground arith, ((λ j q. ground arith), a)))

choose_from-none :
    (l : LeastConn) (srvs : List Server) → Chosen l srvs (server_of (choose_from l srvs none))
unfolding choose_from
choose_from-none l [] = inl (refl, tt)
choose_from-none l (x ∷ srvs) = go (choose_from-none l srvs) (l.n_conn x) refl
  where
    go :
        Chosen l srvs (server_of (choose_from l srvs none))
        → (o : Option ℕ) → l.n_conn x ≡ o
        → Chosen l (x ∷ srvs) (server_of (choose_from l srvs (visit l x o none)))
    go rest none e = Chosen-skip l x srvs (server_of (choose_from l srvs none)) e rest
    go rest (some c) e = Chosen-first l x srvs c e

-- `ChooseServer` finds no server exactly where no server of the list is registered, and otherwise a
-- registered server of the list whose connections are at most those of every registered server of the
-- list.
pub choose_server-IsLeast :
    (l : LeastConn) (srvs : List Server)
    → ((choose_server l srvs ≡ none) × All (λ s. l.n_conn s ≡ none) srvs)
      ⊎ ((s : Server) × (c : ℕ) × (choose_server l srvs ≡ some s)
          × In s srvs
          × (l.n_conn s ≡ some c)
          × IsLeast l c srvs)
unfolding choose_server
choose_server-IsLeast l srvs = choose_from-none l srvs

pub choose_server-In :
    (l : LeastConn) (srvs : List Server) (s : Server) → choose_server l srvs ≡ some s → In s srvs
choose_server-In l srvs s h = from (choose_server-IsLeast l srvs)
  where
    from : Chosen l srvs (choose_server l srvs) → In s srvs
    from (inl (e, a)) = cc
    from (inr (t, c, e, i, p, a)) = subst (λ x. In x srvs) (some-injective (sym e ∙ h)) i

-- A server that is served was chosen.
pub serve_begin-chosen :
    (l : LeastConn) (srvs : List Server) (s : Server) (c : ℕ) (l' : LeastConn)
    → serve_begin l srvs ≡ serving s c l'
    → choose_server l srvs ≡ some s
unfolding serve_begin
serve_begin-chosen l srvs s c l' h = ground arith

pub serve_begin_lem :
    (l : LeastConn) (srvs : List Server) (s : Server) (c : ℕ)
    → choose_server l srvs ≡ some s
    → l.n_conn s ≡ some c
    → (l' : LeastConn) × (serve_begin l srvs ≡ serving s c l')
unfolding serve_begin begin_chosen begin_with
serve_begin_lem l srvs s c e q = rw (e, q) (_, refl)
