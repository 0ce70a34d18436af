-- ===== src/LoadBalancer/Tests/Pools.antt =====
-- Witnesses for the theorems on the choice of a server and on the weights.
use godoxy.Prelude.{
  ℕ, ◌+◌, ◌*◌, ◌/◌, ◌≡◌, ◌⊎◌, refl, arith, none, some, List, [], ◌∷◌, ◌==◌, if◌then◌else◌, In, All,
}
use godoxy.Prelude.Int.{ℤ, pos, negsuc, ◌+ℤ◌}
use godoxy.LoadBalancer.Defs.{Server}
use godoxy.LoadBalancer.RoundRobin.{choose_many-rotation, choose_many}
use godoxy.LoadBalancer.LeastConn
use godoxy.LoadBalancer.LeastConn.{LeastConn, IsLeast, choose_server-IsLeast}
use godoxy.LoadBalancer.LeastConn.Counters.{Reach, start, next, add, begins, Counts, Reach-Counts}
use godoxy.LoadBalancer.Rebalance.{Balance, rebalance}
use godoxy.LoadBalancer.Rebalance.Exact.{total, rebalance-scaled}

abbrev three : List Server
three = 5 ∷ 6 ∷ 7 ∷ []

choose_many-rotation_example : choose_many 3 10 three ≡ some 6 ∷ some 7 ∷ some 5 ∷ []
choose_many-rotation_example = choose_many-rotation 10 three (omega arith) (omega arith)

abbrev registered : LeastConn
registered = record {
  n_conn = λ s. if s == 5 then some 0 else if s == 6 then some 1 else none;
  cells = λ c. if c == 0 then 4 else 2;
  next_cell = 2;
}

choose_server-IsLeast_example :
    ((LeastConn.choose_server registered three ≡ none)
      × All (λ s. registered.n_conn s ≡ none) three)
    ⊎ ((s : Server) × (c : ℕ) × (LeastConn.choose_server registered three ≡ some s)
        × In s three
        × (registered.n_conn s ≡ some c)
        × IsLeast registered c three)
choose_server-IsLeast_example = choose_server-IsLeast registered three

-- A server comes, and a request begins there.
abbrev added : LeastConn
added = LeastConn.on_add_server 5 LeastConn.new

abbrev busy : LeastConn
busy = record added { cells = LeastConn.update added.cells 0 (added.cells 0 + 1) }

begun : LeastConn.serve_begin added (5 ∷ []) ≡ LeastConn.serving 5 0 busy
unfolding LeastConn.serve_begin LeastConn.on_add_server LeastConn.new LeastConn.choose_server
begun = refl

busy_reached : Reach busy (0 ∷ [])
busy_reached = next (next start (add LeastConn.new [] 5)) (begins added [] (5 ∷ []) 5 0 busy begun)

Reach-Counts_example : Counts busy (0 ∷ [])
Reach-Counts_example = Reach-Counts busy_reached

-- `w * 100 / k`, rounded down, for a weight that is not negative.
abbrev scale : ℤ → ℤ → ℤ
scale (pos w) (pos k) = pos (w * 100 / k)
scale (pos w) (negsuc k) = pos 0
scale (negsuc w) k = pos 0

-- Weights 1 and 2, which are scaled to 33 and 66 before the rest is spread.
abbrev weighted : Balance
weighted = record { weights = λ s. if s == 5 then pos 1 else pos 2; sum_weight = pos 3 }

rebalance-scaled_example :
    (total (rebalance scale (5 ∷ 6 ∷ []) weighted).weights (5 ∷ 6 ∷ []) ≡ pos 100)
    × ((rebalance scale (5 ∷ 6 ∷ []) weighted).sum_weight ≡ pos 100)
unfolding ◌+ℤ◌
rebalance-scaled_example =
    rebalance-scaled scale 3 (5 ∷ 6 ∷ []) weighted ((omega arith, tt), (tt, tt)) refl refl
      (omega arith) (omega arith)
      (
        (1, 33, refl, refl, omega arith, omega arith),
        ((2, 66, refl, refl, omega arith, omega arith), tt),
      )
