-- ===== src/LoadBalancer/Rebalance.antt =====
-- internal/net/gphttp/loadbalancer/loadbalancer.go: the weights of the servers, `AddServer`,
-- `RemoveServer` and `rebalance`. The weight is a field of the server object, which a store maps to
-- by pointer. `scale w s` stands for `int(float64(w) * (float64(100) / float64(s)))`.
pub mod Exact
use godoxy.Prelude.{
  ℕ, zero, suc, ◌+◌, ◌-◌, ◌/◌, ◌%◌, Bool, true, false, Option, none, some, List, [], ◌∷◌, ltb, ◌==◌,
  if◌then◌else◌, length,
}
use godoxy.Prelude.Int.{ℤ, pos, negsuc, pos_part, neg_part, ◌+ℤ◌, ◌-ℤ◌, ltb_ℤ}
use godoxy.LoadBalancer.Defs.{Server}

abbrev pub max_weight : ℕ
max_weight = 100

abbrev pub Weights : Type 0
Weights = Server → ℤ

abbrev pub set_weight : Server → ℤ → Weights → Weights
set_weight s w ws t = if t == s then w else ws t

abbrev pub is_zero : ℤ → Bool
is_zero (pos n) = n == 0
is_zero (negsuc n) = false

-- The weights and the field `sumWeight`.
pub record Balance : Type 0 where
  pub weights : Weights
  pub sum_weight : ℤ

-- One round of a loop: `SetWeight`, and the change of `sumWeight`.
abbrev pub assign : Server → ℤ → ℤ → Balance → Balance
assign s w sum b = record { weights = set_weight s w b.weights; sum_weight = sum }

-- The loop that distributes evenly; `remainder` servers get one more.
distribute : ℕ → ℕ → List Server → Balance → Balance
distribute weight_each remainder [] b = b
distribute weight_each zero (s ∷ srvs) b =
    distribute weight_each zero srvs
      (assign s (pos weight_each) (b.sum_weight +ℤ pos weight_each) b)
distribute weight_each (suc remainder) (s ∷ srvs) b =
    distribute weight_each remainder srvs
      (assign s (pos (weight_each + 1)) (b.sum_weight +ℤ pos weight_each) b)

-- The loop that scales; `total` is the sum of the weights before it.
scale_all : (ℤ → ℤ → ℤ) → ℤ → List Server → Balance → Balance
scale_all scale total [] b = b
scale_all scale total (s ∷ srvs) b =
    scale_all scale total srvs
      (assign s (scale (b.weights s) total) (b.sum_weight +ℤ scale (b.weights s) total) b)

-- The loop that hands out the difference, one to a server.
spread : ℤ → List Server → Balance → Balance
spread delta [] b = b
spread (pos zero) (s ∷ srvs) b = b
spread (pos (suc n)) (s ∷ srvs) b =
    spread (pos n) srvs (assign s (b.weights s +ℤ pos 1) (b.sum_weight +ℤ pos 1) b)
spread (negsuc n) (s ∷ srvs) b =
    spread (negsuc n +ℤ pos 1) srvs (assign s (b.weights s -ℤ pos 1) (b.sum_weight -ℤ pos 1) b)

adjust : List Server → Balance → Balance
unfolding spread
adjust srvs b = spread (pos max_weight -ℤ b.sum_weight) srvs b

-- `rebalance`, for the servers in the order of the pool's iteration.
unfoldable pub rebalance : (ℤ → ℤ → ℤ) → List Server → Balance → Balance
unfolding distribute scale_all adjust
rebalance scale [] b = b
rebalance scale (s ∷ srvs) b =
    let n = length (s ∷ srvs) in
    if is_zero (b.sum_weight -ℤ pos max_weight)
    then b
    else if is_zero b.sum_weight
    then distribute (max_weight / n) (max_weight % n) (s ∷ srvs) b
    else adjust (s ∷ srvs) (
        scale_all scale b.sum_weight (s ∷ srvs)
          (record { weights = b.weights; sum_weight = pos 0 }))
