-- ===== src/LoadBalancer/Rebalance/Exact.antt =====
-- internal/net/gphttp/loadbalancer/loadbalancer.go: what the weights add up to after `rebalance`.
use mathlib.Core.Path.{subst}
use native.Mathlib.Nat.{mod-lt, div-add-mod', le_of_mul-le-mul_right}
use godoxy.Prelude.{
  ℕ, zero, suc, ◌+◌, ◌-◌, ◌*◌, ◌/◌, ◌%◌, ◌≤◌, ◌<◌, ◌≡◌, ◌≢◌, refl, sym, ap, ◌∙◌, false, List, [],
  ◌∷◌, arith, length, All,
}
use godoxy.Prelude.Int.{ℤ, pos, ◌+ℤ◌, ◌-ℤ◌, int_laws}
use godoxy.LoadBalancer.Defs.{Server}
use godoxy.LoadBalancer.Rebalance.{
  max_weight, Weights, set_weight, assign, is_zero, Balance, distribute, scale_all, spread, adjust,
  rebalance,
}

abbrev pub total : Weights → List Server → ℤ
total ws [] = pos 0
total ws (s ∷ srvs) = ws s +ℤ total ws srvs

-- No server stands twice in the list.
abbrev pub Distinct : List Server → Type 0
Distinct [] = Unit
Distinct (s ∷ srvs) = All (λ t. t ≢ s) srvs × Distinct srvs

total-set_weight :
    (ws : Weights) (s : Server) (w : ℤ) (srvs : List Server)
    → All (λ t. t ≢ s) srvs
    → total (set_weight s w ws) srvs ≡ total ws srvs
total-set_weight ws s w [] h = refl
total-set_weight ws s w (t ∷ srvs) h = ground (arith, total-set_weight ws s w srvs h.1)

-- The loops change only the weights of the servers that they visit.
distribute-other :
    (e r : ℕ) (t : Server) (srvs : List Server) (b : Balance)
    → All (λ s. s ≢ t) srvs
    → (distribute e r srvs b).weights t ≡ b.weights t
unfolding distribute
distribute-other e r t [] b h = refl
distribute-other e zero t (s ∷ srvs) b h = distribute-other e zero t srvs _ h.1 ∙ ground arith
distribute-other e (suc r) t (s ∷ srvs) b h = distribute-other e r t srvs _ h.1 ∙ ground arith

one_more : (e n : ℕ) (x y : ℤ) → x ≡ pos e → y ≡ pos n → x +ℤ y ≡ pos (e + n)
one_more e n x y p q = rw (p, q) (omega int_laws)

add_twice : (x : ℤ) (a b : ℕ) → x +ℤ pos a +ℤ pos b ≡ x +ℤ pos (a + b)
add_twice x a b = omega int_laws

add_zero : (x : ℤ) → x ≡ x +ℤ pos 0
add_zero x = omega int_laws

at_self : (ws : Weights) (s : Server) (w : ℤ) → set_weight s w ws s ≡ w
at_self ws s w = ground arith

distribute-total :
    (e r : ℕ) (srvs : List Server) (b : Balance)
    → Distinct srvs
    → r ≤ length srvs
    → (total (distribute e r srvs b).weights srvs ≡ pos (e * length srvs + r))
      × ((distribute e r srvs b).sum_weight ≡ b.sum_weight +ℤ pos (e * length srvs))
unfolding distribute
distribute-total e zero [] b d h =
    (ap pos (omega arith), add_zero b.sum_weight ∙ ap (λ n. b.sum_weight +ℤ pos n) (omega arith))
distribute-total e (suc r) [] b d h = absurd (omega arith)
distribute-total e zero (s ∷ srvs) b d h =
    let next : Balance = assign s (pos e) (b.sum_weight +ℤ pos e) b in
    let (p, q) = distribute-total e zero srvs next d.1 (omega arith) in
    let w : (distribute e zero srvs next).weights s ≡ pos e =
      distribute-other e zero s srvs next d.0 ∙ at_self b.weights s (pos e) in
    (
      one_more e (e * length srvs + 0) _ _ w p ∙ ap pos (omega arith),
      q
          ∙ add_twice b.sum_weight e (e * length srvs)
          ∙ ap (λ n. b.sum_weight +ℤ pos n) (omega arith),
    )
distribute-total e (suc r) (s ∷ srvs) b d h =
    let next : Balance = assign s (pos (e + 1)) (b.sum_weight +ℤ pos e) b in
    let (p, q) = distribute-total e r srvs next d.1 (omega arith) in
    let w : (distribute e r srvs next).weights s ≡ pos (e + 1) =
      distribute-other e r s srvs next d.0 ∙ at_self b.weights s (pos (e + 1)) in
    (
      one_more (e + 1) (e * length srvs + r) _ _ w p ∙ ap pos (omega arith),
      q
          ∙ add_twice b.sum_weight e (e * length srvs)
          ∙ ap (λ n. b.sum_weight +ℤ pos n) (omega arith),
    )

scale_all-other :
    (f : ℤ → ℤ → ℤ) (k : ℤ) (t : Server) (srvs : List Server) (b : Balance)
    → All (λ s. s ≢ t) srvs
    → (scale_all f k srvs b).weights t ≡ b.weights t
unfolding scale_all
scale_all-other f k t [] b h = refl
scale_all-other f k t (s ∷ srvs) b h = scale_all-other f k t srvs _ h.1 ∙ ground arith

-- `f` scales the weight of every server from a total of `k` to a total of 100, and errs by less than
-- one: the result lies between the exact quotient less one and the exact quotient.
abbrev pub Scales : (ℤ → ℤ → ℤ) → ℕ → Weights → List Server → Type 0
Scales f k ws srvs =
    All
      (λ s.
        (x : ℕ) × (y : ℕ) × (ws s ≡ pos x)
        × (f (ws s) (pos k) ≡ pos y)
        × (y * k ≤ 100 * x)
        × (100 * x ≤ (y + 1) * k))
      srvs

unchanged : (ws : Weights) (s t : Server) (w : ℤ) → t ≢ s → set_weight s w ws t ≡ ws t
unchanged ws s t w h = ground arith

Scales-set_weight :
    (f : ℤ → ℤ → ℤ) (k : ℕ) (ws : Weights) (s : Server) (w : ℤ) (srvs : List Server)
    → All (λ t. t ≢ s) srvs
    → Scales f k ws srvs
    → Scales f k (set_weight s w ws) srvs
Scales-set_weight f k ws s w [] d h = tt
Scales-set_weight f k ws s w (t ∷ srvs) d ((x, y, p, q, a, c), h) = (
  (x, y, unchanged ws s t w d.0 ∙ p, ap (λ v. f v (pos k)) (unchanged ws s t w d.0) ∙ q, a, c),
  Scales-set_weight f k ws s w srvs d.1 h,
)

scale_all-total :
    (f : ℤ → ℤ → ℤ) (k : ℕ) (srvs : List Server) (b : Balance)
    → Distinct srvs
    → Scales f k b.weights srvs
    → (x : ℕ) × (y : ℕ) × (total b.weights srvs ≡ pos x)
      × (total (scale_all f (pos k) srvs b).weights srvs ≡ pos y)
      × ((scale_all f (pos k) srvs b).sum_weight ≡ b.sum_weight +ℤ pos y)
      × (y * k ≤ 100 * x)
      × (100 * x ≤ (y + length srvs) * k)
unfolding scale_all
scale_all-total f k [] b d h = (0, 0, refl, refl, add_zero b.sum_weight, omega arith, omega arith)
scale_all-total f k (s ∷ srvs) b d ((x, y, p, q, a, c), h) =
    let w : ℤ = f (b.weights s) (pos k) in
    let next : Balance = assign s w (b.sum_weight +ℤ w) b in
    let (xs, ys, e, g, m, u, v) =
      scale_all-total f k srvs next d.1 (Scales-set_weight f k b.weights s w srvs d.0 h) in
    (
      x + xs,
      y + ys,
      one_more x xs _ _ p (sym (total-set_weight b.weights s w srvs d.0) ∙ e),
      one_more y ys _ _ (scale_all-other f (pos k) s srvs next d.0 ∙ at_self b.weights s w ∙ q) g,
      m ∙ ap (λ z. b.sum_weight +ℤ z +ℤ pos ys) q ∙ add_twice b.sum_weight y ys,
      omega arith,
      omega arith,
    )

spread-other :
    (n : ℕ) (t : Server) (srvs : List Server) (b : Balance)
    → All (λ s. s ≢ t) srvs
    → (spread (pos n) srvs b).weights t ≡ b.weights t
unfolding spread
spread-other n t [] b h = refl
spread-other zero t (s ∷ srvs) b h = refl
spread-other (suc n) t (s ∷ srvs) b h = spread-other n t srvs _ h.1 ∙ ground arith

regroup :
    (x y z : ℤ) (n : ℕ)
    → x ≡ y +ℤ pos 1
    → z +ℤ pos n ≡ z +ℤ pos n
    → x +ℤ (z +ℤ pos n) ≡ y +ℤ z +ℤ pos (suc n)
regroup x y z n e h = rw e (omega int_laws)

spread-total :
    (n : ℕ) (srvs : List Server) (b : Balance)
    → Distinct srvs
    → n ≤ length srvs
    → (total (spread (pos n) srvs b).weights srvs ≡ total b.weights srvs +ℤ pos n)
      × ((spread (pos n) srvs b).sum_weight ≡ b.sum_weight +ℤ pos n)
unfolding spread
spread-total zero [] b d h = (add_zero (pos 0), add_zero b.sum_weight)
spread-total (suc n) [] b d h = absurd (omega arith)
spread-total zero (s ∷ srvs) b d h = (add_zero _, add_zero b.sum_weight)
spread-total (suc n) (s ∷ srvs) b d h =
    let w : ℤ = b.weights s +ℤ pos 1 in
    let next : Balance = assign s w (b.sum_weight +ℤ pos 1) b in
    let (p, q) = spread-total n srvs next d.1 (omega arith) in
    (
      ap (λ z. (spread (pos n) srvs next).weights s +ℤ z)
            (p ∙ ap (λ z. z +ℤ pos n) (total-set_weight b.weights s w srvs d.0))
          ∙ regroup _ (b.weights s) (total b.weights srvs) n
              (spread-other n s srvs next d.0 ∙ at_self b.weights s w) refl,
      q ∙ add_twice b.sum_weight 1 n ∙ ap (λ j. b.sum_weight +ℤ pos j) (omega arith),
    )

zero_plus : (n : ℕ) → pos 0 +ℤ pos n ≡ pos n
zero_plus n = omega int_laws

pos-injective : {a b : ℕ} → pos a ≡ pos b → a ≡ b
pos-injective h = cc

up_to : (x : ℤ) (y : ℕ) → x ≡ pos y → y ≤ 100 → x +ℤ pos (100 - y) ≡ pos 100
up_to x y e h = rw e (omega int_laws)

minus : (y : ℕ) → y ≤ 100 → pos 100 -ℤ pos y ≡ pos (100 - y)
minus y h = omega int_laws

adjust_lem :
    (srvs : List Server) (b : Balance) (y : ℕ)
    → b.sum_weight ≡ pos y
    → y ≤ 100
    → adjust srvs b ≡ spread (pos (100 - y)) srvs b
unfolding adjust
adjust_lem srvs b y e h = ap (λ d. spread d srvs b) (ap (λ z. pos 100 -ℤ z) e ∙ minus y h)

rebalance-distribute :
    (f : ℤ → ℤ → ℤ) (s : Server) (srvs : List Server) (b : Balance)
    → b.sum_weight ≡ pos 0
    → rebalance f (s ∷ srvs) b
      ≡ distribute (max_weight / length (s ∷ srvs)) (max_weight % length (s ∷ srvs)) (s ∷ srvs) b
unfolding rebalance ◌-ℤ◌
rebalance-distribute f s srvs b h = rw h refl

-- With a sum of 0, `rebalance` gives the servers weights that add up to exactly 100, and the field
-- `sumWeight` the value 100 less the remainder of 100 by the number of servers.
pub rebalance-even :
    (f : ℤ → ℤ → ℤ) (srvs : List Server) (b : Balance)
    → Distinct srvs
    → 0 < length srvs
    → b.sum_weight ≡ pos 0
    → (total (rebalance f srvs b).weights srvs ≡ pos 100)
      × ((rebalance f srvs b).sum_weight ≡ pos (100 - 100 % length srvs))
rebalance-even f [] b d k h = absurd (omega arith)
rebalance-even f (s ∷ srvs) b d k h =
    let n : ℕ = length (s ∷ srvs) in
    let (p, q) =
      distribute-total (100 / n) (100 % n) (s ∷ srvs) b d (omega (arith, mod-lt 100 k)) in
    subst (λ r. (total r.weights (s ∷ srvs) ≡ pos 100) × (r.sum_weight ≡ pos (100 - 100 % n)))
      (sym (rebalance-distribute f s srvs b h))
      (
        p ∙ ap pos (div-add-mod' 100 n),
        q
            ∙ ap (λ z. z +ℤ pos (100 / n * n)) h
            ∙ zero_plus (100 / n * n)
            ∙ ap pos (omega (arith, div-add-mod' 100 n)),
      )

is_zero-sub : (x : ℤ) (k : ℕ) → x ≡ pos k → k ≢ 100 → is_zero (x -ℤ pos 100) ≡ false
unfolding ◌-ℤ◌
is_zero-sub x k e h = rw e (ground arith)

is_zero-pos : (x : ℤ) (k : ℕ) → x ≡ pos k → k ≢ 0 → is_zero x ≡ false
is_zero-pos x k e h = rw e (ground arith)

mul_cancel : (a b k : ℕ) → k ≢ 0 → a * k ≤ b * k → a ≤ b
mul_cancel a b k h e = le_of_mul-le-mul_right e (omega arith)

room : (a b n : ℕ) → a ≤ b + n → a - b ≤ n
room a b n h = omega arith

rebalance-adjust :
    (f : ℤ → ℤ → ℤ) (k : ℕ) (s : Server) (srvs : List Server) (b : Balance)
    → b.sum_weight ≡ pos k
    → k ≢ 0
    → k ≢ 100
    → rebalance f (s ∷ srvs) b
      ≡ adjust
          (s ∷ srvs)
          (scale_all f (pos k) (s ∷ srvs) (record { weights = b.weights; sum_weight = pos 0 }))
unfolding rebalance
rebalance-adjust f k s srvs b h z e =
    rw (is_zero-sub b.sum_weight k h e, is_zero-pos b.sum_weight k h z)
      (ap
        (λ t.
          adjust (s ∷ srvs)
            (scale_all f t (s ∷ srvs) (record { weights = b.weights; sum_weight = pos 0 })))
        h)

-- With a positive sum other than 100 that is the sum of the weights, and a scaling that errs by less
-- than one for each server, `rebalance` leaves weights and a `sumWeight` of exactly 100.
pub rebalance-scaled :
    (f : ℤ → ℤ → ℤ) (k : ℕ) (srvs : List Server) (b : Balance)
    → Distinct srvs
    → b.sum_weight ≡ pos k
    → total b.weights srvs ≡ pos k
    → k ≢ 0
    → k ≢ 100
    → Scales f k b.weights srvs
    → (total (rebalance f srvs b).weights srvs ≡ pos 100)
      × ((rebalance f srvs b).sum_weight ≡ pos 100)
rebalance-scaled f k [] b d h t z e c = absurd (z (pos-injective (sym t)))
rebalance-scaled f k (s ∷ srvs) b d h t z e c =
    let start : Balance = record { weights = b.weights; sum_weight = pos 0 } in
    let (x, y, p, q, m, u, v) = scale_all-total f k (s ∷ srvs) start d c in
    let same : x ≡ k = pos-injective (sym p ∙ t) in
    let b' : Balance = scale_all f (pos k) (s ∷ srvs) start in
    let sum : b'.sum_weight ≡ pos y = m ∙ zero_plus y in
    let low : y ≤ 100 = mul_cancel y 100 k z (subst (λ j. y * k ≤ 100 * j) same u) in
    let high : 100 - y ≤ length (s ∷ srvs) = room 100 y _ (
      mul_cancel 100 (y + length (s ∷ srvs)) k z
        (subst (λ j. 100 * j ≤ (y + length (s ∷ srvs)) * k) same v)) in
    let (g, w) = spread-total (100 - y) (s ∷ srvs) b' d high in
    subst (λ r. (total r.weights (s ∷ srvs) ≡ pos 100) × (r.sum_weight ≡ pos 100))
      (sym (rebalance-adjust f k s srvs b h z e ∙ adjust_lem (s ∷ srvs) b' y sum low))
      (g ∙ up_to _ y q low, w ∙ up_to _ y sum low)
