-- ===== src/LoadBalancer/RoundRobin.antt =====
-- internal/net/gphttp/loadbalancer/round_robin.go: a shared 32-bit counter.
use mathlib.Core.Path.{ap₂, ◌≡⟨◌⟩◌, ◌∎}
use native.Mathlib.Nat.{
  mod-lt, mod-eq_of_lt, mul-add-mod_self_right, add-zero, zero-add, div-add-mod',
}
use godoxy.Prelude.{
  ℕ, zero, suc, ◌+◌, ◌-◌, ◌*◌, ◌%◌, ◌/◌, In, inl, inr, length-drop, sym, ◌≤◌, ◌<◌, ◌≡◌, refl, ap,
  ◌∙◌, Option, none, some, List, [], ◌∷◌, ◌++◌, arith, length, get_elem?, take, drop, map,
}
use godoxy.LoadBalancer.Defs.{Server}

abbrev pub u32 : ℕ
u32 = 4294967296

-- `index.Add(1) - 1` in `uint32`.
unfoldable pub next_index : ℕ → ℕ
next_index index = ((index + 1) % u32 + u32 - 1) % u32

-- The new counter, and the server chosen.
unfoldable pub choose_server : ℕ → List Server → ℕ × Option Server
unfolding next_index
choose_server index [] = (index, none)
choose_server index (s ∷ srvs) =
    ((index + 1) % u32, get_elem? (s ∷ srvs) (next_index index % (length (s ∷ srvs) % u32)))

-- The servers that `n` calls in a row choose from one list.
unfoldable pub choose_many : ℕ → ℕ → List Server → List (Option Server)
unfolding choose_server
choose_many zero index srvs = []
choose_many (suc n) index srvs =
    (choose_server index srvs).1 ∷ choose_many n (choose_server index srvs).0 srvs

next_index_lem : (index : ℕ) → index < u32 → next_index index ≡ index
unfolding next_index
next_index_lem index h = omega arith

-- The server at the counter modulo the number of servers.
choose_server_lem :
    (index : ℕ) (srvs : List Server)
    → index < u32
    → 0 < length srvs
    → length srvs < u32
    → choose_server index srvs ≡ ((index + 1) % u32, get_elem? srvs (index % length srvs))
unfolding choose_server
choose_server_lem index [] h k l = absurd (omega arith)
choose_server_lem index (s ∷ srvs) h k l = rw (next_index_lem index h, mod-eq_of_lt l)

take-drop_step :
    (n i : ℕ) (xs : List Server)
    → i < length xs
    → map some (take (suc n) (drop i xs)) ≡ get_elem? xs i ∷ map some (take n (drop (suc i) xs))
take-drop_step n i [] h = absurd (omega arith)
take-drop_step n zero (x ∷ xs) h = refl
take-drop_step n (suc i) (x ∷ xs) h = take-drop_step n i xs (omega arith)

position : (index i q n : ℕ) → index ≡ q * n + i → i < n → index % n ≡ i
position index i q n e h = rw (e, mul-add-mod_self_right q n i) (mod-eq_of_lt h)

choose_server_at :
    (index i q : ℕ) (srvs : List Server)
    → index + 1 < u32
    → length srvs < u32
    → index ≡ q * length srvs + i
    → i < length srvs
    → choose_server index srvs ≡ (index + 1, get_elem? srvs i)
choose_server_at index i q srvs a b c d =
    choose_server_lem index srvs (omega arith) (omega arith) b
    ∙ (λ k. (mod-eq_of_lt a k, get_elem? srvs (position index i q (length srvs) c d k)))

-- `n` calls while neither the counter wraps nor the list ends: the next `n` servers in order.
choose_straight :
    (n index i q : ℕ) (srvs : List Server)
    → index + n < u32
    → length srvs < u32
    → index ≡ q * length srvs + i
    → i + n ≤ length srvs
    → choose_many n index srvs ≡ map some (take n (drop i srvs))
unfolding choose_many
choose_straight zero index i q srvs a b c d = refl
choose_straight (suc n) index i q srvs a b c d = rw (
  choose_server_at index i q srvs (omega arith) b c (omega arith),
  take-drop_step n i srvs (omega arith),
  choose_straight n (index + 1) (suc i) q srvs (omega arith) b (omega arith) (omega arith),
)

suc-add : (n m : ℕ) → suc n + m ≡ suc (n + m)
suc-add n m = omega arith

add-suc' : (n m : ℕ) → n + suc m ≡ n + 1 + m
add-suc' n m = omega arith

choose_server_next :
    (index : ℕ) (srvs : List Server)
    → index + 1 < u32
    → 0 < length srvs
    → length srvs < u32
    → (choose_server index srvs).0 ≡ index + 1
choose_server_next index srvs a b c =
    ap (λ r. r.0) (choose_server_lem index srvs (omega arith) b c) ∙ mod-eq_of_lt a

-- The counter after `n` calls.
choose_many-add :
    (n m index : ℕ) (srvs : List Server)
    → index + n < u32
    → 0 < length srvs
    → length srvs < u32
    → choose_many (n + m) index srvs ≡ choose_many n index srvs ++ choose_many m (index + n) srvs
unfolding choose_many
choose_many-add zero m index srvs a b c = rw (zero-add, add-zero)
choose_many-add (suc n) m index srvs a b c =
    rw (suc-add n m, add-suc' index n, choose_server_next index srvs (omega arith) b c)
      (ap (λ r. (choose_server index srvs).1 ∷ r)
        (choose_many-add n m (index + 1) srvs (omega arith) b c))

take-all : (n : ℕ) (xs : List Server) → length xs ≤ n → take n xs ≡ xs
take-all zero [] h = refl
take-all zero (x ∷ xs) h = absurd (omega arith)
take-all (suc n) [] h = refl
take-all (suc n) (x ∷ xs) h = ap (λ r. x ∷ r) (take-all n xs (omega arith))

rejoin : (n i : ℕ) → i ≤ n → n ≡ n - i + i
rejoin n i h = omega arith

get_elem?-some :
    (i : ℕ) (xs : List Server) → i < length xs → (s : Server) × (get_elem? xs i ≡ some s)
get_elem?-some i [] h = absurd (omega arith)
get_elem?-some zero (x ∷ xs) h = (x, refl)
get_elem?-some (suc i) (x ∷ xs) h = get_elem?-some i xs (omega arith)

full_cycle :
    (index i q : ℕ) (srvs : List Server)
    → index + length srvs < u32
    → index ≡ q * length srvs + i
    → i < length srvs
    → choose_many (length srvs) index srvs ≡ map some (drop i srvs) ++ map some (take i srvs)
full_cycle index i q srvs a c d =
    choose_many (length srvs) index srvs
    ≡⟨ ap (λ n. choose_many n index srvs) (rejoin (length srvs) i (omega arith)) ⟩
      choose_many (length srvs - i + i) index srvs
    ≡⟨ choose_many-add (length srvs - i) i index srvs (omega arith) (omega arith) (omega arith) ⟩
      choose_many (length srvs - i) index srvs ++ choose_many i (index + (length srvs - i)) srvs
    ≡⟨ ap₂ (λ xs ys. xs ++ ys)
        (choose_straight (length srvs - i) index i q srvs (omega arith) (omega arith) c
          (omega arith))
        (choose_straight i (index + (length srvs - i)) 0 (q + 1) srvs (omega arith) (omega arith)
          (omega arith) (omega arith)) ⟩
      map some (take (length srvs - i) (drop i srvs)) ++ map some (take i srvs)
    ≡⟨ ap (λ xs. map some xs ++ map some (take i srvs))
        (take-all (length srvs - i) (drop i srvs) (omega (arith, length-drop i srvs))) ⟩
      map some (drop i srvs) ++ map some (take i srvs) ∎

-- While the counter does not wrap, as many calls as there are servers choose every server once: the
-- list rotated to start at the counter modulo its length.
pub choose_many-rotation :
    (index : ℕ) (srvs : List Server)
    → 0 < length srvs
    → index + length srvs < u32
    → choose_many (length srvs) index srvs
      ≡ map some (drop (index % length srvs) srvs) ++ map some (take (index % length srvs) srvs)
choose_many-rotation index srvs b a =
    full_cycle index (index % length srvs) (index / length srvs) srvs a
      (sym (div-add-mod' index (length srvs))) (mod-lt index b)

-- For a 32-bit counter and a list that a 32-bit number counts, the choice is the server at the
-- counter modulo the length, it is one of the list, and it is made whenever there is one.
pub choose_server_total :
    (index : ℕ) (srvs : List Server)
    → index < u32
    → 0 < length srvs
    → length srvs < u32
    → (s : Server) × ((choose_server index srvs).1 ≡ some s)
      × (get_elem? srvs (index % length srvs) ≡ some s)
choose_server_total index srvs a b c =
    let (s, e) = get_elem?-some (index % length srvs) srvs (mod-lt index b) in
    (s, ap (λ r. r.1) (choose_server_lem index srvs a b c) ∙ e, e)

In-get_elem? : (xs : List Server) (i : ℕ) (s : Server) → get_elem? xs i ≡ some s → In s xs
In-get_elem? [] i s h = cc
In-get_elem? (x ∷ xs) zero s h = inl (ground arith)
In-get_elem? (x ∷ xs) (suc i) s h = inr (In-get_elem? xs i s h)

pub choose_server-In :
    (index : ℕ) (srvs : List Server) (s : Server)
    → (choose_server index srvs).1 ≡ some s
    → In s srvs
unfolding choose_server
choose_server-In index [] s h = cc
choose_server-In index (x ∷ srvs) s h = In-get_elem? (x ∷ srvs) _ s h
