-- ===== src/LoadBalancer/IpHash.antt =====
-- internal/net/gphttp/loadbalancer/ip_hash.go: a server by the hash of the client's address. The hash
-- (xxhash3) and the real-ip middleware are arguments.
use Prim.Native.String.{String}
use native.Mathlib.Nat.{mod-lt}
use godoxy.Prelude.{
  ℕ, zero, suc, ◌+◌, ◌%◌, ◌<◌, ◌≡◌, ◌≢◌, inl, inr, refl, sym, ap, ◌∙◌, Bool, Option, none, some,
  List, [], ◌∷◌, ◌++◌, arith, leb, ◌==◌, if◌then◌else◌, length, get_elem?, take, drop, In, All,
}
use godoxy.Health.Status.{HealthStatus, bad}
use godoxy.LoadBalancer.Defs.{
  Server, Request, Reply, http_error, served, status_service_unavailable,
}

abbrev pub Pool : Type 0
Pool = List Server

-- `slices.Delete(s, i, j)` removes `s[i:j]`; `none` is its panic on `i > j` or `j > len(s)`.
unfoldable pub slices_delete {ℓ} : {A : Type ℓ} → List A → ℕ → ℕ → Option (List A)
slices_delete xs i j =
    if leb i j then if leb j (length xs) then some (take i xs ++ drop j xs) else none else none

unfoldable pub on_add_server : Server → Pool → Pool
on_add_server srv pool = pool ++ srv ∷ []

-- The loop of `OnRemoveServer`: `rest` is what is left of the pool from index `i` on.
remove_from : Server → Pool → ℕ → Pool → Option Pool
unfolding slices_delete
remove_from srv pool i [] = some pool
remove_from srv pool i (s ∷ rest) =
    if s == srv then slices_delete pool i 1 else remove_from srv pool (i + 1) rest

unfoldable pub on_remove_server : Server → Pool → Option Pool
unfolding remove_from
on_remove_server srv pool = remove_from srv pool 0 pool

abbrev pub remote_ip : Request → String
remote_ip r = elim r.remote_host [ none ↦ r.remote_addr | some ip ↦ ip ]

unfoldable pub choose_server : (String → ℕ) → Pool → Request → Option Server
choose_server hash [] r = none
choose_server hash (s ∷ pool) r = get_elem? (s ∷ pool) (hash (remote_ip r) % length (s ∷ pool))

-- The end of `ServeHTTP`, for the server that was chosen.
answer : (Server → HealthStatus) → Option Server → Reply
unfolding bad
answer status none = http_error status_service_unavailable
answer status (some srv) =
    if bad (status srv) then http_error status_service_unavailable else served srv

-- What `TryModifyRequest` of the real-ip middleware returns: whether to go on, and the request.
abbrev pub RealIp : Type 0
RealIp = Request → Bool × Request

-- `none` is a request that the middleware has answered itself.
unfoldable pub serve_http :
    (String → ℕ) → (Server → HealthStatus) → Option RealIp → Pool → Request → Option Reply
unfolding answer
serve_http hash status none pool r = some (answer status (choose_server hash pool r))
serve_http hash status (some real_ip) pool r =
    if (real_ip r).0 then some (answer status (choose_server hash pool (real_ip r).1)) else none

In-get_elem? : (xs : List Server) (i : ℕ) (s : Server) → get_elem? xs i ≡ some s → In s xs
In-get_elem? [] i s h = cc
In-get_elem? (x ∷ xs) zero s h = inl (ground arith)
In-get_elem? (x ∷ xs) (suc i) s h = inr (In-get_elem? xs i s h)

get_elem?-some :
    (xs : List Server) (i : ℕ) → i < length xs → (s : Server) × (get_elem? xs i ≡ some s)
get_elem?-some [] i h = absurd (omega arith)
get_elem?-some (x ∷ xs) zero h = (x, refl)
get_elem?-some (x ∷ xs) (suc i) h = get_elem?-some xs i (omega arith)

-- From a pool that is not empty a server of the pool is always chosen, and requests whose addresses
-- have the same host part get the same one.
pub choose_server-remote_ip :
    (hash : String → ℕ) (pool : Pool) (r r' : Request)
    → 0 < length pool
    → remote_ip r ≡ remote_ip r'
    → (s : Server) × (choose_server hash pool r ≡ some s)
      × (choose_server hash pool r' ≡ some s)
      × In s pool
unfolding choose_server
choose_server-remote_ip hash [] r r' h e = absurd (omega arith)
choose_server-remote_ip hash (x ∷ pool) r r' h e =
    let (s, q) =
      get_elem?-some (x ∷ pool) (hash (remote_ip r) % length (x ∷ pool)) (mod-lt _ (omega arith)) in
    (
      s,
      q,
      ap (λ ip. get_elem? (x ∷ pool) (hash ip % length (x ∷ pool))) (sym e) ∙ q,
      In-get_elem? (x ∷ pool) _ s q,
    )

-- The loop reaches the first occurrence of the server.
remove_from_lem :
    (srv : Server) (pool before after : Pool) (i j : ℕ)
    → All (λ s. s ≢ srv) before
    → j ≡ i + length before
    → remove_from srv pool i (before ++ srv ∷ after) ≡ slices_delete pool j 1
unfolding remove_from
remove_from_lem srv pool [] after i j h e = ground arith
remove_from_lem srv pool (x ∷ before) after i j h e =
    ground (arith, remove_from_lem srv pool before after (i + 1) j h.1)

-- What `OnRemoveServer` makes of a server at index `i`, with the servers before and after it.
abbrev pub removal : Pool → Server → Pool → Option Pool
removal [] srv after = some after
removal (x ∷ []) srv after = some (x ∷ srv ∷ after)
removal (x ∷ y ∷ before) srv after = none

-- `OnRemoveServer` removes a server that is first in the pool, leaves the pool as it was for a server
-- that is second, and panics for a server that stands later, whatever follows it.
pub on_remove_server-removal :
    (srv : Server) (before after : Pool)
    → All (λ s. s ≢ srv) before
    → on_remove_server srv (before ++ srv ∷ after) ≡ removal before srv after
unfolding on_remove_server
on_remove_server-removal srv [] after h =
    remove_from_lem srv (srv ∷ after) [] after 0 0 h refl ∙ delete_first
  where
    delete_first : slices_delete (srv ∷ after) 0 1 ≡ some after
    delete_first = ground arith
on_remove_server-removal srv (x ∷ []) after h =
    remove_from_lem srv (x ∷ srv ∷ after) (x ∷ []) after 0 1 h (omega arith) ∙ ground arith
on_remove_server-removal srv (x ∷ y ∷ before) after h =
    remove_from_lem srv (x ∷ y ∷ before ++ srv ∷ after) (x ∷ y ∷ before) after 0
      (suc (suc (length before))) h (omega arith)
    ∙ ground arith
