-- ===== src/Middleware/Tests.antt =====
-- internal/net/gphttp/middleware: a chain in a chain, on a counter; addresses that are allowed or
-- trusted by their first byte.
use godoxy.Prelude.{ℕ, ◌+◌, ◌≡◌, ◌⊎◌, refl, Bool, true, false, none, some, [], ◌∷◌, ◌==◌}
use godoxy.Prelude.Bytes.{Bytes}
use godoxy.Middleware.CidrWhitelist.{any_contains, ip_str, check_ips, check_ips_lem}
use godoxy.Middleware.RealIp.{
  Request, RealIpOpts, Reported, client_ip, is_in_cidr_list, real_ips, set_real_ip, set_real_ip_lem,
}
use godoxy.Middleware.{
  Impl, own, new_middleware_chain, with_check_bypass, try_modify_request, modify_response,
}
use godoxy.Middleware.Flatten.{new_middleware_chain-nested}

abbrev counts : Impl ℕ
counts = own (some (λ n. (n + 1, true))) none

abbrev refuses : Impl ℕ
refuses = own (some (λ n. (n + 10, false))) (some (λ n. (n, true)))

-- A middleware that is always bypassed.
abbrev skipped : Impl ℕ
unfolding with_check_bypass
skipped = with_check_bypass ((λ n. true) ∷ []) [] (some (λ n. (n, false))) none

new_middleware_chain-nested_example :
    (try_modify_request
        (new_middleware_chain
          (counts ∷ new_middleware_chain (skipped ∷ refuses ∷ []) ∷ counts ∷ []))
        0
      ≡ try_modify_request (new_middleware_chain (counts ∷ skipped ∷ refuses ∷ counts ∷ [])) 0)
    × (modify_response
          (new_middleware_chain
            (counts ∷ new_middleware_chain (skipped ∷ refuses ∷ []) ∷ counts ∷ []))
          0
        ≡ modify_response (new_middleware_chain (counts ∷ skipped ∷ refuses ∷ counts ∷ [])) 0)
new_middleware_chain-nested_example =
    new_middleware_chain-nested (counts ∷ []) (skipped ∷ refuses ∷ []) (counts ∷ []) 0

abbrev starts_with : ℕ → Bytes → Bool
starts_with n [] = false
starts_with n (c ∷ s) = c == n

-- The first address is asked twice; the second time it is in the cache.
check_ips_lem_example :
    check_ips
      (λ s. some s)
      (λ s. s)
      starts_with
      (1 ∷ 4 ∷ [])
      ((4 ∷ 2 ∷ []) ∷ (7 ∷ []) ∷ (4 ∷ 2 ∷ []) ∷ (7 ∷ []) ∷ [])
      (λ a. none)
    ≡ true ∷ false ∷ true ∷ false ∷ []
unfolding any_contains ip_str
check_ips_lem_example =
    check_ips_lem (λ s. some s) (λ s. s) starts_with (1 ∷ 4 ∷ [])
      ((4 ∷ 2 ∷ []) ∷ (7 ∷ []) ∷ (4 ∷ 2 ∷ []) ∷ (7 ∷ []) ∷ []) (λ a. none) (λ a b e. absurd (cc e))

abbrev trusts_ten : RealIpOpts ℕ
trusts_ten = record { header_name = 1 ∷ []; from = 10 ∷ []; recursive = true }

abbrev forwarded : Request
forwarded = record {
  remote_addr = 10 ∷ 0 ∷ [];
  header = λ k. (5 ∷ []) ∷ (6 ∷ []) ∷ (10 ∷ 3 ∷ []) ∷ [];
}

abbrev trusted : Bytes → Bool
trusted = is_in_cidr_list (λ s. some s) (λ s. s) starts_with (λ k. k) (2 ∷ []) trusts_ten

abbrev asked : Request → Bytes
asked = client_ip (λ s. some s) (λ s. s) starts_with (λ k. k) (2 ∷ []) trusts_ten

abbrev set_real : Request → Request
set_real = set_real_ip (λ s. some s) (λ s. s) starts_with (λ k. k) (2 ∷ []) trusts_ten

set_real_ip_lem_example :
    ((trusted (asked forwarded) ≡ false) × (set_real forwarded ≡ forwarded))
    ⊎ ((trusted (asked forwarded) ≡ true)
        × Reported
            (λ s. some s)
            (λ s. s)
            starts_with
            (λ k. k)
            (2 ∷ [])
            trusts_ten
            (real_ips (λ s. some s) (λ s. s) starts_with (λ k. k) (2 ∷ []) trusts_ten forwarded)
            forwarded
            (set_real forwarded))
set_real_ip_lem_example =
    set_real_ip_lem (λ s. some s) (λ s. s) starts_with (λ k. k) (2 ∷ []) trusts_ten refl forwarded
