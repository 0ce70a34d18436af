-- ===== src/Entrypoint/Hosts.antt =====
-- internal/entrypoint/entrypoint.go: host names that lead to the route of their alias.
use godoxy.Prelude.{
  ℕ, ◌-◌, ◌≡◌, ◌≢◌, refl, ap, true, none, some, List, [], ◌∷◌, ◌++◌, arith, leb, length, take, drop,
  All, length-append,
}
use godoxy.Prelude.Bytes.{Bytes, bytes_eq_refl}
use godoxy.Entrypoint.{
  Route, Routes, before, find_route_any_domain, cut_suffix, strip_port, find_route_by_domains,
  dotted, find_route,
}

-- No byte of the text is `sep`.
abbrev pub Without : ℕ → Bytes → Type 0
Without sep s = All (λ c. c ≢ sep) s

before-first : (sep : ℕ) (a b : Bytes) → Without sep a → before sep (a ++ sep ∷ b) ≡ some a
unfolding before
before-first sep [] b h = ground arith
before-first sep (c ∷ a) b h = ground (arith, before-first sep a b h.1)

before-none : (sep : ℕ) (a : Bytes) → Without sep a → before sep a ≡ none
unfolding before
before-none sep [] h = refl
before-none sep (c ∷ a) h = ground (arith, before-none sep a h.1)

-- Without configured domains a host leads to the route of the part before its first dot, if there
-- is such a route, whatever the domain is.
pub find_route-any_domain :
    (routes : Routes) (alias domain : Bytes) (r : Route)
    → Without b'.' alias
    → routes alias ≡ some r
    → find_route routes [] (alias ++ b'.' ∷ domain) ≡ some r
unfolding find_route find_route_any_domain
find_route-any_domain routes alias domain r h e = rw (before-first b'.' alias domain h, e) refl

drop-append : (a d : Bytes) → drop (length a) (a ++ d) ≡ d
drop-append [] d = refl
drop-append (c ∷ a) d = drop-append a d

take-append : (a d : Bytes) → take (length a) (a ++ d) ≡ a
take-append [] [] = refl
take-append [] (c ∷ d) = refl
take-append (c ∷ a) d = ap (λ t. c ∷ t) (take-append a d)

length-append_sub : (a d : Bytes) → length (a ++ d) - length d ≡ length a
length-append_sub a d = omega (arith, length-append a d)

leb-length_append : (a d : Bytes) → leb (length d) (length (a ++ d)) ≡ true
leb-length_append a d = ground (arith, length-append a d)

cut_suffix-append : (a d : Bytes) → cut_suffix (a ++ d) d ≡ some a
unfolding cut_suffix
cut_suffix-append a d =
    rw
      (
        leb-length_append a d,
        length-append_sub a d,
        drop-append a d,
        bytes_eq_refl d,
        take-append a d,
      )
      refl

strip_port-port : (host port : Bytes) → Without b':' host → strip_port (host ++ b':' ∷ port) ≡ host
unfolding strip_port
strip_port-port host port h = rw (before-first b':' host port h, strip_port) refl

-- With configured domains a host that is an alias followed by the first of them, with or without the
-- leading dot in the configuration and with a port behind it, leads to the route of the alias.
pub find_route-first_domain :
    (routes : Routes) (alias domain port : Bytes) (domains : List Bytes) (r : Route)
    → Without b':' (alias ++ b'.' ∷ domain)
    → routes alias ≡ some r
    → (find_route routes ((b'.' ∷ domain) ∷ domains) ((alias ++ b'.' ∷ domain) ++ b':' ∷ port)
        ≡ some r)
unfolding find_route find_route_by_domains dotted
find_route-first_domain routes alias domain port domains r h e =
    rw (strip_port-port (alias ++ b'.' ∷ domain) port h, cut_suffix-append alias (b'.' ∷ domain), e)
      refl
