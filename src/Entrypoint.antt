-- ===== src/Entrypoint.antt =====
-- internal/entrypoint/entrypoint.go: which route a host name leads to. `routes` is the lookup in the
-- pool of HTTP routes (`routes.HTTP.Get`); a route is a number.
mod Tests
pub mod Hosts
pub mod ShortLink
use godoxy.Prelude.{
  ℕ, zero, suc, ◌-◌, Bool, true, false, Option, none, some, List, [], ◌∷◌, ◌++◌, leb, ◌==◌,
  if◌then◌else◌, length, take, drop,
}
use godoxy.Prelude.Bytes.{Bytes, bytes_eq}

abbrev pub Route : Type 0
Route = ℕ

abbrev pub Routes : Type 0
Routes = Bytes → Option Route

-- `strings.Cut` and `IndexByte` at one byte: the text before its first occurrence, if there is one.
unfoldable pub before : ℕ → Bytes → Option Bytes
before sep [] = none
before sep (c ∷ cs) =
    if c == sep then some [] else elim (before sep cs) [ none ↦ none | some b ↦ some (c ∷ b) ]

abbrev or_else : Option Route → Option Route → Option Route
or_else none r = r
or_else (some a) r = some a

abbrev lookup_part : Routes → Option Bytes → Option Route
lookup_part routes none = none
lookup_part routes (some b) = routes b

-- `findRouteAnyDomain`.
unfoldable pub find_route_any_domain : Routes → Bytes → Option Route
find_route_any_domain routes host =
    or_else (lookup_part routes (before b'.' host))
      (or_else (routes host) (lookup_part routes (before b':' host)))

-- `strings.CutSuffix`.
unfoldable pub cut_suffix : Bytes → Bytes → Option Bytes
cut_suffix host domain =
    let k : ℕ = length host - length domain in
    if leb (length domain) (length host)
    then if bytes_eq (drop k host) domain then some (take k host) else none
    else none

unfoldable pub strip_port : Bytes → Bytes
strip_port host = elim (before b':' host) [ none ↦ host | some b ↦ b ]

-- The loop of `findRouteByDomains`, with the exact match after it.
find_in_domains : Routes → List Bytes → Bytes → Option Route
unfolding cut_suffix
find_in_domains routes [] host = routes host
find_in_domains routes (d ∷ ds) host =
    or_else (lookup_part routes (cut_suffix host d)) (find_in_domains routes ds host)

unfoldable pub find_route_by_domains : Routes → List Bytes → Bytes → Option Route
unfolding find_in_domains strip_port
find_route_by_domains routes domains host = find_in_domains routes domains (strip_port host)

-- The loop of `SetFindRouteDomains`: every domain begins with a dot.
with_dot : Bytes → Bytes
with_dot [] = b'.' ∷ []
with_dot (c ∷ cs) = if c == b'.' then c ∷ cs else b'.' ∷ c ∷ cs

unfoldable pub dotted : List Bytes → List Bytes
unfolding with_dot
dotted [] = []
dotted (d ∷ ds) = with_dot d ∷ dotted ds

-- `FindRoute`, after `SetFindRouteDomains(domains)`.
unfoldable pub find_route : Routes → List Bytes → Bytes → Option Route
find_route routes [] host = find_route_any_domain routes host
find_route routes (d ∷ ds) host = find_route_by_domains routes (dotted (d ∷ ds)) host
