-- ===== src/RoutePorts.antt =====
-- internal/route: the scheme and the ports that a route gets (Finalize of route.go, port_selection.go,
-- types/scheme.go). A port mapping is the list of its entries in the order of an iteration. The
-- alias and the host are given trimmed and in lower case; the defaults of the health check are not
-- modelled.
pub mod Finalized
mod Tests
use Prim.Native.String.{String}
use text.Mathlib.Text.{◌==◌ as str_eq}
use godoxy.Prelude.{
  ℕ, ◌%◌, Bool, true, false, ◌&&◌, Option, none, some, List, [], ◌∷◌, ltb, ◌==◌, if◌then◌else◌,
}

pub data Scheme : Type 0 where
  unset http https h2c tcp udp fileserver : Scheme

-- A port of a container (`container.PortSummary`).
pub record PortSummary : Type 0 where
  pub private_port : ℕ
  pub public_port : ℕ
  pub is_udp : Bool

abbrev pub PortMapping : Type 0
PortMapping = List (ℕ × PortSummary)

pub record Container : Type 0 where
  pub image_name : String
  pub is_host_network_mode : Bool
  pub public_port_mapping : PortMapping
  pub private_port_mapping : PortMapping
  pub public_hostname : String
  pub private_hostname : String

pub record Route : Type 0 where
  pub alias : String
  pub host : String
  pub scheme : Scheme
  pub listening : ℕ
  pub proxy : ℕ
  pub container : Option Container

abbrev pub Ports : Type 0
Ports = List (String × ℕ)

abbrev image_name_port_map_tcp : Ports
image_name_port_map_tcp =
    ("mssql", 1433)
    ∷ ("mysql", 3306)
    ∷ ("mariadb", 3306)
    ∷ ("postgres", 5432)
    ∷ ("pgvecto-rs", 5432)
    ∷ ("pgvector", 5432)
    ∷ ("rabbitmq", 5672)
    ∷ ("redis", 6379)
    ∷ ("memcached", 11211)
    ∷ ("mongo", 27017)
    ∷ ("minecraft-server", 25565)
    ∷ []

abbrev image_name_port_map_http : Ports
image_name_port_map_http =
    ("adguardhome", 3000)
    ∷ ("bazarr", 6767)
    ∷ ("calibre-web", 8083)
    ∷ ("changedetection.io", 3000)
    ∷ ("dockge", 5001)
    ∷ ("gitea", 3000)
    ∷ ("gogs", 3000)
    ∷ ("grafana", 3000)
    ∷ ("home-assistant", 8123)
    ∷ ("homebridge", 8581)
    ∷ ("httpd", 80)
    ∷ ("immich", 3001)
    ∷ ("jellyfin", 8096)
    ∷ ("lidarr", 8686)
    ∷ ("microbin", 8080)
    ∷ ("nginx", 80)
    ∷ ("nginx-proxy-manager", 81)
    ∷ ("open-webui", 8080)
    ∷ ("plex", 32400)
    ∷ ("prometheus", 9090)
    ∷ ("prowlarr", 9696)
    ∷ ("radarr", 7878)
    ∷ ("radarr-sma", 7878)
    ∷ ("rsshub", 1200)
    ∷ ("rss-bridge", 80)
    ∷ ("sonarr", 8989)
    ∷ ("sonarr-sma", 8989)
    ∷ ("uptime-kuma", 3001)
    ∷ ("whisparr", 6969)
    ∷ []

abbrev image_name_port_map_https : Ports
image_name_port_map_https = ("portainer-be", 9443) ∷ ("portainer-ce", 9443) ∷ []

abbrev alias_port_map_https : Ports
alias_port_map_https = ("portainer", 9443) ∷ ("crafty", 8080) ∷ []

unfoldable pub port_in : Ports → String → Option ℕ
port_in [] name = none
port_in ((n, p) ∷ m) name = let rest = port_in m name in if str_eq n name then some p else rest

-- The first of the maps that has the name gives the scheme.
unfoldable pub first_of : List (Scheme × Ports) → String → Option (Scheme × ℕ)
unfolding port_in
first_of [] name = none
first_of ((s, m) ∷ ms) name = elim (port_in m name) [
  | some p ↦ some (s, p)
  | none ↦ first_of ms name
]

unfoldable pub get_scheme_port_by_image_name : String → Option (Scheme × ℕ)
unfolding first_of
get_scheme_port_by_image_name name =
    first_of
      ((http, image_name_port_map_http)
        ∷ (https, image_name_port_map_https)
        ∷ (tcp, image_name_port_map_tcp)
        ∷ [])
      name

-- The map of the aliases with the scheme http is empty.
unfoldable pub get_scheme_port_by_alias : String → Option (Scheme × ℕ)
unfolding first_of
get_scheme_port_by_alias name = first_of ((http, []) ∷ (https, alias_port_map_https) ∷ []) name

unfoldable pub lookup : ℕ → PortMapping → Option PortSummary
lookup k [] = none
lookup k ((j, p) ∷ m) = let rest = lookup k m in if k == j then some p else rest

abbrev pub preferred_port_order : List ℕ
preferred_port_order = 80 ∷ 8080 ∷ 3000 ∷ 8000 ∷ 443 ∷ 8443 ∷ []

-- The port, if the mapping has an entry for it.
unfoldable pub or_else : ℕ → Option PortSummary → Option ℕ → Option ℕ
or_else p none rest = rest
or_else p (some x) rest = some p

unfoldable pub first_preferred : List ℕ → PortMapping → Option ℕ
unfolding lookup or_else
first_preferred [] m = none
first_preferred (p ∷ ps) m = or_else p (lookup p m) (first_preferred ps m)

-- The loop for the lowest private port, with its two variables.
unfoldable pub lowest : ℕ → ℕ → PortMapping → ℕ
lowest cmp res [] = res
lowest cmp res ((port, v) ∷ m) =
    let lower = lowest v.private_port port m in
    let same = lowest cmp res m in if ltb v.private_port cmp then lower else same

unfoldable pub or_lowest : Option ℕ → PortMapping → ℕ
unfolding lowest
or_lowest none m = lowest 65535 0 m
or_lowest (some p) m = p

unfoldable pub preferred_port : PortMapping → ℕ
unfolding first_preferred or_lowest
preferred_port m = or_lowest (first_preferred preferred_port_order m) m

-- A scheme and a port fill what is not set.
unfoldable pub fill : Option (Scheme × ℕ) → Scheme × ℕ → Scheme × ℕ
fill none sp = sp
fill (some (s, p)) (unset, pp) = (s, if pp == 0 then p else pp)
fill (some (s, p)) (scheme, pp) = (scheme, if pp == 0 then p else pp)

unfoldable pub host_of : Option Container → String → String
host_of none host = if str_eq host "" then "localhost" else host
host_of (some c) host =
    if str_eq host ""
    then if str_eq c.private_hostname ""
      then (if str_eq c.public_hostname "" then host else c.public_hostname)
      else c.private_hostname
    else host

unfoldable pub by_image : Option Container → Scheme × ℕ → Scheme × ℕ
unfolding fill get_scheme_port_by_image_name
by_image none sp = sp
by_image (some c) sp = fill (get_scheme_port_by_image_name c.image_name) sp

-- The port of a route that still has none.
unfoldable pub default_port : Option Container → Scheme → ℕ
unfolding preferred_port
default_port (some c) scheme =
    if c.is_host_network_mode
    then preferred_port c.public_port_mapping
    else preferred_port c.private_port_mapping
default_port none https = 443
default_port none scheme = 80

unfoldable pub any_udp : ℕ → PortMapping → Bool
any_udp pp [] = false
any_udp pp ((k, p) ∷ m) =
    let rest = any_udp pp m in if (p.private_port == pp) && p.is_udp then true else rest

-- A published port of UDP that leads to the port gives the scheme.
unfoldable pub udp_scheme : Option Container → ℕ → Scheme → Scheme
unfolding any_udp
udp_scheme (some c) pp unset = if any_udp pp c.public_port_mapping then udp else unset
udp_scheme none pp unset = unset
udp_scheme c pp scheme = scheme

-- The public port for the private one where the host is the public one, and the reverse elsewhere.
unfoldable pub swap_port : Option Container → String → ℕ → ℕ
unfolding lookup
swap_port none host pp = pp
swap_port (some c) host pp =
    if str_eq host c.public_hostname
    then elim (lookup pp c.private_port_mapping) [ some p ↦ p.public_port | none ↦ pp ]
    else elim (lookup pp c.public_port_mapping) [ some p ↦ p.private_port | none ↦ pp ]

unfoldable pub guess_scheme : ℕ → ℕ → Scheme → Scheme
guess_scheme lp pp unset = if lp == 0 then (if pp % 1000 == 443 then https else http) else tcp
guess_scheme lp pp scheme = scheme

-- The scheme and the port after the names of the image and of the route.
unfoldable pub named : Route → Scheme × ℕ
unfolding by_image get_scheme_port_by_alias
named r = fill (get_scheme_port_by_alias r.alias) (by_image r.container (r.scheme, r.proxy))

unfoldable pub wanted_port : Route → ℕ
unfolding named default_port
wanted_port r = if (named r).1 == 0 then default_port r.container (named r).0 else (named r).1

unfoldable pub finalize : Route → Route
unfolding host_of named wanted_port udp_scheme swap_port guess_scheme
finalize r =
    let host = host_of r.container r.host in
    let scheme = udp_scheme r.container (wanted_port r) (named r).0 in
    let swapped = swap_port r.container host (wanted_port r) in
    record r { host = host; proxy = swapped; scheme = guess_scheme r.listening swapped scheme }
