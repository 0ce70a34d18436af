-- ===== src/RoutePorts/Tests.antt =====
-- Tests of the scheme and the ports of a route, and witnesses for the theorems on them.
use godoxy.Prelude.{ℕ, ◌≡◌, ◌≢◌, ◌⊎◌, ◌<◌, refl, arith, false, Option, none, some, [], ◌∷◌}
use godoxy.RoutePorts.{
  unset, http, PortSummary, PortMapping, Container, Route, preferred_port, finalize,
}
use godoxy.RoutePorts.Finalized.{Has, finalize_lem, preferred_port-Has}

abbrev port : ℕ → ℕ → ℕ × PortSummary
port k p = (k, record { private_port = p; public_port = k; is_udp = false })

abbrev mapping : PortMapping
mapping = port 9001 9001 ∷ port 5000 5000 ∷ []

abbrev grafana : Container
grafana = record {
  image_name = "grafana";
  is_host_network_mode = false;
  public_port_mapping = [];
  private_port_mapping = mapping;
  public_hostname = "";
  private_hostname = "10.0.0.2";
}

abbrev route : Option Container → Route
route c = record {
  alias = "app";
  host = "";
  scheme = unset;
  listening = 0;
  proxy = 0;
  container = c;
}

lowest_port : preferred_port mapping ≡ 5000
unfolding preferred_port
lowest_port = refl

by_image_name : finalize (route (some grafana)) ≡ record {
  alias = "app";
  host = "10.0.0.2";
  scheme = http;
  listening = 0;
  proxy = 3000;
  container = some grafana;
}
unfolding finalize
by_image_name = refl

finalize_lem_example :
    ((finalize (route none)).scheme ≢ unset)
    × (((route none).scheme ≡ unset) ⊎ ((finalize (route none)).scheme ≡ (route none).scheme))
    × ((finalize (route none)).listening ≡ 0)
    × (((c : Container) × ((route none).container ≡ some c))
        ⊎ ((0 < (finalize (route none)).proxy)
            × (((route none).proxy ≡ 0) ⊎ ((finalize (route none)).proxy ≡ (route none).proxy))))
finalize_lem_example = finalize_lem (route none)

preferred_port-Has_example : Has (preferred_port mapping) mapping
preferred_port-Has_example = preferred_port-Has (port 9001 9001) (port 5000 5000 ∷ []) (omega arith)
