-- ===== src/SocketProxy.antt =====
-- socket-proxy/pkg/handler.go: which requests to the docker socket NewHandler lets through. The router
-- of gorilla/mux is the two arguments `path_matches` and `prefix_matches`, of a route's template and a
-- path; it takes the first route that matches, in the order of registration.
pub mod Gate
mod Tests
use godoxy.Prelude.{
  ℕ, suc, Bool, true, false, not, ◌&&◌, ◌||◌, List, [], ◌∷◌, ◌++◌, ◌==◌, if◌then◌else◌,
}
use godoxy.Prelude.Bytes.{Bytes, codes}

-- The flags that Load reads from the environment.
pub record Env : Type 0 where
  pub post : Bool
  pub restarts : Bool
  pub start : Bool
  pub stop : Bool
  pub containers : Bool
  pub auth : Bool
  pub build : Bool
  pub commit : Bool
  pub configs : Bool
  pub distribution : Bool
  pub events : Bool
  pub exec : Bool
  pub grpc : Bool
  pub images : Bool
  pub info : Bool
  pub networks : Bool
  pub nodes : Bool
  pub ping : Bool
  pub plugins : Bool
  pub secrets : Bool
  pub services : Bool
  pub session : Bool
  pub swarm : Bool
  pub system : Bool
  pub tasks : Bool
  pub version : Bool
  pub volumes : Bool

abbrev pub api_version_prefix : Bytes
api_version_prefix = codes "/{version:(?:v[\\d\\.]+)?}"

abbrev pub container_path : Bytes
container_path = codes "/containers/{id:[a-zA-Z0-9_.-]+}"

-- `append` under a flag, in front of what is appended later.
abbrev pub given : Bool → Bytes → List Bytes → List Bytes
given true p ps = p ∷ ps
given false p ps = ps

unfoldable pub allowed_paths : Env → List Bytes
allowed_paths e = given e.containers (codes "/containers") (
    given e.auth (codes "/auth") (
      given e.build (codes "/build") (
        given e.commit (codes "/commit") (
          given e.configs (codes "/configs") (
            given e.distribution (codes "/distribution") (
              given e.events (codes "/events") (
                given e.exec (codes "/exec") (
                  given e.grpc (codes "/grpc") (
                    given e.images (codes "/images") (
                      given e.info (codes "/info") (
                        given e.networks (codes "/networks") (
                          given e.nodes (codes "/nodes") (
                            given e.ping (codes "/_ping") (
                              given e.plugins (codes "/plugins") (
                                given e.secrets (codes "/secrets") (
                                  given e.services (codes "/services") (
                                    given e.session (codes "/session") (
                                      given e.swarm (codes "/swarm") (
                                        given e.system (codes "/system") (
                                          given e.tasks (codes "/tasks") (
                                            given e.version (codes "/version") (
                                              given e.volumes (codes "/volumes")
                                                []))))))))))))))))))))))

abbrev pub stop_path : Bytes
stop_path = container_path ++ codes "/stop"

unfoldable pub denied_paths : Env → List Bytes
denied_paths e =
    if e.containers
    then given (not e.restarts) stop_path (
        given (not e.restarts) (container_path ++ codes "/restart") (
          given (not e.restarts) (container_path ++ codes "/kill") (
            given (not e.start) (container_path ++ codes "/start")
              (given (not e.stop && e.restarts) stop_path []))))
    else []

abbrev pub slashes : Bytes → ℕ
slashes [] = 0
slashes (c ∷ s) = let n = slashes s in if c == 47 then suc n else n

abbrev pub is_prefix_path : Bytes → Bool
is_prefix_path p = slashes p == 1

pub data Handler : Type 0 where
  socket_handler endpoint_not_allowed : Handler

-- A registered route: by prefix or by the whole path.
pub record Route : Type 0 where
  pub by_prefix : Bool
  pub template : Bytes
  pub handler : Handler

unfoldable pub denied_routes : List Bytes → List Route
denied_routes [] = []
denied_routes (p ∷ ps) =
    record { by_prefix = false; template = api_version_prefix ++ p; handler = endpoint_not_allowed }
    ∷ record { by_prefix = false; template = p; handler = endpoint_not_allowed }
    ∷ denied_routes ps

unfoldable pub allowed_routes : List Bytes → List Route
allowed_routes [] = []
allowed_routes (p ∷ ps) =
    record {
      by_prefix = is_prefix_path p;
      template = api_version_prefix ++ p;
      handler = socket_handler;
    }
    ∷ record { by_prefix = is_prefix_path p; template = p; handler = socket_handler }
    ∷ allowed_routes ps

abbrev pub fallback : Route
fallback = record { by_prefix = true; template = codes "/"; handler = endpoint_not_allowed }

unfoldable pub routes : Env → List Route
unfolding allowed_paths denied_paths denied_routes allowed_routes
routes e = denied_routes (denied_paths e) ++ (allowed_routes (allowed_paths e) ++ fallback ∷ [])

pub data Method : Type 0 where
  get post_method other_method : Method

-- What becomes of a request. The router itself answers when no route matches.
pub data Answer : Type 0 where
  forwarded endpoint_forbidden method_not_allowed not_found : Answer

module _ (path_matches prefix_matches : Bytes → Bytes → Bool) where
  abbrev pub route_matches : Route → Bytes → Bool
  route_matches r path =
      if r.by_prefix then prefix_matches r.template path else path_matches r.template path

  abbrev pub answer_of : Handler → Answer
  answer_of socket_handler = forwarded
  answer_of endpoint_not_allowed = endpoint_forbidden

  unfoldable pub route : List Route → Bytes → Answer
  route [] path = not_found
  route (r ∷ rs) path =
      let rest = route rs path in if route_matches r path then answer_of r.handler else rest

  -- The handler that NewHandler returns, with the filter of methods.
  unfoldable pub serve : Env → Method → Bytes → Answer
  unfolding route routes
  serve e get path = route (routes e) path
  serve e post_method path = if e.post then route (routes e) path else method_not_allowed
  serve e other_method path = method_not_allowed
