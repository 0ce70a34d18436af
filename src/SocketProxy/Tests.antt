-- ===== src/SocketProxy/Tests.antt =====
-- socket-proxy: a proxy with the default flags and containers.
use godoxy.Prelude.{◌≡◌, Bool, true, false, ◌&&◌, not}
use godoxy.Prelude.Bytes.{Bytes, codes, bytes_eq}
use godoxy.SocketProxy.{Env, get, allowed_paths, denied_paths, serve}
use godoxy.SocketProxy.Gate.{
  is_forwarded, any_denied, any_allowed, method_passes, serve-is_forwarded,
}

abbrev env : Env
env = record {
  post = true;
  restarts = false;
  start = false;
  stop = true;
  containers = true;
  auth = false;
  build = false;
  commit = false;
  configs = false;
  distribution = false;
  events = true;
  exec = false;
  grpc = false;
  images = false;
  info = false;
  networks = false;
  nodes = false;
  ping = true;
  plugins = false;
  secrets = false;
  services = false;
  session = false;
  swarm = false;
  system = false;
  tasks = false;
  version = true;
  volumes = false;
}

-- A router on literal templates.
abbrev same : Bytes → Bytes → Bool
unfolding bytes_eq
same t p = bytes_eq t p

serve-is_forwarded_example : is_forwarded (serve same same env get (codes "/containers")) ≡ (
    method_passes env get
    && (not (any_denied same same (denied_paths env) (codes "/containers"))
        && any_allowed same same (allowed_paths env) (codes "/containers")))
serve-is_forwarded_example = serve-is_forwarded same same env get (codes "/containers")

containers_listed : is_forwarded (serve same same env get (codes "/containers")) ≡ true
unfolding denied_paths allowed_paths same
containers_listed = serve-is_forwarded same same env get (codes "/containers")
