-- ===== src/LoadBalancer/Defs.antt =====
-- internal/net/gphttp/loadbalancer: servers, requests and the modes of internal/types/loadbalancer.go.
use Prim.Native.String.{String}
use text.Mathlib.Text.{◌==◌ as str_eq}
use godoxy.Prelude.{ℕ, Bool, true, false, Option, ◌||◌, if◌then◌else◌}
use godoxy.Prelude.Bytes.{Bytes}

-- A server is an object; its pointer is a number, and what is read through it (key, status) is given
-- by functions.
abbrev pub Server : Type 0
Server = ℕ

pub data Mode : Type 0 where
  unset round_robin least_conn ip_hash : Mode

-- `ValidateUpdate`, after `ToLowerNoSnake` was applied to the text: the mode kept, and whether the
-- text was valid.
unfoldable pub validate_update : String → Mode × Bool
validate_update mode =
    if str_eq mode ""
    then (unset, true)
    else if str_eq mode "roundrobin"
    then (round_robin, true)
    else if str_eq mode "leastconn"
    then (least_conn, true)
    else if str_eq mode "iphash"
    then (ip_hash, true)
    else (round_robin, false)

-- What the load balancer reads of a request: the path, the remote address, the host part that
-- `net.SplitHostPort` finds in it, and the value of the sticky cookie.
pub record Request : Type 0 where
  pub path : String
  pub remote_addr : String
  pub remote_host : Option String
  pub sticky_cookie : Option Bytes

abbrev pub wake_events_path : String
wake_events_path = "/$godoxy/wake-events"

abbrev pub fav_icon_path : String
fav_icon_path = "/favicon.ico"

abbrev pub loading_page_css_path : String
loading_page_css_path = "/$godoxy/style.css"

abbrev pub loading_page_js_path : String
loading_page_js_path = "/$godoxy/loading.js"

unfoldable pub is_idlewatcher_request : Request → Bool
is_idlewatcher_request r =
    str_eq r.path wake_events_path
    || (str_eq r.path fav_icon_path
        || (str_eq r.path loading_page_css_path || str_eq r.path loading_page_js_path))

-- The answer to a request: an HTTP error, or what the chosen server makes of it.
pub data Reply : Type 0 where
  http_error : ℕ → Reply
  served : Server → Reply

abbrev pub status_service_unavailable : ℕ
status_service_unavailable = 503

abbrev pub status_internal_server_error : ℕ
status_internal_server_error = 500
