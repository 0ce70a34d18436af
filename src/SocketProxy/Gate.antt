-- ===== src/SocketProxy/Gate.antt =====
-- socket-proxy/pkg/handler.go: what reaches the docker socket.
use godoxy.Prelude.{
  ◌≡◌, refl, ap, ◌∙◌, Bool, true, false, not, ◌&&◌, ◌||◌, List, [], ◌∷◌, ◌++◌, if◌then◌else◌,
}
use godoxy.Prelude.Bytes.{Bytes, codes}
use godoxy.SocketProxy.{
  Env, api_version_prefix, stop_path, allowed_paths, denied_paths, is_prefix_path, Route,
  denied_routes, allowed_routes, fallback, routes, Method, get, post_method, other_method, Answer,
  forwarded, endpoint_forbidden, method_not_allowed, not_found, route, serve,
}

-- The method passes the filter.
abbrev pub method_passes : Env → Method → Bool
method_passes e get = true
method_passes e post_method = e.post
method_passes e other_method = false

abbrev pub is_forwarded : Answer → Bool
is_forwarded forwarded = true
is_forwarded _ = false

module _ (path_matches prefix_matches : Bytes → Bytes → Bool) where
  -- The path is that of a denied endpoint, with or without a version before it.
  abbrev pub any_denied : List Bytes → Bytes → Bool
  any_denied [] path = false
  any_denied (p ∷ ps) path =
      path_matches (api_version_prefix ++ p) path || (path_matches p path || any_denied ps path)

  abbrev pub template_matches : Bool → Bytes → Bytes → Bool
  template_matches prefix t path = if prefix then prefix_matches t path else path_matches t path

  abbrev pub any_allowed : List Bytes → Bytes → Bool
  any_allowed [] path = false
  any_allowed (p ∷ ps) path =
      template_matches (is_prefix_path p) (api_version_prefix ++ p) path
      || (template_matches (is_prefix_path p) p path || any_allowed ps path)

  route-allowed :
      (ps : List Bytes) (path : Bytes)
      → is_forwarded (route path_matches prefix_matches (allowed_routes ps ++ fallback ∷ []) path)
        ≡ any_allowed ps path
  unfolding route allowed_routes
  route-allowed [] path = last (prefix_matches (codes "/") path)
    where
      last : (b : Bool) → is_forwarded (if b then endpoint_forbidden else not_found) ≡ false
      last true = refl
      last false = refl
  route-allowed (p ∷ ps) path =
      first (route-allowed ps path)
        (template_matches (is_prefix_path p) (api_version_prefix ++ p) path)
        (template_matches (is_prefix_path p) p path)
    where
      first :
          is_forwarded (route path_matches prefix_matches (allowed_routes ps ++ fallback ∷ []) path)
            ≡ any_allowed ps path
          → (a b : Bool)
          → is_forwarded (
              if a
              then forwarded
              else if b
              then forwarded
              else route path_matches prefix_matches (allowed_routes ps ++ fallback ∷ []) path)
            ≡ (a || (b || any_allowed ps path))
      first ih true b = refl
      first ih false true = refl
      first ih false false = ih

  route-denied :
      (ps : List Bytes) (rs : List Route) (path : Bytes)
      → is_forwarded (route path_matches prefix_matches (denied_routes ps ++ rs) path)
        ≡ (not (any_denied ps path) && is_forwarded (route path_matches prefix_matches rs path))
  unfolding route denied_routes
  route-denied [] rs path = refl
  route-denied (p ∷ ps) rs path =
      first (route-denied ps rs path) (path_matches (api_version_prefix ++ p) path)
        (path_matches p path)
    where
      first :
          is_forwarded (route path_matches prefix_matches (denied_routes ps ++ rs) path)
            ≡ (not (any_denied ps path) && is_forwarded (route path_matches prefix_matches rs path))
          → (a b : Bool)
          → is_forwarded (
              if a
              then endpoint_forbidden
              else if b
              then endpoint_forbidden
              else route path_matches prefix_matches (denied_routes ps ++ rs) path)
            ≡ (not (a || (b || any_denied ps path))
                && is_forwarded (route path_matches prefix_matches rs path))
      first ih true b = refl
      first ih false true = refl
      first ih false false = ih

  routed :
      (e : Env) (path : Bytes)
      → is_forwarded (route path_matches prefix_matches (routes e) path)
        ≡ (not (any_denied (denied_paths e) path) && any_allowed (allowed_paths e) path)
  unfolding routes
  routed e path =
      route-denied (denied_paths e) (allowed_routes (allowed_paths e) ++ fallback ∷ []) path
      ∙ ap (λ b. not (any_denied (denied_paths e) path) && b) (route-allowed (allowed_paths e) path)

  -- A request reaches the docker socket exactly when its method passes, its path is that of no denied
  -- endpoint, and it is that of an allowed one.
  pub serve-is_forwarded :
      (e : Env) (m : Method) (path : Bytes)
      → is_forwarded (serve path_matches prefix_matches e m path) ≡ (
          method_passes e m
          && (not (any_denied (denied_paths e) path) && any_allowed (allowed_paths e) path))
  unfolding serve routes
  serve-is_forwarded e get path = routed e path
  serve-is_forwarded e post_method path = passing e.post
    where
      passing :
          (b : Bool)
          → is_forwarded
              (if b then route path_matches prefix_matches (routes e) path else method_not_allowed)
            ≡ (b && (not (any_denied (denied_paths e) path) && any_allowed (allowed_paths e) path))
      passing true = routed e path
      passing false = refl
  serve-is_forwarded e other_method path = refl

  denied_stop :
      (e : Env) (path : Bytes)
      → e.restarts ≡ false
      → e.containers ≡ true
      → path_matches stop_path path ≡ true
      → any_denied (denied_paths e) path ≡ true
  unfolding denied_paths
  denied_stop e path r c h =
      rw (denied_paths, c, r, h) (either (path_matches (api_version_prefix ++ stop_path) path))
    where
      either : (b : Bool) → (b || true) ≡ true
      either true = refl
      either false = refl

  -- Without the flag for restarts no request to stop a container reaches the socket, whatever the flag
  -- for stops says.
  pub serve-stop :
      (e : Env) (m : Method) (path : Bytes)
      → e.restarts ≡ false
      → e.containers ≡ true
      → path_matches stop_path path ≡ true
      → is_forwarded (serve path_matches prefix_matches e m path) ≡ false
  serve-stop e m path r c h =
      serve-is_forwarded e m path
      ∙ ap (λ b. method_passes e m && (not b && any_allowed (allowed_paths e) path))
          (denied_stop e path r c h)
      ∙ never (method_passes e m)
    where
      never : (b : Bool) → (b && false) ≡ false
      never true = refl
      never false = refl
