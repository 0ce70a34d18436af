-- ===== src/RouteProvider.antt =====
-- internal/route/provider: the routes of a provider, how they are loaded and started, and how a batch
-- of events brings them up to date (provider.go, event_handler.go). A map is the list of its entries
-- in the order of an iteration. Whether a route validates and whether it starts are arguments, and
-- so is what the provider's source holds. The routes are handled one after the other: a route that
-- is finished has run its callbacks when the call returns, and nothing else changes the map.
pub mod Settled
pub mod Keyed
mod Tests
use godoxy.Prelude.{
  ℕ, Bool, true, false, not, ◌&&◌, ◌||◌, Option, none, some, List, [], ◌∷◌, ◌==◌, if◌then◌else◌,
}
use godoxy.Prelude.Bytes.{Bytes, bytes_eq}

-- A route as the provider sees it; `excluded` is what ShouldExclude answers, and `revision` stands
-- for the rest of its configuration.
pub record Route : Type 0 where
  pub alias : Bytes
  pub container_id : Bytes
  pub container_name : Bytes
  pub excluded : Bool
  pub revision : ℕ

abbrev pub Routes : Type 0
Routes = List (Bytes × Route)

unfoldable pub lookup : Bytes → Routes → Option Route
lookup k [] = none
lookup k ((j, r) ∷ m) = let rest = lookup k m in if bytes_eq k j then some r else rest

unfoldable pub delete : Bytes → Routes → Routes
delete k [] = []
delete k ((j, r) ∷ m) = let rest = delete k m in if bytes_eq k j then rest else (j, r) ∷ rest

unfoldable pub insert : Bytes → Route → Routes → Routes
unfolding delete
insert k r m = (k, r) ∷ delete k m

pub data ProviderType : Type 0 where
  docker agent file : ProviderType

pub record Event : Type 0 where
  pub actor_id : Bytes
  pub actor_name : Bytes
  pub is_force_reload : Bool

pub data HandlerError : Type 0 where
  load_failed : HandlerError
  add_failed update_failed : Bytes → HandlerError

-- The map of a provider, with the errors that the handler has collected.
pub record Provider : Type 0 where
  pub routes : Routes
  pub errs : List HandlerError

-- `startRoute`, with whether the route started.
unfoldable pub start_route : (Route → Bool) → Route → Routes → Routes × Bool
unfolding insert delete
start_route starts r m = if starts r then (insert r.alias r m, true) else (delete r.alias m, false)

-- `FinishAndWait`: the callback of a started route takes its alias out of the map; an excluded route
-- has no such callback.
unfoldable pub finish_and_wait : Route → Routes → Routes
unfolding delete
finish_and_wait r m = if r.excluded then m else delete r.alias m

unfoldable pub report : HandlerError → Routes × Bool → List HandlerError → Provider
report e (m, true) errs = record { routes = m; errs = errs }
report e (m, false) errs = record { routes = m; errs = e ∷ errs }

module _ (starts : Route → Bool) where
  unfoldable pub add : Provider → Route → Provider
  unfolding report start_route
  add p r = report (add_failed r.alias) (start_route starts r p.routes) p.errs

  unfoldable pub remove : Provider → Route → Provider
  unfolding finish_and_wait
  remove p r = record p { routes = finish_and_wait r p.routes }

  unfoldable pub update : Provider → Route → Route → Provider
  unfolding report start_route finish_and_wait
  update p old new =
      report (update_failed new.alias) (start_route starts new (finish_and_wait old p.routes))
        p.errs

unfoldable pub match_event : ProviderType → Event → Route → Bool
match_event file e r = true
match_event docker e r =
    bytes_eq r.container_id e.actor_id || bytes_eq r.container_name e.actor_name
match_event agent e r = bytes_eq r.container_id e.actor_id || bytes_eq r.container_name e.actor_name

unfoldable pub match_any : ProviderType → List Event → Route → Bool
unfolding match_event
match_any t [] r = false
match_any t (e ∷ es) r = let rest = match_any t es r in if match_event t e r then true else rest

unfoldable pub any_force_reload : List Event → Bool
any_force_reload [] = false
any_force_reload (e ∷ es) =
    let rest = any_force_reload es in if e.is_force_reload then true else rest

-- The loop of `loadRoutes`: each route gets its alias, and one that does not validate is deleted.
unfoldable pub validate_routes : (Route → Bool) → Routes → Routes × Bool
validate_routes valid [] = ([], false)
validate_routes valid ((k, r) ∷ m) =
    let named : Route = record r { alias = k } in
    let rest = validate_routes valid m in
    if valid named then ((k, named) ∷ rest.0, rest.1) else (rest.0, true)

-- `loadRoutes`, with whether there was an error. The argument is the answer of the provider's source.
unfoldable pub load_routes : (Route → Bool) → Routes × Bool → Routes × Bool
unfolding validate_routes
load_routes valid ([], failed) = ([], failed)
load_routes valid (x ∷ m, failed) =
    let checked = validate_routes valid (x ∷ m) in (checked.0, failed || checked.1)

module _ (starts : Route → Bool) (matches : Route → Bool) where
  -- One round of the loop over the old routes, with the new route of the same key.
  unfoldable pub handle_old : Option Route → Route → Provider → Provider
  unfolding remove update
  handle_old none old p = remove starts p old
  handle_old (some r) old p = if matches r then update starts p old r else p

  unfoldable pub handle_olds : Routes → Routes → Provider → Provider
  unfolding handle_old
  handle_olds new [] p = p
  handle_olds new ((k, r) ∷ old) p = handle_olds new old (handle_old (lookup k new) r p)

  -- One round of the loop over the new routes, with the old route of the same key.
  unfoldable pub handle_new : Option Route → Route → Provider → Provider
  unfolding add
  handle_new none new p = add starts p new
  handle_new (some r) new p = p

  unfoldable pub handle_news : Routes → Routes → Provider → Provider
  unfolding handle_new
  handle_news old [] p = p
  handle_news old ((k, r) ∷ new) p = handle_news old new (handle_new (lookup k old) r p)

  unfoldable pub reconcile : Routes → Provider → Provider
  unfolding handle_olds handle_news
  reconcile new p = handle_news p.routes new (handle_olds new p.routes p)

  -- After the load: an error with no route ends it, unless a reload is forced.
  unfoldable pub after_load : Bool → Routes × Bool → Provider → Provider
  unfolding reconcile
  after_load force (new, false) p = reconcile new p
  after_load force ([], true) p =
      let q = record p { errs = load_failed ∷ p.errs } in if force then reconcile [] q else q
  after_load force (e ∷ new, true) p =
      reconcile (e ∷ new) (record p { errs = load_failed ∷ p.errs })

unfoldable pub handle :
    (Route → Bool)
    → (Route → Bool)
    → ProviderType
    → Routes × Bool
    → List Event
    → Provider
    → Provider
unfolding after_load load_routes any_force_reload match_any
handle starts valid t loaded events p =
    after_load starts (match_any t events) (any_force_reload events) (load_routes valid loaded) p
