-- ===== src/RouteProvider/Tests.antt =====
-- Tests of the routes of a provider, and witnesses for its theorems.
use godoxy.Prelude.{ℕ, ◌≡◌, refl, ◌⊎◌, Bool, true, false, not, ◌==◌, List, [], ◌∷◌}
use godoxy.Prelude.Bytes.{Bytes, codes, bytes_eq}
use godoxy.RouteProvider.{
  Route, Routes, lookup, Provider, Event, docker, handle, load_routes, match_any, any_force_reload,
  add_failed, insert, delete,
}
use godoxy.RouteProvider.Settled.{IsMap, IsDistinct, GivesUp, settled}
use godoxy.RouteProvider.Keyed.{handle-settled}

abbrev route : Bytes → Bool → ℕ → Route
route a ex n = record {
  alias = a;
  container_id = a;
  container_name = a;
  excluded = ex;
  revision = n;
}

abbrev entry : Bytes → Bool → ℕ → Bytes × Route
entry a ex n = (a, route a ex n)

-- A route of the revision 9 does not start.
unfoldable starts : Route → Bool
starts r = not (r.revision == 9)

abbrev accepts : Route → Bool
accepts r = true

-- Three routes, the last one excluded.
abbrev before : Provider
before = record {
  routes = entry (codes "a") false 1 ∷ entry (codes "b") false 1 ∷ entry (codes "x") true 1 ∷ [];
  errs = [];
}

abbrev events : List Event
events = record { actor_id = codes "a"; actor_name = codes "q"; is_force_reload = false } ∷ []

abbrev source : Routes
source = entry (codes "a") false 2 ∷ entry (codes "b") false 2 ∷ entry (codes "c") false 9 ∷ []

-- The event is about the first route; the second keeps its old revision, the third of the source does
-- not start, and the excluded one stays although the source has it no more.
handled : handle starts accepts docker (source, false) events before ≡ record {
  routes = entry (codes "a") false 2 ∷ entry (codes "b") false 1 ∷ entry (codes "x") true 1 ∷ [];
  errs = add_failed (codes "c") ∷ [];
}
unfolding handle starts lookup insert delete bytes_eq
handled = refl

source-IsDistinct : IsDistinct source
unfolding lookup bytes_eq
source-IsDistinct = (refl, (refl, (refl, tt)))

before-IsMap : IsMap before.routes
unfolding lookup bytes_eq
before-IsMap = (refl, refl, (refl, refl, (refl, refl, tt)))

handle-settled_example :
    IsMap (handle starts accepts docker (source, false) events before).routes
    × ((GivesUp (any_force_reload events) (load_routes accepts (source, false))
          × (lookup (codes "a") (handle starts accepts docker (source, false) events before).routes
              ≡ lookup (codes "a") before.routes))
        ⊎ (¬ GivesUp (any_force_reload events) (load_routes accepts (source, false))
            × (lookup
                  (codes "a")
                  (handle starts accepts docker (source, false) events before).routes
                ≡ settled starts
                    (match_any docker events)
                    (lookup (codes "a") before.routes)
                    (lookup (codes "a") (load_routes accepts (source, false)).0))))
handle-settled_example =
    handle-settled starts accepts docker (source, false) events before source-IsDistinct
      before-IsMap (codes "a")
