-- ===== src/RouteProvider/Keyed.antt =====
-- internal/route/provider: the map of a provider has each alias once, with its own route.
use godoxy.Prelude.{
  ◌≡◌, refl, ◌⊎◌, inl, inr, arith, Bool, true, false, Option, none, some, List, [], ◌∷◌, Bool-cases,
}
use godoxy.Prelude.Bytes.{Bytes, bytes_eq, bytes_eq_refl}
use godoxy.RouteProvider.{
  Route, Routes, lookup, insert, delete, Provider, Event, ProviderType, start_route,
  finish_and_wait, add, remove, update, handle_old, handle_olds, handle_new, handle_news, reconcile,
  after_load, load_routes, handle, match_any, any_force_reload,
}
use godoxy.RouteProvider.Settled.{
  IsMap, IsDistinct, GivesUp, settled, handle-lookup, lookup-delete, report_routes,
}

delete-IsMap : (j : Bytes) (m : Routes) → IsMap m → IsMap (delete j m)
unfolding delete
delete-IsMap j [] h = tt
delete-IsMap j ((k, r) ∷ m) (n, a, h) = elim (Bool-cases (bytes_eq j k)) [
  | inl e ↦ rw e (delete-IsMap j m h)
  | inr e ↦ rw e (ground (arith, lookup-delete k j m), a, delete-IsMap j m h)
]

insert-IsMap : (k : Bytes) (r : Route) (m : Routes) → r.alias ≡ k → IsMap m → IsMap (insert k r m)
unfolding insert
insert-IsMap k r m a h =
    (ground (arith, lookup-delete k k m, bytes_eq_refl k), a, delete-IsMap k m h)

finish_and_wait-IsMap : (r : Route) (m : Routes) → IsMap m → IsMap (finish_and_wait r m)
unfolding finish_and_wait
finish_and_wait-IsMap r m h = elim (Bool-cases r.excluded) [
  | inl e ↦ rw e h
  | inr e ↦ rw e (delete-IsMap r.alias m h)
]

module _ (starts : Route → Bool) where
  start_route-IsMap : (r : Route) (m : Routes) → IsMap m → IsMap (start_route starts r m).0
  unfolding start_route
  start_route-IsMap r m h = elim (Bool-cases (starts r)) [
    | inl e ↦ rw e (insert-IsMap r.alias r m refl h)
    | inr e ↦ rw e (delete-IsMap r.alias m h)
  ]

  module _ (matches : Route → Bool) where
    handle_old-IsMap :
        (o : Option Route) (old : Route) (p : Provider)
        → IsMap p.routes
        → IsMap (handle_old starts matches o old p).routes
    unfolding handle_old remove update
    handle_old-IsMap none old p h = finish_and_wait-IsMap old p.routes h
    handle_old-IsMap (some r) old p h = elim (Bool-cases (matches r)) [
      | inl e ↦ rw (e, report_routes) (start_route-IsMap r _ (finish_and_wait-IsMap old p.routes h))
      | inr e ↦ rw e h
    ]

    handle_olds-IsMap :
        (new olds : Routes) (p : Provider)
        → IsMap p.routes
        → IsMap (handle_olds starts matches new olds p).routes
    unfolding handle_olds
    handle_olds-IsMap new [] p h = h
    handle_olds-IsMap new ((k, r) ∷ olds) p h =
        handle_olds-IsMap new olds _ (handle_old-IsMap (lookup k new) r p h)

    handle_new-IsMap :
        (o : Option Route) (new : Route) (p : Provider)
        → IsMap p.routes
        → IsMap (handle_new starts matches o new p).routes
    unfolding handle_new add
    handle_new-IsMap none new p h = rw report_routes (start_route-IsMap new p.routes h)
    handle_new-IsMap (some r) new p h = h

    handle_news-IsMap :
        (old news : Routes) (p : Provider)
        → IsMap p.routes
        → IsMap (handle_news starts matches old news p).routes
    unfolding handle_news
    handle_news-IsMap old [] p h = h
    handle_news-IsMap old ((k, r) ∷ news) p h =
        handle_news-IsMap old news _ (handle_new-IsMap (lookup k old) r p h)

    reconcile-IsMap :
        (new : Routes) (p : Provider)
        → IsMap p.routes
        → IsMap (reconcile starts matches new p).routes
    unfolding reconcile
    reconcile-IsMap new p h = handle_news-IsMap p.routes new _ (handle_olds-IsMap new p.routes p h)

    after_load-IsMap :
        (force : Bool) (l : Routes × Bool) (p : Provider)
        → IsMap p.routes
        → IsMap (after_load starts matches force l p).routes
    unfolding after_load
    after_load-IsMap force (new, false) p h = reconcile-IsMap new p h
    after_load-IsMap true ([], true) p h = reconcile-IsMap [] _ h
    after_load-IsMap false ([], true) p h = h
    after_load-IsMap force (e ∷ new, true) p h = reconcile-IsMap (e ∷ new) _ h

handle-IsMap :
    (starts valid : Route → Bool) (t : ProviderType) (loaded : Routes × Bool) (events : List Event)
    (p : Provider)
    → IsMap p.routes
    → IsMap (handle starts valid t loaded events p).routes
unfolding handle
handle-IsMap starts valid t loaded events p h =
    after_load-IsMap starts (match_any t events) (any_force_reload events)
      (load_routes valid loaded) p h

-- Events keep the map of a provider: each alias stands once, with a route of that alias. Where the
-- load gives up, because it ended with an error and no route and no event forces a reload, every
-- alias keeps its route. Otherwise an alias with no old route gets its new one if that starts, and
-- so does one whose new route matches an event; an alias whose new route matches none keeps the old
-- one; and an alias without a new route is gone, unless the old route was excluded, which stays in
-- the map.
pub handle-settled :
    (starts valid : Route → Bool) (t : ProviderType) (loaded : Routes × Bool) (events : List Event)
    (p : Provider)
    → IsDistinct loaded.0
    → IsMap p.routes
    → (k : Bytes)
    → IsMap (handle starts valid t loaded events p).routes
      × ((GivesUp (any_force_reload events) (load_routes valid loaded)
            × (lookup k (handle starts valid t loaded events p).routes ≡ lookup k p.routes))
          ⊎ (¬ GivesUp (any_force_reload events) (load_routes valid loaded)
              × (lookup k (handle starts valid t loaded events p).routes
                  ≡ settled starts
                      (match_any t events)
                      (lookup k p.routes)
                      (lookup k (load_routes valid loaded).0))))
handle-settled starts valid t loaded events p hl hp k = (
  handle-IsMap starts valid t loaded events p hp,
  handle-lookup starts valid t loaded events p hl hp k,
)
