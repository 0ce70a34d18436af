-- ===== src/RouteProvider/Settled.antt =====
-- internal/route/provider/event_handler.go: what a batch of events leaves in the map of a provider.
use godoxy.Prelude.{
  ◌≡◌, ◌⊎◌, inl, inr, refl, sym, ap, ◌∙◌, arith, Bool, true, false, Option, none, some, List, [],
  ◌∷◌, if◌then◌else◌, Bool-cases,
}
use godoxy.Prelude.Bytes.{Bytes, bytes_eq, bytes_eq→eq, bytes_eq_refl}
use godoxy.RouteProvider.{
  Route, Routes, lookup, insert, delete, Provider, Event, ProviderType, HandlerError, start_route,
  finish_and_wait, report, add, remove, update, handle_old, handle_olds, handle_new, handle_news,
  reconcile, after_load, load_routes, validate_routes, handle, match_any, any_force_reload,
}

apart : (k j i : Bytes) → bytes_eq j i ≡ false → bytes_eq k i ≡ true → bytes_eq k j ≡ false
apart k j i d e = elim (Bool-cases (bytes_eq k j)) [
  | inl h ↦ absurd (cc (ap (λ (x : Bytes). bytes_eq x i) (bytes_eq→eq k j h), d, e))
  | inr h ↦ h
]

pub lookup-delete :
    (k j : Bytes) (m : Routes) → lookup k (delete j m) ≡ (if bytes_eq k j then none else lookup k m)
unfolding lookup delete
lookup-delete k j [] = ground arith
lookup-delete k j ((i, r) ∷ m) = elim (Bool-cases (bytes_eq j i)) [
  | inl e ↦ rw e (lookup-delete k j m ∙ rw (bytes_eq→eq j i e) (ground arith))
  | inr e ↦ rw e (ground (arith, lookup-delete k j m, apart k j i e))
]

lookup-insert :
    (k j : Bytes) (r : Route) (m : Routes)
    → lookup k (insert j r m) ≡ (if bytes_eq k j then some r else lookup k m)
unfolding lookup insert
lookup-insert k j r m = ground (arith, lookup-delete k j m)

lookup-finish_and_wait :
    (k : Bytes) (r : Route) (m : Routes)
    → lookup k (finish_and_wait r m)
      ≡ (if bytes_eq k r.alias then (if r.excluded then lookup k m else none) else lookup k m)
unfolding finish_and_wait
lookup-finish_and_wait k r m = ground (arith, lookup-delete k r.alias m)

pub report_routes :
    (e : HandlerError) (s : Routes × Bool) (errs : List HandlerError)
    → (report e s errs).routes ≡ s.0
unfolding report
report_routes e (m, true) errs = refl
report_routes e (m, false) errs = refl

-- The keys of a map are distinct, and each of its routes has its key for its alias.
abbrev pub IsMap : Routes → Type 0
IsMap [] = Unit {0}
IsMap ((k, r) ∷ m) = (lookup k m ≡ none) × (r.alias ≡ k) × IsMap m

IsMap-alias : (k : Bytes) (r : Route) (m : Routes) → IsMap m → lookup k m ≡ some r → r.alias ≡ k
unfolding lookup
IsMap-alias k r [] h e = absurd (cc)
IsMap-alias k r ((j, x) ∷ m) (n, a, h) e = elim (Bool-cases (bytes_eq k j)) [
  | inl q ↦ ground (arith, bytes_eq→eq k j q)
  | inr q ↦ ground (arith, IsMap-alias k r m h)
]

-- The load ended with an error and without a route, and no reload is forced.
abbrev pub GivesUp : Bool → Routes × Bool → Type 0
GivesUp force (new, failed) = (failed ≡ true) × (new ≡ []) × (force ≡ false)

module _ (starts : Route → Bool) (matches : Route → Bool) where
  -- A route that is started is in the map if it starts.
  abbrev pub started : Route → Option Route
  started r = if starts r then some r else none

  lookup-start_route :
      (k : Bytes) (r : Route) (m : Routes)
      → lookup k (start_route starts r m).0 ≡ (if bytes_eq k r.alias then started r else lookup k m)
  unfolding start_route
  lookup-start_route k r m = ground (arith, lookup-insert k r.alias r m, lookup-delete k r.alias m)

  -- What becomes of the alias of an old route, with the new route of that alias.
  abbrev pub after_old : Route → Option Route → Option Route → Option Route
  after_old old none now = if old.excluded then now else none
  after_old old (some r) now = if matches r then started r else now

  lookup-handle_old :
      (k : Bytes) (o : Option Route) (old : Route) (p : Provider)
      → ((r : Route) → o ≡ some r → r.alias ≡ old.alias)
      → lookup k (handle_old starts matches o old p).routes
        ≡ (if bytes_eq k old.alias then after_old old o (lookup k p.routes) else lookup k p.routes)
  unfolding handle_old remove update
  lookup-handle_old k none old p a = lookup-finish_and_wait k old p.routes
  lookup-handle_old k (some r) old p a = elim (Bool-cases (matches r)) [
    | inl q ↦
        rw (q, report_routes, lookup-start_route, lookup-finish_and_wait, a r refl) (ground arith)
    | inr q ↦ rw q (ground arith)
  ]

  -- What becomes of an alias in the loop over the old routes.
  abbrev pub after_olds : Option Route → Option Route → Option Route → Option Route
  after_olds none n now = now
  after_olds (some old) n now = after_old old n now

  lookup-handle_olds :
      (k : Bytes) (new olds : Routes) (p : Provider)
      → IsMap new
      → IsMap olds
      → lookup k (handle_olds starts matches new olds p).routes
        ≡ after_olds (lookup k olds) (lookup k new) (lookup k p.routes)
  unfolding handle_olds lookup
  lookup-handle_olds k new [] p hn ho = refl
  lookup-handle_olds k new ((j, old) ∷ olds) p hn (free, a, ho) =
      lookup-handle_olds k new olds (handle_old starts matches (lookup j new) old p) hn ho
      ∙ either (Bool-cases (bytes_eq k j))
    where
      step :
          (i : Bytes)
          → lookup i (handle_old starts matches (lookup j new) old p).routes ≡ (
              if bytes_eq i j
              then after_old old (lookup j new) (lookup i p.routes)
              else lookup i p.routes)
      step i =
          lookup-handle_old i (lookup j new) old p (λ r e. IsMap-alias j r new hn e ∙ sym a)
          ∙ ap
              (λ (x : Bytes).
                if bytes_eq i x
                then after_old old (lookup j new) (lookup i p.routes)
                else lookup i p.routes)
              a

      either :
          (bytes_eq k j ≡ true) ⊎ (bytes_eq k j ≡ false)
          → after_olds
              (lookup k olds)
              (lookup k new)
              (lookup k (handle_old starts matches (lookup j new) old p).routes)
            ≡ after_olds
                (if bytes_eq k j then some old else lookup k olds)
                (lookup k new)
                (lookup k p.routes)
      either (inl q) =
          rw (bytes_eq→eq k j q, free, bytes_eq_refl j) (step j ∙ rw (bytes_eq_refl j) refl)
      either (inr q) = rw (step k, q) refl

  -- What becomes of an alias in the loop over the new routes.
  abbrev pub after_news : Option Route → Option Route → Option Route → Option Route
  after_news old none now = now
  after_news none (some new) now = started new
  after_news (some old) (some new) now = now

  handle_new_same :
      (j : Bytes) (o : Option Route) (new : Route) (p : Provider)
      → new.alias ≡ j
      → lookup j (handle_new starts matches o new p).routes
        ≡ after_news o (some new) (lookup j p.routes)
  unfolding handle_new add
  handle_new_same j none new p a =
      ap (lookup j) (report_routes _ (start_route starts new p.routes) p.errs)
      ∙ lookup-start_route j new p.routes
      ∙ rw (a, bytes_eq_refl j) refl
  handle_new_same j (some old) new p a = refl

  handle_new_other :
      (k j : Bytes) (o : Option Route) (new : Route) (p : Provider)
      → new.alias ≡ j
      → bytes_eq k j ≡ false
      → lookup k (handle_new starts matches o new p).routes ≡ lookup k p.routes
  unfolding handle_new add
  handle_new_other k j none new p a q =
      ap (lookup k) (report_routes _ (start_route starts new p.routes) p.errs)
      ∙ lookup-start_route k new p.routes
      ∙ rw (a, q) refl
  handle_new_other k j (some old) new p a q = refl

  lookup-handle_news :
      (k : Bytes) (old news : Routes) (p : Provider)
      → IsMap news
      → lookup k (handle_news starts matches old news p).routes
        ≡ after_news (lookup k old) (lookup k news) (lookup k p.routes)
  unfolding handle_news lookup
  lookup-handle_news k old [] p h = refl
  lookup-handle_news k old ((j, new) ∷ news) p (free, a, h) =
      lookup-handle_news k old news (handle_new starts matches (lookup j old) new p) h
      ∙ either (Bool-cases (bytes_eq k j))
    where
      either :
          (bytes_eq k j ≡ true) ⊎ (bytes_eq k j ≡ false)
          → after_news
              (lookup k old)
              (lookup k news)
              (lookup k (handle_new starts matches (lookup j old) new p).routes)
            ≡ after_news
                (lookup k old)
                (if bytes_eq k j then some new else lookup k news)
                (lookup k p.routes)
      either (inl q) =
          rw (bytes_eq→eq k j q, free, bytes_eq_refl j) (handle_new_same j (lookup j old) new p a)
      either (inr q) = rw (handle_new_other k j (lookup j old) new p a q, q) refl

  -- The route that an alias has after the events, by its old route and its new one.
  unfoldable pub settled : Option Route → Option Route → Option Route
  settled none none = none
  settled none (some new) = started new
  settled (some old) none = if old.excluded then some old else none
  settled (some old) (some new) = if matches new then started new else some old

  settled_lem : (o n : Option Route) → after_news o n (after_olds o n o) ≡ settled o n
  unfolding settled
  settled_lem none none = refl
  settled_lem none (some new) = refl
  settled_lem (some old) none = refl
  settled_lem (some old) (some new) = refl

  lookup-reconcile :
      (k : Bytes) (new : Routes) (p : Provider)
      → IsMap new
      → IsMap p.routes
      → lookup k (reconcile starts matches new p).routes
        ≡ settled (lookup k p.routes) (lookup k new)
  unfolding reconcile
  lookup-reconcile k new p hn hp =
      lookup-handle_news k p.routes new (handle_olds starts matches new p.routes p) hn
      ∙ ap (after_news (lookup k p.routes) (lookup k new))
          (lookup-handle_olds k new p.routes p hn hp)
      ∙ settled_lem (lookup k p.routes) (lookup k new)

  lookup-after_load :
      (k : Bytes) (force : Bool) (l : Routes × Bool) (p : Provider)
      → IsMap l.0
      → IsMap p.routes
      → ((GivesUp force l)
          × (lookup k (after_load starts matches force l p).routes ≡ lookup k p.routes))
        ⊎ ((¬ GivesUp force l)
            × (lookup k (after_load starts matches force l p).routes
                ≡ settled (lookup k p.routes) (lookup k l.0)))
  unfolding after_load
  lookup-after_load k force (new, false) p hn hp =
      inr ((λ g. absurd (cc)), lookup-reconcile k new p hn hp)
  lookup-after_load k true ([], true) p hn hp =
      inr ((λ g. absurd (cc)), lookup-reconcile k [] _ hn hp)
  lookup-after_load k false ([], true) p hn hp = inl ((refl, refl, refl), refl)
  lookup-after_load k force (e ∷ new, true) p hn hp =
      inr ((λ g. absurd (cc)), lookup-reconcile k (e ∷ new) _ hn hp)

-- A source's map has each key once.
abbrev pub IsDistinct : Routes → Type 0
IsDistinct [] = Unit {0}
IsDistinct ((k, r) ∷ m) = (lookup k m ≡ none) × IsDistinct m

module _ (valid : Route → Bool) where
  lookup-validate_routes :
      (k : Bytes) (m : Routes) → lookup k m ≡ none → lookup k (validate_routes valid m).0 ≡ none
  unfolding lookup validate_routes
  lookup-validate_routes k [] e = refl
  lookup-validate_routes k ((j, r) ∷ m) e = ground (arith, lookup-validate_routes k m)

  validate_routes-IsMap : (m : Routes) → IsDistinct m → IsMap (validate_routes valid m).0
  unfolding validate_routes
  validate_routes-IsMap [] h = tt
  validate_routes-IsMap ((k, r) ∷ m) h = elim (Bool-cases (valid (record r { alias = k }))) [
    | inl e ↦ rw e (lookup-validate_routes k m h.0, refl, validate_routes-IsMap m h.1)
    | inr e ↦ rw e (validate_routes-IsMap m h.1)
  ]

  pub load_routes-IsMap : (l : Routes × Bool) → IsDistinct l.0 → IsMap (load_routes valid l).0
  unfolding load_routes
  load_routes-IsMap ([], failed) h = tt
  load_routes-IsMap (x ∷ m, failed) h = validate_routes-IsMap (x ∷ m) h

module _ (starts valid : Route → Bool) (t : ProviderType) (loaded : Routes × Bool)
    (events : List Event) (p : Provider) where
  pub handle-lookup :
      IsDistinct loaded.0
      → IsMap p.routes
      → (k : Bytes)
      → (GivesUp (any_force_reload events) (load_routes valid loaded)
          × (lookup k (handle starts valid t loaded events p).routes ≡ lookup k p.routes))
        ⊎ (¬ GivesUp (any_force_reload events) (load_routes valid loaded)
            × (lookup k (handle starts valid t loaded events p).routes
                ≡ settled starts
                    (match_any t events)
                    (lookup k p.routes)
                    (lookup k (load_routes valid loaded).0)))
  unfolding handle
  handle-lookup hl hp k =
      lookup-after_load starts (match_any t events) k (any_force_reload events)
        (load_routes valid loaded) p (load_routes-IsMap valid loaded hl) hp
