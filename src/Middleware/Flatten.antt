-- ===== src/Middleware/Flatten.antt =====
-- internal/net/gphttp/middleware: a chain inside a chain.
use godoxy.Prelude.{
  ◌≡◌, refl, sym, ap, ◌∙◌, Bool, true, false, Option, none, some, List, [], ◌∷◌, ◌++◌,
}
use godoxy.Middleware.{
  Before, Impl, run_all, request_modifier, response_modifier, append_some, collect_befores,
  collect_mod_resps, new_middleware_chain, try_modify_request, modify_response,
}

some-append :
    {A : Type 0} (o : Option A) (xs ys : List A) → append_some o (xs ++ ys) ≡ append_some o xs ++ ys
some-append none xs ys = refl
some-append (some m) xs ys = refl

module _ {W : Type 0} where
  -- Going on after a step, unless it stopped.
  abbrev proceed : (W → W × Bool) → W × Bool → W × Bool
  proceed k (w, true) = k w
  proceed k (w, false) = (w, false)

  proceed_assoc :
      (k j : W → W × Bool) (r : W × Bool)
      → proceed j (proceed k r) ≡ proceed (λ w. proceed j (k w)) r
  proceed_assoc k j (w, true) = refl
  proceed_assoc k j (w, false) = refl

  proceed-ext :
      {k j : W → W × Bool} → ((w : W) → k w ≡ j w) → (r : W × Bool) → proceed k r ≡ proceed j r
  proceed-ext h (w, true) = h w
  proceed-ext h (w, false) = refl

  run_all-cons :
      (f : Before W) (fs : List (Before W)) (w : W)
      → run_all (f ∷ fs) w ≡ proceed (run_all fs) (f w)
  unfolding run_all
  run_all-cons f fs w = went (f w)
    where
      went :
          (r : W × Bool)
          → (let (w', ok) = r in
              elim ok as (λ _. W × Bool) [ true ↦ run_all fs w' | false ↦ (w', false) ])
            ≡ proceed (run_all fs) r
      went (w, true) = refl
      went (w, false) = refl

  run_all-append :
      (fs gs : List (Before W)) (w : W) → run_all (fs ++ gs) w ≡ proceed (run_all gs) (run_all fs w)
  unfolding run_all
  run_all-append [] gs w = refl
  run_all-append (f ∷ fs) gs w =
      run_all-cons f (fs ++ gs) w
      ∙ proceed-ext (run_all-append fs gs) (f w)
      ∙ sym (proceed_assoc (run_all fs) (run_all gs) (f w))
      ∙ ap (proceed (run_all gs)) (sym (run_all-cons f fs w))

  -- A list of steps inside a list of steps.
  run_all-nested :
      (fs gs hs : List (Before W)) (w : W)
      → run_all (fs ++ run_all gs ∷ hs) w ≡ run_all (fs ++ (gs ++ hs)) w
  run_all-nested fs gs hs w =
      run_all-append fs (run_all gs ∷ hs) w
      ∙ proceed-ext (λ w. run_all-cons (run_all gs) hs w ∙ sym (run_all-append gs hs w))
          (run_all fs w)
      ∙ sym (run_all-append fs (gs ++ hs) w)

  collect_befores-append :
      (ms ns : List (Impl W))
      → collect_befores (ms ++ ns) ≡ collect_befores ms ++ collect_befores ns
  unfolding collect_befores
  collect_befores-append [] ns = refl
  collect_befores-append (m ∷ ms) ns =
      ap (append_some (request_modifier m)) (collect_befores-append ms ns)
      ∙ some-append (request_modifier m) (collect_befores ms) (collect_befores ns)

  collect_mod_resps-append :
      (ms ns : List (Impl W))
      → collect_mod_resps (ms ++ ns) ≡ collect_mod_resps ms ++ collect_mod_resps ns
  unfolding collect_mod_resps
  collect_mod_resps-append [] ns = refl
  collect_mod_resps-append (m ∷ ms) ns =
      ap (append_some (response_modifier m)) (collect_mod_resps-append ms ns)
      ∙ some-append (response_modifier m) (collect_mod_resps ms) (collect_mod_resps ns)

  -- A chain inside a chain does to a request and to a response what its parts do in its place.
  pub new_middleware_chain-nested :
      (ms ns os : List (Impl W)) (w : W)
      → (try_modify_request (new_middleware_chain (ms ++ new_middleware_chain ns ∷ os)) w
          ≡ try_modify_request (new_middleware_chain (ms ++ (ns ++ os))) w)
        × (modify_response (new_middleware_chain (ms ++ new_middleware_chain ns ∷ os)) w
            ≡ modify_response (new_middleware_chain (ms ++ (ns ++ os))) w)
  unfolding try_modify_request modify_response new_middleware_chain request_modifier
      response_modifier collect_befores collect_mod_resps
  new_middleware_chain-nested ms ns os w = (
    ap (λ fs. run_all fs w) (collect_befores-append ms (new_middleware_chain ns ∷ os))
        ∙ run_all-nested (collect_befores ms) (collect_befores ns) (collect_befores os) w
        ∙ ap (λ fs. run_all (collect_befores ms ++ fs) w) (sym (collect_befores-append ns os))
        ∙ ap (λ fs. run_all fs w) (sym (collect_befores-append ms (ns ++ os))),
    ap (λ fs. run_all fs w) (collect_mod_resps-append ms (new_middleware_chain ns ∷ os))
        ∙ run_all-nested (collect_mod_resps ms) (collect_mod_resps ns) (collect_mod_resps os) w
        ∙ ap (λ fs. run_all (collect_mod_resps ms ++ fs) w) (sym (collect_mod_resps-append ns os))
        ∙ ap (λ fs. run_all fs w) (sym (collect_mod_resps-append ms (ns ++ os))),
  )
