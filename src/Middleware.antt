-- ===== src/Middleware.antt =====
-- internal/net/gphttp/middleware: middleware.go, middleware_chain.go and bypass.go: what middlewares do
-- before a request and after its response. `W` is what they work on. What one middleware does is a
-- function: before a request it says whether to go on, and after a response whether it failed, without
-- the error's text. A bypass rule is its check, and an enforced prefix the test on the request's path.
pub mod CidrWhitelist
pub mod RealIp
pub mod Flatten
mod Tests
use godoxy.Prelude.{
  Bool, true, false, not, ◌&&◌, ◌||◌, Option, none, some, List, [], ◌∷◌, if◌then◌else◌,
}

abbrev pub Before : Type 0 → Type 0
Before W = W → W × Bool

-- The state after it, and whether there was no error.
abbrev pub Modify : Type 0 → Type 0
Modify W = W → W × Bool

-- `middlewareChain`, with the modifiers of its parts.
pub record Chain (W : Type 0) : Type 0 where
  pub befores : List (Before W)
  pub mod_resps : List (Modify W)

pub record CheckBypass (W : Type 0) : Type 0 where
  pub bypass : List (W → Bool)
  pub mod_req : Option (Before W)
  pub mod_res : Option (Modify W)
  pub enforced : List (W → Bool)

-- The `impl` of a middleware: its own, which may modify requests, responses, or both; one under bypass
-- rules; or a chain.
pub data Impl (W : Type 0) : Type 0 where
  own : Option (Before W) → Option (Modify W) → Impl W
  check_bypass : CheckBypass W → Impl W
  chain : Chain W → Impl W

abbrev pub append_some : {A : Type 0} → Option A → List A → List A
append_some none ms = ms
append_some (some m) ms = m ∷ ms

module _ {W : Type 0} where
  unfoldable pub any_matches : List (W → Bool) → W → Bool
  any_matches [] w = false
  any_matches (f ∷ fs) w = if f w then true else any_matches fs w

  abbrev pub bypassed : CheckBypass W → W → Bool
  bypassed c w = not (any_matches c.enforced w) && any_matches c.bypass w

  -- `before` of a checkBypass.
  unfoldable pub bypass_before : CheckBypass W → Before W
  unfolding any_matches
  bypass_before c w = elim c.mod_req [
    | none ↦ (w, true)
    | some f ↦ if bypassed c w then (w, true) else f w
  ]

  unfoldable pub bypass_modify : CheckBypass W → Modify W
  unfolding any_matches
  bypass_modify c w = elim c.mod_res [
    | none ↦ (w, true)
    | some f ↦ if bypassed c w then (w, true) else f w
  ]

  -- `withCheckBypass`, for the bypass rules of a middleware and its enforced prefixes.
  unfoldable pub with_check_bypass :
      List (W → Bool) → List (W → Bool) → Option (Before W) → Option (Modify W) → Impl W
  with_check_bypass [] enforced req res = own req res
  with_check_bypass (b ∷ bs) enforced req res =
      check_bypass (record { bypass = b ∷ bs; mod_req = req; mod_res = res; enforced = enforced })

  -- The loop of a chain's `before`, which stops at the first that does not go on.
  unfoldable pub run_all : List (Before W) → W → W × Bool
  run_all [] w = (w, true)
  run_all (f ∷ fs) w = let (w', ok) = f w in elim ok [ true ↦ run_all fs w' | false ↦ (w', false) ]

  -- The `RequestModifier` of an `impl`, if it is one, and its `ResponseModifier`.
  unfoldable pub request_modifier : Impl W → Option (Before W)
  unfolding bypass_before run_all
  request_modifier (own req res) = req
  request_modifier (check_bypass c) = some (bypass_before c)
  request_modifier (chain c) = some (run_all c.befores)

  unfoldable pub response_modifier : Impl W → Option (Modify W)
  unfolding bypass_modify run_all
  response_modifier (own req res) = res
  response_modifier (check_bypass c) = some (bypass_modify c)
  response_modifier (chain c) = some (run_all c.mod_resps)

  -- `NewMiddlewareChain`.
  unfoldable pub collect_befores : List (Impl W) → List (Before W)
  unfolding request_modifier
  collect_befores [] = []
  collect_befores (m ∷ ms) = append_some (request_modifier m) (collect_befores ms)

  unfoldable pub collect_mod_resps : List (Impl W) → List (Modify W)
  unfolding response_modifier
  collect_mod_resps [] = []
  collect_mod_resps (m ∷ ms) = append_some (response_modifier m) (collect_mod_resps ms)

  unfoldable pub new_middleware_chain : List (Impl W) → Impl W
  unfolding collect_befores collect_mod_resps
  new_middleware_chain ms =
      chain (record { befores = collect_befores ms; mod_resps = collect_mod_resps ms })

  -- `TryModifyRequest` and `ModifyResponse`.
  unfoldable pub try_modify_request : Impl W → Before W
  unfolding request_modifier
  try_modify_request m w = elim (request_modifier m) [ none ↦ (w, true) | some f ↦ f w ]

  unfoldable pub modify_response : Impl W → Modify W
  unfolding response_modifier
  modify_response m w = elim (response_modifier m) [ none ↦ (w, true) | some f ↦ f w ]

  -- `ModifyRequest`, which calls the next handler.
  unfoldable pub modify_request : Impl W → (W → W) → W → W
  unfolding try_modify_request
  modify_request m next w =
      let (w', ok) = try_modify_request m w in elim ok [ true ↦ next w' | false ↦ w' ]
