-- ===== src/Rules/Command.antt =====
-- internal/route/rules/command.go, with buildCmd, isBypass and isTerminatingHandler: the commands of a
-- rule. `W` is all that a request works on, the request, the response and the outside; what one
-- command does to it is a function.
pub mod Grammar
use godoxy.Prelude.{
  ℕ, suc, Bool, true, false, not, ◌&&◌, ◌||◌, Option, none, some, leb, ◌==◌, if◌then◌else◌,
}

-- An error that a command returns: `errTerminated`, or another.
pub data Error : Type 0 where
  err_terminated other_error : Error

-- `handlerFunc`: the state after it, and the error or nil.
abbrev pub HandlerFunc : Type 0 → Type 0
HandlerFunc W = W → W × Option Error

mutual
  pub data Command (W : Type 0) : Type 0 where
    non_terminating terminating on_response : HandlerFunc W → Command W
    bypass : Command W
    commands : Commands W → Command W

  pub data Commands (W : Type 0) : Type 0 where
    nil : Commands W
    cons : Command W → Commands W → Commands W

module _ {W : Type 0} where
  -- A command that ended well ends the request.
  end_request : W × Option Error → W × Option Error
  end_request (w, some e) = (w, some e)
  end_request (w, none) = (w, some err_terminated)

  unfoldable mutual
    unfolding end_request

    pub handle : Command W → W → W × Option Error
    handle (non_terminating f) w = f w
    handle (terminating f) w = end_request (f w)
    handle (on_response f) w = f w
    handle bypass w = (w, some err_terminated)
    handle (commands cs) w = handle_all cs w

    pub handle_all : Commands W → W → W × Option Error
    handle_all nil w = (w, none)
    handle_all (cons c cs) w =
        let (w', err) = handle c w in elim err [ some e ↦ (w', some e) | none ↦ handle_all cs w' ]

  unfoldable mutual
    pub is_response_handler : Command W → Bool
    is_response_handler (non_terminating f) = false
    is_response_handler (terminating f) = false
    is_response_handler (on_response f) = true
    is_response_handler bypass = false
    is_response_handler (commands cs) = any_response_handler cs

    pub any_response_handler : Commands W → Bool
    any_response_handler nil = false
    any_response_handler (cons c cs) = is_response_handler c || any_response_handler cs

  unfoldable mutual
    pub is_terminating_handler : Command W → Bool
    is_terminating_handler (non_terminating f) = false
    is_terminating_handler (terminating f) = true
    is_terminating_handler (on_response f) = false
    is_terminating_handler bypass = false
    is_terminating_handler (commands cs) = last_terminates cs

    -- The last command, or false for none.
    pub last_terminates : Commands W → Bool
    last_terminates nil = false
    last_terminates (cons c nil) = is_terminating_handler c
    last_terminates (cons c (cons d cs)) = last_terminates (cons d cs)

  abbrev pub is_bypass_command : Command W → Bool
  is_bypass_command bypass = true
  is_bypass_command _ = false

  unfoldable pub last_bypasses : Command W → Commands W → Bool
  last_bypasses c nil = is_bypass_command c
  last_bypasses c (cons d cs) = last_bypasses d cs

  -- `isBypass` of the handler that a rule has: `none` is the panic at an empty list.
  unfoldable pub is_bypass : Option (Command W) → Option Bool
  unfolding last_bypasses
  is_bypass (some (commands nil)) = none
  is_bypass (some (commands (cons c cs))) = some (last_bypasses c cs)
  is_bypass (some bypass) = some true
  is_bypass _ = some false

  -- The first loop of `buildCmd`, from index `i`: `lastNonResp` is kept as one more, so 0 is -1.
  unfoldable pub scan : Commands W → ℕ → ℕ → Bool → Option ℕ
  scan nil i last seen_resp = some last
  scan (cons c cs) i last seen_resp =
      let after_resp = scan cs (suc i) last true in
      let after_req = scan cs (suc i) (suc i) seen_resp in
      if is_response_handler c then after_resp else if seen_resp then none else after_req

  -- A `TerminatingCommand` or a `BypassCommand`.
  abbrev pub ends_request : Command W → Bool
  ends_request (terminating f) = true
  ends_request bypass = true
  ends_request _ = false

  -- The second loop, from index `i`.
  unfoldable pub in_order : Commands W → ℕ → ℕ → Bool
  in_order nil i last = true
  in_order (cons c cs) i last =
      let rest = in_order cs (suc i) last in
      if leb last i then true else if ends_request c && not (suc i == last) then false else rest

  -- `none` is `ErrInvalidCommandSequence`.
  unfoldable pub build_cmd : Commands W → Option (Command W)
  unfolding scan in_order
  build_cmd executors = elim (scan executors 0 0 false) [
    | none ↦ none
    | some last ↦ if in_order executors 0 last then some (commands executors) else none
  ]
