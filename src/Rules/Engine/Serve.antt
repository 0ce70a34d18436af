-- ===== src/Rules/Engine/Serve.antt =====
-- internal/route/rules/rules.go: the handler that BuildHandler returns. The panic of isBypass at an
-- empty list of commands, which buildCmd never builds, comes here when a request is served.
use godoxy.Prelude.{Bool, true, false, not, ◌&&◌, ◌||◌, Option, none, some, List, [], ◌∷◌}
use godoxy.Rules.Command.{Error, err_terminated, other_error}
use godoxy.Rules.Engine.{
  Rule, Run, went_on, returned, panicked, and_then, is_response_rule, rule_check, rule_handle,
  rule_bypasses, rule_terminates, pass_rule, split_default, pre_rules, post_rules,
  append_rule_error,
}

-- What a request has come to: the handler returned, or panicked.
pub data Outcome (W : Type 0) : Type 0 where
  served crashed : W → Outcome W

module _ {W : Type 0} where
  -- After a handler: whether there was no error.
  abbrev pub after_handle : Rule W → W → Option Error → Run W Bool
  after_handle r w none = went_on w true
  after_handle r w (some err_terminated) = went_on w false
  after_handle r w (some other_error) = went_on (append_rule_error r w) false

  -- A rule of the request phase that applies: whether the upstream is still to be called.
  unfoldable pub apply_rule : Rule W → W → Run W Bool
  apply_rule r w = and_then (rule_bypasses r w) (λ w b. elim b [
    | true ↦ went_on w true
    | false ↦ and_then (rule_handle r w) (after_handle r)
  ])

  -- The default rule before the others, when it does not end the request.
  unfoldable pub first_default : Option (Rule W) → W → Run W Bool
  first_default none w = went_on w true
  first_default (some d) w = elim (is_response_rule d || rule_terminates d) [
    | true ↦ went_on w true
    | false ↦ apply_rule d w
  ]

  -- The loop over the rules for the request: whether the upstream is still to be called, and whether
  -- a rule matched.
  unfoldable pub pre_loop : List (Rule W) → Bool → W → Run W (Bool × Bool)
  pre_loop [] matched w = went_on w (true, matched)
  pre_loop (r ∷ rs) matched w = elim (rule_check r w) [
    | false ↦ pre_loop rs matched w
    | true ↦ and_then (rule_bypasses r w) (λ w b. elim b [
      | true ↦ went_on w (true, true)
      | false ↦ and_then (rule_handle r w) (λ w e.
          and_then (after_handle r w e)
            (λ w ok. elim ok [ true ↦ pre_loop rs true w | false ↦ went_on w (false, true) ]))
    ])
  ]

  -- After the handler of the default rule that ends the request; another error returns.
  abbrev pub after_last : Rule W → W → Option Error → Run W Bool
  after_last r w none = went_on w true
  after_last r w (some err_terminated) = went_on w false
  after_last r w (some other_error) = returned (append_rule_error r w)

  unfoldable pub last_default : Option (Rule W) → Bool → Bool → W → Run W Bool
  last_default none call matched w = went_on w call
  last_default (some d) call matched w =
      elim (not (is_response_rule d) && rule_terminates d && call && not matched) [
        | false ↦ went_on w call
        | true ↦ and_then (rule_bypasses d w) (λ w b. elim b [
          | true ↦ went_on w call
          | false ↦ and_then (rule_handle d w) (after_last d)
        ])
      ]

  -- After the handler of a rule for the response: an error returns.
  abbrev pub after_post : Rule W → W → Option Error → Run W Unit
  after_post r w none = went_on w tt
  after_post r w (some err_terminated) = returned w
  after_post r w (some other_error) = returned (append_rule_error r w)

  unfoldable pub post_loop : List (Rule W) → W → Run W Unit
  post_loop [] w = went_on w tt
  post_loop (r ∷ rs) w = elim (rule_check r w) [
    | false ↦ post_loop rs w
    | true ↦ and_then (rule_handle r w) (λ w e. and_then (after_post r w e) (λ w _. post_loop rs w))
  ]

  unfoldable pub post_default : Option (Rule W) → W → Run W Unit
  post_default none w = went_on w tt
  post_default (some d) w = elim (is_response_rule d) [
    | false ↦ went_on w tt
    | true ↦ and_then (rule_handle d w) (after_post d)
  ]

  abbrev pub call_upstream : (W → W) → Bool → W → W
  call_upstream up true w = up w
  call_upstream up false w = w

  -- The rules for the request, unless the default rule ended it.
  abbrev pub pre_phase : List (Rule W) → W → Bool → Run W (Bool × Bool)
  pre_phase rs w true = pre_loop rs false w
  pre_phase rs w false = went_on w (false, false)

  -- What comes before the upstream: whether it is to be called.
  unfoldable pub request_phase : Option (Rule W) → List (Rule W) → W → Run W Bool
  unfolding first_default pre_loop last_default
  request_phase d pre w =
      and_then (first_default d w)
        (λ w call. and_then (pre_phase pre w call) (λ w cm. last_default d (cm.0) (cm.1) w))

  unfoldable pub response_phase : Option (Rule W) → List (Rule W) → W → Run W Unit
  unfolding post_loop post_default
  response_phase d post w = and_then (post_loop post w) (λ w _. post_default d w)

  -- The handler with rules that are not the default rule.
  unfoldable pub serve_rules : Option (Rule W) → List (Rule W) → (W → W) → W → Run W Unit
  unfolding request_phase response_phase
  serve_rules d rs up w =
      and_then (request_phase d (pre_rules rs) w)
        (λ w call. response_phase d (post_rules rs) (call_upstream up call w))

  -- The handler with the default rule alone.
  unfoldable pub serve_default : Rule W → (W → W) → W → Run W Unit
  serve_default d up w = elim (is_response_rule d) [
    | true ↦ and_then (rule_handle d (up w)) (after_post d)
    | false ↦
        and_then (rule_handle d w)
          (λ w e. and_then (after_handle d w e) (λ w call. went_on (call_upstream up call w) tt))
  ]

  -- The deferred flush, which a panic runs too.
  abbrev pub flushed : (W → W) → Run W Unit → Outcome W
  flushed flush (went_on w _) = served (flush w)
  flushed flush (returned w) = served (flush w)
  flushed flush (panicked w) = crashed (flush w)

  abbrev pub or_pass : Option (Rule W) → Rule W
  or_pass none = pass_rule
  or_pass (some d) = d

  unfoldable pub serve_split :
      (W → W) → (W → W) → (W → W) → Option (Rule W) × List (Rule W) → W → Outcome W
  unfolding serve_rules serve_default
  serve_split begin flush up (d, r ∷ rs) w = flushed flush (serve_rules d (r ∷ rs) up (begin w))
  serve_split begin flush up (d, []) w = elim (rule_bypasses (or_pass d) w) [
    | went_on _ true ↦ served (up w)
    | went_on _ false ↦ flushed flush (serve_default (or_pass d) up (begin w))
    | returned w ↦ served w
    | panicked w ↦ crashed w
  ]

  unfoldable pub build_handler : (W → W) → (W → W) → List (Rule W) → (W → W) → W → Outcome W
  unfolding split_default serve_split
  build_handler begin flush [] up w = served (up w)
  build_handler begin flush (r ∷ rs) up w =
      serve_split begin flush up (split_default none (r ∷ rs)) w
