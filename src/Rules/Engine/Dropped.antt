-- ===== src/Rules/Engine/Dropped.antt =====
-- internal/route/rules/rules.go: how a rule is served whose commands end with a bypass, which the
-- handler asks before the commands run.
use mathlib.Core.Path.{fun_ext}
use mathlib.Core.Option
use godoxy.Prelude.{
  ◌≡◌, inl, inr, refl, sym, ap, ◌∙◌, Bool, true, false, Option, none, some, List, [], ◌∷◌, map,
  Bool-cases,
}
use godoxy.Rules.Command.{is_bypass}
use godoxy.Rules.Engine.{
  Rule, Run, went_on, returned, panicked, and_then, is_default_rule, is_response_rule, rule_check,
  rule_handle, rule_bypasses, split_default, pre_rules, post_rules,
}
use godoxy.Rules.Engine.Serve.{
  pre_loop, last_default, first_default, post_default, apply_rule, after_handle, request_phase,
  response_phase, serve_rules, serve_split, build_handler, flushed, pre_phase, or_pass, Outcome,
  served, serve_default, crashed,
}
use godoxy.Rules.Engine.OnlyBypass.{
  only_bypass, dropped, dropped-cases, dropped-default, dropped-response, dropped-check,
}

module _ {W : Type 0} where
  -- What a rule for the request that matches does, before `rest`.
  abbrev then_rest : Rule W → (W → Run W (Bool × Bool)) → W → Run W (Bool × Bool)
  then_rest r rest w = and_then (rule_bypasses r w) (λ w b. elim b [
    | true ↦ went_on w (true, true)
    | false ↦ and_then (rule_handle r w) (λ w e.
        and_then (after_handle r w e)
          (λ w ok. elim ok [ true ↦ rest w | false ↦ went_on w (false, true) ]))
  ])

  then_rest-dropped :
      (r : Rule W) (rest : W → Run W (Bool × Bool)) (w : W)
      → then_rest (dropped r) rest w ≡ then_rest r rest w
  then_rest-dropped r rest w = elim (dropped-cases r) [
    | inl e ↦ ap (λ r. then_rest r rest w) e
    | inr (p, q) ↦ rw (p.bypasses w, q.bypasses w) refl
  ]

  pre_loop-dropped :
      (rs : List (Rule W)) (matched : Bool) (w : W)
      → pre_loop (map dropped rs) matched w ≡ pre_loop rs matched w
  unfolding pre_loop
  pre_loop-dropped [] matched w = refl
  pre_loop-dropped (r ∷ rs) matched w = elim (Bool-cases (rule_check r w)) [
    | inl c ↦
        rw (pre_loop, dropped-check r w, c)
          (then_rest-dropped r (pre_loop (map dropped rs) true) w
            ∙ ap (λ k. then_rest r k w) (fun_ext (pre_loop-dropped rs true)))
    | inr c ↦ rw (pre_loop, dropped-check r w, c) (pre_loop-dropped rs matched w)
  ]

  pre_rules-dropped : (rs : List (Rule W)) → pre_rules (map dropped rs) ≡ map dropped (pre_rules rs)
  unfolding pre_rules
  pre_rules-dropped [] = refl
  pre_rules-dropped (r ∷ rs) = elim (Bool-cases (is_response_rule r)) [
    | inl p ↦ rw (dropped-response r, p) (pre_rules-dropped rs)
    | inr p ↦ rw (dropped-response r, p) (ap (◌∷◌ (dropped r)) (pre_rules-dropped rs))
  ]

  post_rules-dropped : (rs : List (Rule W)) → post_rules (map dropped rs) ≡ post_rules rs
  unfolding post_rules dropped
  post_rules-dropped [] = refl
  post_rules-dropped (r ∷ rs) = elim (Bool-cases (is_response_rule r)) [
    | inl p ↦ rw (p, p, post_rules-dropped rs) refl
    | inr p ↦ rw (dropped-response r, p) (post_rules-dropped rs)
  ]

  first_default-dropped :
      (d : Option (Rule W)) (w : W) → first_default (Option.map dropped d) w ≡ first_default d w
  unfolding first_default apply_rule
  first_default-dropped none w = refl
  first_default-dropped (some d) w = elim (dropped-cases d) [
    | inl e ↦ ap (λ d. first_default (some d) w) e
    | inr (p, q) ↦
        rw
          (
            first_default,
            p.is_request,
            p.goes_on,
            q.is_request,
            q.goes_on,
            apply_rule,
            p.bypasses w,
            q.bypasses w,
          )
          refl
  ]

  last_default-dropped :
      (d : Option (Rule W)) (call matched : Bool) (w : W)
      → last_default (Option.map dropped d) call matched w ≡ last_default d call matched w
  unfolding last_default
  last_default-dropped none call matched w = refl
  last_default-dropped (some d) call matched w = elim (dropped-cases d) [
    | inl e ↦ ap (λ d. last_default (some d) call matched w) e
    | inr (p, q) ↦ rw (last_default, p.is_request, p.goes_on, q.is_request, q.goes_on) refl
  ]

  post_default-dropped :
      (d : Option (Rule W)) (w : W) → post_default (Option.map dropped d) w ≡ post_default d w
  unfolding post_default
  post_default-dropped none w = refl
  post_default-dropped (some d) w = elim (dropped-cases d) [
    | inl e ↦ ap (λ d. post_default (some d) w) e
    | inr (p, q) ↦ rw (post_default, p.is_request, q.is_request) refl
  ]

  pre_phase-dropped :
      (rs : List (Rule W)) (w : W) (call : Bool)
      → pre_phase (map dropped rs) w call ≡ pre_phase rs w call
  pre_phase-dropped rs w true = pre_loop-dropped rs false w
  pre_phase-dropped rs w false = refl

  request_phase-dropped :
      (d : Option (Rule W)) (rs : List (Rule W)) (w : W)
      → request_phase (Option.map dropped d) (map dropped rs) w ≡ request_phase d rs w
  unfolding request_phase
  request_phase-dropped d rs w = λ i. and_then (first_default-dropped d w i) (λ w call.
      and_then (pre_phase-dropped rs w call i) (λ w cm. last_default-dropped d cm.0 cm.1 w i))

  serve_rules-dropped :
      (d : Option (Rule W)) (rs : List (Rule W)) (up : W → W) (w : W)
      → serve_rules (Option.map dropped d) (map dropped rs) up w ≡ serve_rules d rs up w
  unfolding serve_rules response_phase
  serve_rules-dropped d rs up w =
      rw
        (
          pre_rules-dropped rs,
          post_rules-dropped rs,
          request_phase-dropped d (pre_rules rs) w,
          fun_ext (post_default-dropped d),
        )
        refl

  split_default-dropped :
      (d : Option (Rule W)) (rs : List (Rule W))
      → split_default (Option.map dropped d) (map dropped rs)
        ≡ (Option.map dropped (split_default d rs).0, map dropped (split_default d rs).1)
  unfolding split_default
  split_default-dropped d [] = refl
  split_default-dropped d (r ∷ rs) = elim (Bool-cases (is_default_rule r)) [
    | inl e ↦ rw (split_default, dropped-default r, e) (split_default-dropped (some r) rs)
    | inr e ↦ rw (split_default, dropped-default r, e, split_default-dropped d rs) refl
  ]

  or_pass-dropped : (d : Option (Rule W)) → or_pass (Option.map dropped d) ≡ dropped (or_pass d)
  unfolding dropped only_bypass is_bypass
  or_pass-dropped none = refl
  or_pass-dropped (some d) = refl

  -- The handler with no rule but the default one, by what its `isBypass` came to.
  abbrev answer : (W → W) → (W → W) → (W → W) → W → Rule W → Run W Bool → Outcome W
  answer begin flush up w d b = elim b [
    | went_on _ true ↦ served (up w)
    | went_on _ false ↦ flushed flush (serve_default d up (begin w))
    | returned w ↦ served w
    | panicked w ↦ crashed w
  ]

  abbrev alone : (W → W) → (W → W) → (W → W) → W → Rule W → Outcome W
  alone begin flush up w d = answer begin flush up w d (rule_bypasses d w)

  alone-dropped :
      (begin flush up : W → W) (w : W) (d : Rule W)
      → alone begin flush up w (dropped d) ≡ alone begin flush up w d
  alone-dropped begin flush up w d = elim (dropped-cases d) [
    | inl e ↦ ap (alone begin flush up w) e
    | inr (p, q) ↦
        ap (answer begin flush up w (dropped d)) (q.bypasses w)
        ∙ sym (ap (answer begin flush up w d) (p.bypasses w))
  ]

  serve_split-dropped :
      (begin flush up : W → W) (d : Option (Rule W)) (rs : List (Rule W)) (w : W)
      → serve_split begin flush up (Option.map dropped d, map dropped rs) w
        ≡ serve_split begin flush up (d, rs) w
  unfolding serve_split
  serve_split-dropped begin flush up d [] w =
      ap (alone begin flush up w) (or_pass-dropped d) ∙ alone-dropped begin flush up w (or_pass d)
  serve_split-dropped begin flush up d (r ∷ rs) w =
      ap (flushed flush) (serve_rules-dropped d (r ∷ rs) up (begin w))

  -- The commands before a bypass are dropped: every request is served as if each rule for the request
  -- whose last command is a bypass, the default rule too, had the bypass alone, whatever the other
  -- rules are.
  pub build_handler-dropped :
      (begin flush : W → W) (rs : List (Rule W)) (up : W → W) (w : W)
      → build_handler begin flush (map dropped rs) up w ≡ build_handler begin flush rs up w
  unfolding build_handler
  build_handler-dropped begin flush [] up w = refl
  build_handler-dropped begin flush (r ∷ rs) up w = rw (split_default-dropped none (r ∷ rs)) (
      serve_split-dropped begin flush up (split_default none (r ∷ rs)).0
        (split_default none (r ∷ rs)).1 w)
