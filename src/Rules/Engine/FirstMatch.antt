-- ===== src/Rules/Engine/FirstMatch.antt =====
-- internal/route/rules/rules.go: the first rule that matches a request.
use godoxy.Prelude.{
  Option, ap, sym, ◌≢◌, ◌∙◌, ◌≡◌, inl, inr, Bool-cases, refl, Bool, true, false, none, some, List,
  [], ◌∷◌, ◌++◌, All,
}
use godoxy.Rules.Command.{Error, err_terminated, other_error, is_bypass}
use godoxy.Rules.Engine.{
  Rule, went_on, panicked, is_response_rule, rule_check, rule_handle, rule_bypasses,
  rule_terminates, split_default, pre_rules, post_rules,
}
use godoxy.Rules.Engine.Serve.{
  pre_loop, last_default, first_default, request_phase, response_phase, serve_rules, serve_split,
  build_handler, flushed,
}
use mathlib.Core.Path.{subst}

module _ {W : Type 0} where
  -- No rule of the list matches.
  abbrev pub NoMatch : List (Rule W) → W → Type 0
  NoMatch rs w = All (λ r. rule_check r w ≡ false) rs

  pre_loop-skip :
      (xs ys : List (Rule W)) (matched : Bool) (w : W)
      → NoMatch xs w
      → pre_loop (xs ++ ys) matched w ≡ pre_loop ys matched w
  unfolding pre_loop
  pre_loop-skip [] ys matched w h = refl
  pre_loop-skip (x ∷ xs) ys matched w h = rw (pre_loop, h.0) (pre_loop-skip xs ys matched w h.1)

  pre_loop-ended :
      (r : Rule W) (rs : List (Rule W)) (matched : Bool) (w w' : W) (e : Error)
      → rule_check r w ≡ true
      → rule_bypasses r w ≡ went_on w false
      → rule_handle r w ≡ went_on w' (some e)
      → pre_loop (r ∷ rs) matched w ≡ went_on w' (false, true)
  unfolding pre_loop
  pre_loop-ended r rs matched w w' err_terminated c b h = rw (pre_loop, c, b, h) refl
  pre_loop-ended r rs matched w w' other_error c b h = rw (pre_loop, c, b, h) refl

  last_default-uncalled :
      (d : Option (Rule W)) (matched : Bool) (w : W)
      → last_default d false matched w ≡ went_on w false
  unfolding last_default
  last_default-uncalled none matched w = refl
  last_default-uncalled (some d) matched w = elim (Bool-cases (is_response_rule d)) [
    | inl p ↦ rw (last_default, p) refl
    | inr p ↦ elim (Bool-cases (rule_terminates d)) [
      | inl t ↦ rw (last_default, p, t) refl
      | inr t ↦ rw (last_default, p, t) refl
    ]
  ]

  -- The rules for the request are `xs`, none of which matches, then `r`, which does, then others.
  pub record FirstMatch (rs : List (Rule W)) (r : Rule W) (w : W) : Type 0 where
    pub before : List (Rule W)
    pub after : List (Rule W)
    pub split_up : pre_rules rs ≡ before ++ r ∷ after
    pub unmatched : NoMatch before w
    pub matches : rule_check r w ≡ true

  serve_rules-ended :
      (d : Option (Rule W)) (rs : List (Rule W)) (r : Rule W) (up : W → W) (w w' w'' : W)
      (e : Error)
      → first_default d w ≡ went_on w' true
      → FirstMatch rs r w'
      → rule_bypasses r w' ≡ went_on w' false
      → rule_handle r w' ≡ went_on w'' (some e)
      → serve_rules d rs up w ≡ response_phase d (post_rules rs) w''
  unfolding serve_rules request_phase
  serve_rules-ended d rs r up w w' w'' e g m b h =
      rw
        (
          g,
          m.split_up,
          pre_loop-skip m.before (r ∷ m.after) false w' m.unmatched,
          pre_loop-ended r m.after false w' w'' e m.matches b h,
          last_default-uncalled d true w'',
        )
        refl

  not_empty : (r : Rule W) (xs ys : List (Rule W)) → [] ≢ xs ++ r ∷ ys
  not_empty r [] ys e = absurd (cc e)
  not_empty r (x ∷ xs) ys e = absurd (cc e)

  FirstMatch-empty : (r : Rule W) (w : W) → ¬ FirstMatch [] r w
  unfolding pre_rules
  FirstMatch-empty r w m = not_empty r m.before m.after m.split_up

  serve_split-rules :
      (begin flush up : W → W) (d : Option (Rule W)) (rs : List (Rule W)) (r : Rule W) (w w' : W)
      → FirstMatch rs r w'
      → serve_split begin flush up (d, rs) w ≡ flushed flush (serve_rules d rs up (begin w))
  unfolding serve_split pre_rules
  serve_split-rules begin flush up d [] r w w' m = absurd (FirstMatch-empty r w' m)
  serve_split-rules begin flush up d (x ∷ rs) r w w' m = refl

  build_handler-split :
      (begin flush up : W → W) (rs : List (Rule W)) (d : Option (Rule W)) (others : List (Rule W))
      (r : Rule W) (w w' : W)
      → split_default none rs ≡ (d, others)
      → FirstMatch others r w'
      → build_handler begin flush rs up w ≡ flushed flush (serve_rules d others up (begin w))
  unfolding build_handler split_default
  build_handler-split begin flush up [] d others r w w' s m =
      absurd (FirstMatch-empty r w' (subst (λ rs. FirstMatch rs r w') (sym (ap (λ x. x.1) s)) m))
  build_handler-split begin flush up (x ∷ rs) d others r w w' s m =
      ap (λ (x : Option (Rule W) × List (Rule W)). serve_split begin flush up x w) s
      ∙ serve_split-rules begin flush up d others r w w' m

  -- Where the default rule, if there is one, lets the request go on, and the first of the other rules
  -- for the request that matches then, which is no bypass, ends it with an error (`errTerminated` or
  -- another), the upstream is not called after that, no later rule for the request has an effect, and
  -- the rules for the response see the state that the rule left.
  pub build_handler-ended :
      (begin flush up : W → W) (rs : List (Rule W)) (d : Option (Rule W)) (others : List (Rule W))
      (r : Rule W) (w w' w'' : W) (e : Error)
      → split_default none rs ≡ (d, others)
      → first_default d (begin w) ≡ went_on w' true
      → FirstMatch others r w'
      → rule_bypasses r w' ≡ went_on w' false
      → rule_handle r w' ≡ went_on w'' (some e)
      → build_handler begin flush rs up w ≡ flushed flush (response_phase d (post_rules others) w'')
  build_handler-ended begin flush up rs d others r w w' w'' e s g m b h =
      build_handler-split begin flush up rs d others r w w' s m
      ∙ ap (flushed flush) (serve_rules-ended d others r up (begin w) w' w'' e g m b h)

  pre_loop-none :
      (rs : List (Rule W)) (matched : Bool) (w : W)
      → NoMatch rs w
      → pre_loop rs matched w ≡ went_on w (true, matched)
  unfolding pre_loop
  pre_loop-none [] matched w h = refl
  pre_loop-none (x ∷ xs) matched w h = rw (pre_loop, h.0) (pre_loop-none xs matched w h.1)

  first_default-terminates :
      (d : Rule W) (w : W) → rule_terminates d ≡ true → first_default (some d) w ≡ went_on w true
  unfolding first_default
  first_default-terminates d w t = elim (Bool-cases (is_response_rule d)) [
    | inl p ↦ rw (first_default, p) refl
    | inr p ↦ rw (first_default, p, t) refl
  ]

  last_default-answers :
      (d : Rule W) (w w' : W)
      → is_response_rule d ≡ false
      → rule_terminates d ≡ true
      → rule_bypasses d w ≡ went_on w false
      → rule_handle d w ≡ went_on w' (some err_terminated)
      → last_default (some d) true false w ≡ went_on w' false
  unfolding last_default
  last_default-answers d w w' p t b h = rw (last_default, p, t, b, h) refl

  -- A default rule that ends requests answers those that no other rule matches, without the upstream.
  pub serve_rules-default :
      (rs : List (Rule W)) (d : Rule W) (up : W → W) (w w' : W)
      → is_response_rule d ≡ false
      → rule_terminates d ≡ true
      → NoMatch (pre_rules rs) w
      → rule_bypasses d w ≡ went_on w false
      → rule_handle d w ≡ went_on w' (some err_terminated)
      → serve_rules (some d) rs up w ≡ response_phase (some d) (post_rules rs) w'
  unfolding serve_rules request_phase
  serve_rules-default rs d up w w' p t n b h =
      rw
        (
          first_default-terminates d w t,
          pre_loop-none (pre_rules rs) false w n,
          last_default-answers d w w' p t b h,
        )
        refl

  pre_loop-empty :
      (r : Rule W) (rs : List (Rule W)) (matched : Bool) (w : W)
      → rule_check r w ≡ true
      → r.do_exec ≡ none
      → pre_loop (r ∷ rs) matched w ≡ panicked w
  unfolding pre_loop rule_bypasses is_bypass rule_handle
  pre_loop-empty r rs matched w c e = rw (pre_loop, c, rule_bypasses, e, rule_handle, e) refl

  -- With no default rule, a rule without commands makes a request panic that it matches first, instead of
  -- passing it on.
  pub serve_rules-empty :
      (rs : List (Rule W)) (r : Rule W) (up : W → W) (w : W)
      → FirstMatch rs r w
      → r.do_exec ≡ none
      → serve_rules none rs up w ≡ panicked w
  unfolding serve_rules request_phase first_default
  serve_rules-empty rs r up w m e =
      rw
        (
          m.split_up,
          pre_loop-skip m.before (r ∷ m.after) false w m.unmatched,
          pre_loop-empty r m.after false w m.matches e,
        )
        refl
