-- ===== src/Rules/Engine/Upstream.antt =====
-- internal/route/rules/rules.go: how often the upstream is called.
use godoxy.Prelude.{
  ℕ, suc, ◌≤◌, ◌≡◌, arith, Bool, true, false, Option, none, some, List, [], inl, inr, ◌∷◌, All,
  Bool-cases, Option-cases,
}
use godoxy.Rules.Command.{is_bypass, handle}
use godoxy.Rules.Engine.{
  Rule, Run, went_on, returned, panicked, and_then, is_response_rule, rule_handle, rule_bypasses,
  split_default, pre_rules, post_rules, is_default_rule,
}
use godoxy.Rules.Engine.Order.{All-pre_rules, All-post_rules}
use godoxy.Rules.Engine.Serve.{
  Outcome, served, crashed, after_handle, after_post, call_upstream, request_phase, serve_rules,
  serve_default, or_pass, flushed, serve_split, build_handler,
}
use godoxy.Rules.Engine.Unserved.{
  Ends, Quiet, after_handle-Ends, after_post-Ends, and_then-Ends, either-Ends, request_phase-Ends,
  response_phase-Ends, then-Ends, to_list,
}

abbrev pub state_of : {W : Type 0} → Outcome W → W
state_of (served w) = w
state_of (crashed w) = w

-- `up` counts one call, the others none.
module _ {W : Type 0} (calls : W → ℕ) (begin flush up : W → W)
    (up_counts : (w : W) → calls (up w) ≡ suc (calls w))
    (begin_counts : (w : W) → calls (begin w) ≡ calls w)
    (flush_counts : (w : W) → calls (flush w) ≡ calls w) where
  upstream-le :
      (n : ℕ) (call : Bool) (w : W) → calls w ≤ n → calls (call_upstream up call w) ≤ suc n
  upstream-le n true w h = omega (arith, up_counts w)
  upstream-le n false w h = omega arith

  one_more :
      {A B : Type 0} (n : ℕ) (m : Run W A) (k : W → A → Run W B)
      → Ends (λ w. calls w ≤ n) m
      → ((w : W) (a : A) → calls w ≤ n → Ends (λ w. calls w ≤ suc n) (k w a))
      → Ends (λ w. calls w ≤ suc n) (and_then m k)
  one_more n m k h f =
      and_then-Ends (λ w. calls w ≤ n) (λ w. calls w ≤ suc n) m k h f (λ w h. omega arith)

  serve_rules-Ends :
      (n : ℕ) (d : Option (Rule W)) (rs : List (Rule W)) (w : W)
      → All (Quiet calls) (to_list d)
      → All (Quiet calls) rs
      → calls w ≤ n
      → Ends (λ w. calls w ≤ suc n) (serve_rules d rs up w)
  unfolding serve_rules
  serve_rules-Ends n d rs w qd q h =
      one_more n (request_phase d (pre_rules rs) w) _
        (request_phase-Ends calls n d (pre_rules rs) w qd (All-pre_rules (Quiet calls) rs q) h)
        (λ w call h.
          response_phase-Ends calls (suc n) d (post_rules rs) (call_upstream up call w) qd
            (All-post_rules (Quiet calls) rs q) (upstream-le n call w h))

  serve_default-Ends :
      (n : ℕ) (d : Rule W) (w : W)
      → Quiet calls d
      → calls w ≤ n
      → Ends (λ w. calls w ≤ suc n) (serve_default d up w)
  unfolding serve_default
  serve_default-Ends n d w q h =
      either-Ends calls (suc n) (is_response_rule d) _ _
        (then-Ends calls (suc n) (rule_handle d (up w)) (after_post d)
          (q (suc n) (up w) (omega (arith, up_counts w))) (after_post-Ends calls (suc n) d))
        (one_more n (rule_handle d w) _ (q n w h) (λ w e h.
          one_more n (after_handle d w e) _ (after_handle-Ends calls n d w e h)
            (λ w call h. upstream-le n call w h)))

  flushed-le :
      (n : ℕ) (m : Run W Unit) → Ends (λ w. calls w ≤ n) m → calls (state_of (flushed flush m)) ≤ n
  flushed-le n (went_on w _) h = omega (arith, flush_counts w)
  flushed-le n (returned w) h = omega (arith, flush_counts w)
  flushed-le n (panicked w) h = omega (arith, flush_counts w)

  or_pass-Quiet : (d : Option (Rule W)) → All (Quiet calls) (to_list d) → Quiet calls (or_pass d)
  unfolding rule_handle handle
  or_pass-Quiet none q = λ n w h. h
  or_pass-Quiet (some d) q = q.0

  serve_split-le :
      (d : Option (Rule W)) (rs : List (Rule W)) (w : W)
      → All (Quiet calls) (to_list d)
      → All (Quiet calls) rs
      → calls (state_of (serve_split begin flush up (d, rs) w)) ≤ suc (calls w)
  unfolding serve_split rule_bypasses
  serve_split-le d (r ∷ rs) w qd q =
      flushed-le (suc (calls w)) (serve_rules d (r ∷ rs) up (begin w))
        (serve_rules-Ends (calls w) d (r ∷ rs) (begin w) qd q (omega (arith, begin_counts w)))
  serve_split-le d [] w qd q = elim (Option-cases (is_bypass (or_pass d).do_exec)) [
    | inl e ↦ rw (serve_split, rule_bypasses, e) (omega arith)
    | inr (true, e) ↦ rw (serve_split, rule_bypasses, e) (omega (arith, up_counts w))
    | inr (false, e) ↦
        rw (serve_split, rule_bypasses, e)
          (flushed-le (suc (calls w)) (serve_default (or_pass d) up (begin w)) (
            serve_default-Ends (calls w) (or_pass d) (begin w) (or_pass-Quiet d qd)
              (omega (arith, begin_counts w))))
  ]

  split_default-Quiet :
      (d : Option (Rule W)) (rs : List (Rule W))
      → All (Quiet calls) (to_list d)
      → All (Quiet calls) rs
      → All (Quiet calls) (to_list (split_default d rs).0)
        × All (Quiet calls) (split_default d rs).1
  unfolding split_default
  split_default-Quiet d [] qd q = (qd, tt)
  split_default-Quiet d (r ∷ rs) qd q = elim (Bool-cases (is_default_rule r)) [
    | inl e ↦ rw (split_default, e) (split_default-Quiet (some r) rs (q.0, tt) q.1)
    | inr e ↦ rw (split_default, e) (let (a, b) = split_default-Quiet d rs qd q.1 in (a, (q.0, b)))
  ]

  -- Whatever the rules are, the upstream is called at most once for a request, when the commands of the
  -- rules do not call it, and neither does the response's wrapper.
  pub build_handler-calls :
      (rs : List (Rule W)) (w : W)
      → All (Quiet calls) rs
      → calls (state_of (build_handler begin flush rs up w)) ≤ suc (calls w)
  unfolding build_handler
  build_handler-calls [] w q = omega (arith, up_counts w)
  build_handler-calls (r ∷ rs) w q =
      let (a, b) = split_default-Quiet none (r ∷ rs) tt q in
      serve_split-le (split_default none (r ∷ rs)).0 (split_default none (r ∷ rs)).1 w a b
