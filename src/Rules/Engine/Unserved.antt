-- ===== src/Rules/Engine/Unserved.antt =====
-- internal/route/rules/rules.go: what a run of the rules keeps of the count of calls.
use godoxy.Prelude.{
  ℕ, ◌≤◌, Bool, true, false, not, ◌&&◌, ◌||◌, Option, none, some, List, [], inl, inr, ◌∷◌, All,
  Bool-cases, Option-cases,
}
use godoxy.Rules.Command.{is_bypass, Error, err_terminated, other_error}
use godoxy.Rules.Engine.{
  Rule, Run, went_on, returned, panicked, and_then, is_response_rule, rule_check, rule_handle,
  rule_bypasses, rule_terminates,
}
use godoxy.Rules.Engine.Serve.{
  pre_loop, pre_phase, first_default, last_default, post_loop, post_default, apply_rule,
  after_handle, after_last, after_post, request_phase, response_phase,
}

-- A state has one of the counts that `P` allows, wherever the run ended.
abbrev pub Ends : {W A : Type 0} → (W → Type 0) → Run W A → Type 0
Ends P (went_on w a) = P w
Ends P (returned w) = P w
Ends P (panicked w) = P w

-- A predicate that both parts keep holds after them.
pub and_then-Ends :
    {W A B : Type 0} (P Q : W → Type 0) (m : Run W A) (k : W → A → Run W B)
    → Ends P m
    → ((w : W) (a : A) → P w → Ends Q (k w a))
    → ((w : W) → P w → Q w)
    → Ends Q (and_then m k)
and_then-Ends P Q (went_on w a) k h f g = f w a h
and_then-Ends P Q (returned w) k h f g = g w h
and_then-Ends P Q (panicked w) k h f g = g w h

abbrev pub to_list : {A : Type 0} → Option A → List A
to_list none = []
to_list (some a) = a ∷ []

-- `calls` reads off a state how often the upstream was called.
module _ {W : Type 0} (calls : W → ℕ) where
  abbrev AtMost : ℕ → W → Type 0
  AtMost n w = calls w ≤ n

  -- The rule's commands do not call the upstream.
  abbrev pub Quiet : Rule W → Type 0
  Quiet r = (n : ℕ) (w : W) → calls w ≤ n → Ends (λ w. calls w ≤ n) (rule_handle r w)

  rule_bypasses-Ends :
      (n : ℕ) (r : Rule W) (w : W) → calls w ≤ n → Ends (AtMost n) (rule_bypasses r w)
  unfolding rule_bypasses
  rule_bypasses-Ends n r w h = elim (Option-cases (is_bypass r.do_exec)) [
    | inl e ↦ rw (rule_bypasses, e) h
    | inr (b, e) ↦ rw (rule_bypasses, e) h
  ]

  pub after_handle-Ends :
      (n : ℕ) (r : Rule W) (w : W) (e : Option Error)
      → calls w ≤ n
      → Ends (AtMost n) (after_handle r w e)
  after_handle-Ends n r w none h = h
  after_handle-Ends n r w (some err_terminated) h = h
  after_handle-Ends n r w (some other_error) h = h

  after_last-Ends :
      (n : ℕ) (r : Rule W) (w : W) (e : Option Error)
      → calls w ≤ n
      → Ends (AtMost n) (after_last r w e)
  after_last-Ends n r w none h = h
  after_last-Ends n r w (some err_terminated) h = h
  after_last-Ends n r w (some other_error) h = h

  pub after_post-Ends :
      (n : ℕ) (r : Rule W) (w : W) (e : Option Error)
      → calls w ≤ n
      → Ends (AtMost n) (after_post r w e)
  after_post-Ends n r w none h = h
  after_post-Ends n r w (some err_terminated) h = h
  after_post-Ends n r w (some other_error) h = h

  pub then-Ends :
      {A B : Type 0} (n : ℕ) (m : Run W A) (k : W → A → Run W B)
      → Ends (AtMost n) m
      → ((w : W) (a : A) → calls w ≤ n → Ends (AtMost n) (k w a))
      → Ends (AtMost n) (and_then m k)
  then-Ends n m k h f = and_then-Ends (AtMost n) (AtMost n) m k h f (λ w h. h)

  pub either-Ends :
      {A : Type 0} (n : ℕ) (b : Bool) (m k : Run W A)
      → Ends (AtMost n) m
      → Ends (AtMost n) k
      → Ends (AtMost n) (elim b [ true ↦ m | false ↦ k ])
  either-Ends n true m k f g = f
  either-Ends n false m k f g = g

  -- After the test for a bypass, the handler, unless it is one.
  unless_bypass :
      {A : Type 0} (n : ℕ) (r : Rule W) (w : W) (up_next : W → Run W A)
      (then_do : W → Option Error → Run W A)
      → Quiet r
      → calls w ≤ n
      → ((w : W) → calls w ≤ n → Ends (AtMost n) (up_next w))
      → ((w : W) (e : Option Error) → calls w ≤ n → Ends (AtMost n) (then_do w e))
      → Ends (AtMost n) (
          and_then
            (rule_bypasses r w)
            (λ w b. elim b [ true ↦ up_next w | false ↦ and_then (rule_handle r w) then_do ]))
  unless_bypass n r w up_next then_do q h f g =
      then-Ends n (rule_bypasses r w) _ (rule_bypasses-Ends n r w h)
        (λ w b h. either-Ends n b _ _ (f w h) (then-Ends n (rule_handle r w) then_do (q n w h) g))

  apply_rule-Ends :
      (n : ℕ) (r : Rule W) (w : W) → Quiet r → calls w ≤ n → Ends (AtMost n) (apply_rule r w)
  unfolding apply_rule
  apply_rule-Ends n r w q h =
      unless_bypass n r w (λ w. went_on w true) (after_handle r) q h (λ w h. h)
        (after_handle-Ends n r)

  pre_loop-Ends :
      (n : ℕ) (rs : List (Rule W)) (matched : Bool) (w : W)
      → All Quiet rs
      → calls w ≤ n
      → Ends (AtMost n) (pre_loop rs matched w)
  unfolding pre_loop
  pre_loop-Ends n [] matched w q h = h
  pre_loop-Ends n (r ∷ rs) matched w q h = elim (Bool-cases (rule_check r w)) [
    | inl c ↦
        rw (pre_loop, c)
          (unless_bypass n r w _ _ q.0 h (λ w h. h)
            (λ w e h.
              then-Ends n (after_handle r w e) _ (after_handle-Ends n r w e h)
                (λ w ok h. either-Ends n ok _ _ (pre_loop-Ends n rs true w q.1 h) h)))
    | inr c ↦ rw (pre_loop, c) (pre_loop-Ends n rs matched w q.1 h)
  ]

  first_default-Ends :
      (n : ℕ) (d : Option (Rule W)) (w : W)
      → All Quiet (to_list d)
      → calls w ≤ n
      → Ends (AtMost n) (first_default d w)
  unfolding first_default
  first_default-Ends n none w q h = h
  first_default-Ends n (some d) w q h =
      either-Ends n (is_response_rule d || rule_terminates d) _ _ h (apply_rule-Ends n d w q.0 h)

  last_default-Ends :
      (n : ℕ) (d : Option (Rule W)) (call matched : Bool) (w : W)
      → All Quiet (to_list d)
      → calls w ≤ n
      → Ends (AtMost n) (last_default d call matched w)
  unfolding last_default
  last_default-Ends n none call matched w q h = h
  last_default-Ends n (some d) call matched w q h =
      either-Ends n (not (is_response_rule d) && rule_terminates d && call && not matched) _ _
        (unless_bypass n d w (λ w. went_on w call) (after_last d) q.0 h (λ w h. h)
          (after_last-Ends n d))
        h

  post_loop-Ends :
      (n : ℕ) (rs : List (Rule W)) (w : W)
      → All Quiet rs
      → calls w ≤ n
      → Ends (AtMost n) (post_loop rs w)
  unfolding post_loop
  post_loop-Ends n [] w q h = h
  post_loop-Ends n (r ∷ rs) w q h =
      either-Ends n (rule_check r w) _ _
        (then-Ends n (rule_handle r w) _ (q.0 n w h) (λ w e h.
          then-Ends n (after_post r w e) _ (after_post-Ends n r w e h)
            (λ w _ h. post_loop-Ends n rs w q.1 h)))
        (post_loop-Ends n rs w q.1 h)

  post_default-Ends :
      (n : ℕ) (d : Option (Rule W)) (w : W)
      → All Quiet (to_list d)
      → calls w ≤ n
      → Ends (AtMost n) (post_default d w)
  unfolding post_default
  post_default-Ends n none w q h = h
  post_default-Ends n (some d) w q h =
      either-Ends n (is_response_rule d) _ _
        (then-Ends n (rule_handle d w) (after_post d) (q.0 n w h) (after_post-Ends n d)) h

  pre_phase-Ends :
      (n : ℕ) (rs : List (Rule W)) (w : W) (call : Bool)
      → All Quiet rs
      → calls w ≤ n
      → Ends (AtMost n) (pre_phase rs w call)
  pre_phase-Ends n rs w true q h = pre_loop-Ends n rs false w q h
  pre_phase-Ends n rs w false q h = h

  pub request_phase-Ends :
      (n : ℕ) (d : Option (Rule W)) (rs : List (Rule W)) (w : W)
      → All Quiet (to_list d)
      → All Quiet rs
      → calls w ≤ n
      → Ends (AtMost n) (request_phase d rs w)
  unfolding request_phase
  request_phase-Ends n d rs w qd q h =
      then-Ends n (first_default d w) _ (first_default-Ends n d w qd h) (λ w call h.
        then-Ends n (pre_phase rs w call) _ (pre_phase-Ends n rs w call q h)
          (λ w cm h. last_default-Ends n d cm.0 cm.1 w qd h))

  pub response_phase-Ends :
      (n : ℕ) (d : Option (Rule W)) (rs : List (Rule W)) (w : W)
      → All Quiet (to_list d)
      → All Quiet rs
      → calls w ≤ n
      → Ends (AtMost n) (response_phase d rs w)
  unfolding response_phase
  response_phase-Ends n d rs w qd q h =
      then-Ends n (post_loop rs w) _ (post_loop-Ends n rs w q h)
        (λ w _ h. post_default-Ends n d w qd h)
