-- ===== src/Rules/Engine/OnlyBypass.antt =====
-- internal/route/rules/do.go: a rule whose commands end with a bypass. `isBypass` looks at the last
-- command only.

use godoxy.Prelude.{
  ◌≡◌, ◌⊎◌, inl, inr, refl, Bool, true, false, Option, none, some, Bool-cases, some-injective,
  Option-cases, if◌then◌else◌,
}
use godoxy.Rules.Command.{
  Command, Commands, non_terminating, terminating, on_response, bypass, commands, nil, cons,
  is_bypass, last_bypasses, is_terminating_handler, last_terminates,
}
use godoxy.Rules.Engine.{
  Rule, went_on, is_default_rule, is_response_rule, rule_check, rule_bypasses, rule_terminates,
}

module _ {W : Type 0} where
  -- The bypass alone in place of commands that end with one.
  unfoldable pub only_bypass : Option Bool → Option (Command W) → Option (Command W)
  only_bypass (some true) c = some bypass
  only_bypass _ c = c

  -- A rule for the request without its commands before a bypass.
  unfoldable pub dropped : Rule W → Rule W
  unfolding only_bypass
  dropped r =
      if is_response_rule r
      then r
      else record r { do_exec = only_bypass (is_bypass r.do_exec) r.do_exec }

  last_bypasses-request :
      (c : Command W) (cs : Commands W)
      → last_bypasses c cs ≡ true
      → last_terminates (cons c cs) ≡ false
  unfolding last_bypasses last_terminates is_terminating_handler
  last_bypasses-request (non_terminating f) nil h = absurd (cc h)
  last_bypasses-request (terminating f) nil h = absurd (cc h)
  last_bypasses-request (on_response f) nil h = absurd (cc h)
  last_bypasses-request bypass nil h = refl
  last_bypasses-request (commands ds) nil h = absurd (cc h)
  last_bypasses-request c (cons d cs) h = last_bypasses-request d cs h

  bypass_goes_on :
      (r : Rule W) (c : Option (Command W))
      → is_bypass c ≡ some true
      → rule_terminates (record r { do_exec = c }) ≡ false
  unfolding is_bypass is_terminating_handler
  bypass_goes_on r none h = refl
  bypass_goes_on r (some (non_terminating f)) h = refl
  bypass_goes_on r (some (terminating f)) h = absurd (cc h)
  bypass_goes_on r (some (on_response f)) h = refl
  bypass_goes_on r (some bypass) h = refl
  bypass_goes_on r (some (commands nil)) h = refl
  bypass_goes_on r (some (commands (cons c cs))) h = last_bypasses-request c cs (some-injective h)

  -- A rule that is asked for nothing but whether it bypasses, which it does.
  pub record Passes (r : Rule W) : Type 0 where
    pub is_request : is_response_rule r ≡ false
    pub goes_on : rule_terminates r ≡ false
    pub bypasses : (w : W) → rule_bypasses r w ≡ went_on w true

  passing :
      (r : Rule W) (c : Option (Command W))
      → is_response_rule r ≡ false
      → is_bypass c ≡ some true
      → Passes (record r { do_exec = c })
  unfolding rule_bypasses
  passing r c p b = record {
    is_request = p;
    goes_on = bypass_goes_on r c b;
    bypasses = λ w. rw (rule_bypasses, b) refl;
  }

  pub dropped-cases : (r : Rule W) → (dropped r ≡ r) ⊎ (Passes r × Passes (dropped r))
  unfolding dropped is_bypass
  dropped-cases r = elim (Bool-cases (is_response_rule r)) [
    | inl p ↦ inl (rw p refl)
    | inr p ↦ elim (Option-cases (is_bypass r.do_exec)) [
      | inl n ↦ inl (rw (p, n) refl)
      | inr (true, b) ↦ inr (passing r r.do_exec p b, rw (p, b) (passing r (some bypass) p refl))
      | inr (false, b) ↦ inl (rw (p, b) refl)
    ]
  ]

  pub dropped-default : (r : Rule W) → is_default_rule (dropped r) ≡ is_default_rule r
  unfolding dropped
  dropped-default r = elim (Bool-cases (is_response_rule r)) [
    | inl p ↦ rw p refl
    | inr p ↦ rw p refl
  ]

  pub dropped-response : (r : Rule W) → is_response_rule (dropped r) ≡ is_response_rule r
  unfolding dropped
  dropped-response r = go (is_response_rule r)
    where
      go :
          (b : Bool)
          → is_response_rule
              (if b then r else record r { do_exec = only_bypass (is_bypass r.do_exec) r.do_exec })
            ≡ is_response_rule r
      go true = refl
      go false = refl

  pub dropped-check : (r : Rule W) (w : W) → rule_check (dropped r) w ≡ rule_check r w
  unfolding dropped rule_check
  dropped-check r w = elim (Bool-cases (is_response_rule r)) [
    | inl p ↦ rw p refl
    | inr p ↦ rw p refl
  ]
