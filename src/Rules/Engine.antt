-- ===== src/Rules/Engine.antt =====
-- internal/route/rules/rules.go and check_on.go: how the rules of a route wrap the handler of its
-- upstream. `W` is what a request works on; NewResponseModifier and FlushRelease, of goutils, are the
-- functions `begin` and `flush` on it, and a check reads it. `panicked` is the call of a nil handler.
-- The name that a nameless rule gets is only printed, and is left out.
pub mod Serve
pub mod Order
pub mod FirstMatch
pub mod OnlyBypass
pub mod Dropped
pub mod Unserved
pub mod Upstream
mod Tests
use godoxy.Prelude.{
  Bool, true, false, not, ◌&&◌, ◌||◌, Option, none, some, List, [], ◌∷◌, ◌++◌, ltb, if◌then◌else◌,
  length,
}
use godoxy.Prelude.Bytes.{Bytes, codes, bytes_eq}
use godoxy.Rules.Command.{
  Command, Error, err_terminated, other_error, bypass, handle, is_terminating_handler, is_bypass,
}

mutual
  pub data Checker (W : Type 0) : Type 0 where
    check_func : (W → Bool) → Checker W
    check_match_single check_match_all : Checkers W → Checker W

  pub data Checkers (W : Type 0) : Type 0 where
    no_check : Checkers W
    check_then : Checker W → Checkers W → Checkers W

module _ {W : Type 0} where
  unfoldable mutual
    pub check : Checker W → W → Bool
    check (check_func f) w = f w
    check (check_match_single cs) w = check_single cs w
    check (check_match_all cs) w = check_all cs w

    pub check_single : Checkers W → W → Bool
    check_single no_check w = false
    check_single (check_then c cs) w = if check c w then true else check_single cs w

    pub check_all : Checkers W → W → Bool
    check_all no_check w = true
    check_all (check_then c cs) w = if not (check c w) then false else check_all cs w

-- `RuleOn` and `Command` of the source, with `Rule`.
pub record Rule (W : Type 0) : Type 0 where
  pub name : Bytes
  pub on_raw : Bytes
  pub on_checker : Option (Checker W)
  pub on_is_response : Bool
  pub do_exec : Option (Command W)
  pub do_is_response : Bool

abbrev pub on_default : Bytes
on_default = codes "default"

-- The request went on with the value, or the handler returned, or it panicked.
pub data Run (W A : Type 0) : Type 0 where
  went_on : W → A → Run W A
  returned panicked : W → Run W A

abbrev pub and_then : {W A B : Type 0} → Run W A → (W → A → Run W B) → Run W B
and_then (went_on w a) k = k w a
and_then (returned w) k = returned w
and_then (panicked w) k = panicked w

module _ {W : Type 0} where
  abbrev pub is_response_rule : Rule W → Bool
  is_response_rule r = r.on_is_response || r.do_is_response

  abbrev pub is_default_rule : Rule W → Bool
  is_default_rule r = bytes_eq r.name (codes "default") || bytes_eq r.on_raw on_default

  unfoldable pub count_default : List (Rule W) → List (Rule W)
  count_default [] = []
  count_default (r ∷ rs) =
      let rest = count_default rs in if is_default_rule r then r ∷ rest else rest

  -- Whether there is no error.
  unfoldable pub validate : List (Rule W) → Bool
  unfolding count_default
  validate rs = not (ltb 1 (length (count_default rs)))

  -- A missing checker matches.
  unfoldable pub rule_check : Rule W → W → Bool
  unfolding check
  rule_check r w = elim r.on_checker [ none ↦ true | some c ↦ check c w ]

  abbrev pub as_run : W × Option Error → Run W (Option Error)
  as_run (w, e) = went_on w e

  unfoldable pub rule_handle : Rule W → W → Run W (Option Error)
  unfolding handle
  rule_handle r w = elim r.do_exec [ none ↦ panicked w | some c ↦ as_run (handle c w) ]

  -- `rule.Do.isBypass()`, which panics at an empty list of commands.
  unfoldable pub rule_bypasses : Rule W → W → Run W Bool
  rule_bypasses r w = elim (is_bypass r.do_exec) [ none ↦ panicked w | some b ↦ went_on w b ]

  abbrev pub rule_terminates : Rule W → Bool
  rule_terminates r = elim r.do_exec [ none ↦ false | some c ↦ is_terminating_handler c ]

  -- `defaultRule` when there is no default rule.
  abbrev pub pass_rule : Rule W
  pass_rule = record {
    name = codes "default";
    on_raw = [];
    on_checker = none;
    on_is_response = false;
    do_exec = some bypass;
    do_is_response = false;
  }

  -- The default rule, the last one if there are more, and the others.
  unfoldable pub split_default : Option (Rule W) → List (Rule W) → Option (Rule W) × List (Rule W)
  split_default d [] = (d, [])
  split_default d (r ∷ rs) =
      let as_default = split_default (some r) rs in
      let (d', others) = split_default d rs in
      if is_default_rule r then as_default else (d', r ∷ others)

  unfoldable pub pre_rules : List (Rule W) → List (Rule W)
  pre_rules [] = []
  pre_rules (r ∷ rs) = let rest = pre_rules rs in if is_response_rule r then rest else r ∷ rest

  unfoldable pub post_rules : List (Rule W) → List (Rule W)
  post_rules [] = []
  post_rules (r ∷ rs) = let rest = post_rules rs in if is_response_rule r then r ∷ rest else rest

  -- `appendRuleError`: its only statement is a comment.
  abbrev pub append_rule_error : Rule W → W → W
  append_rule_error r w = w
