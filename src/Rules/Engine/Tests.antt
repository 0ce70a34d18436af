-- ===== src/Rules/Engine/Tests.antt =====
-- internal/route/rules: requests served by small sets of rules. The state is the list of what happened.
use godoxy.Prelude.{
  ℕ, suc, ◌≤◌, ◌≡◌, refl, Bool, true, false, Option, none, some, List, [], ◌∷◌, ◌==◌,
}
use godoxy.Prelude.Bytes.{codes, bytes_eq}
use godoxy.Rules.Command.{
  Command, HandlerFunc, err_terminated, non_terminating, terminating, on_response, bypass, commands,
  nil, cons, build_cmd, handle, is_bypass, is_response_handler, is_terminating_handler, scan,
  in_order,
}
use godoxy.Rules.Command.Grammar.{build_cmd-well_ordered}
use godoxy.Rules.Engine.{
  Rule, check_func, went_on, pre_rules, post_rules, split_default, rule_check, rule_handle,
  rule_bypasses,
}
use godoxy.Rules.Engine.Serve.{
  response_phase, build_handler, flushed, first_default, apply_rule, post_loop, post_default,
}
use godoxy.Rules.Engine.Order.{in_phases, build_handler-in_phases}
use godoxy.Rules.Engine.FirstMatch.{FirstMatch, build_handler-ended}
use godoxy.Rules.Engine.OnlyBypass.{dropped, only_bypass}
use godoxy.Rules.Engine.Dropped.{build_handler-dropped}
use godoxy.Rules.Engine.Upstream.{state_of, build_handler-calls}

abbrev Log : Type 0
Log = List ℕ

-- A command that notes a number and goes on.
abbrev note : ℕ → HandlerFunc Log
note n w = (n ∷ w, none)

abbrev upstream : Log → Log
upstream w = 100 ∷ w

abbrev rule : Bool → Option (Command Log) → Rule Log
rule b c = record {
  name = codes "r";
  on_raw = codes "path /";
  on_checker = some (check_func (λ _. b));
  on_is_response = false;
  do_exec = c;
  do_is_response = false;
}

abbrev never : Rule Log
never = rule false (some (commands (cons (terminating (note 1)) nil)))

abbrev answers : Rule Log
answers =
    rule true (some (commands (cons (non_terminating (note 2)) (cons (terminating (note 3)) nil))))

abbrev passes : Rule Log
passes = rule true (some (commands (cons bypass nil)))

abbrev sets_and_passes : Rule Log
sets_and_passes = rule true (some (commands (cons (non_terminating (note 4)) (cons bypass nil))))

abbrev logs : Rule Log
logs = record answers {
  do_exec = some (commands (cons (on_response (note 5)) nil));
  do_is_response = true;
}

abbrev default : Rule Log
default = record answers { name = codes "default" }

abbrev site : List (Rule Log)
site = never ∷ logs ∷ answers ∷ passes ∷ []

-- A default rule that notes a number and goes on.
abbrev marks : Rule Log
marks = record answers {
  name = codes "default";
  do_exec = some (commands (cons (non_terminating (note 8)) nil));
}

site_match : FirstMatch site answers (8 ∷ [])
unfolding pre_rules rule_check
site_match = record {
  before = never ∷ [];
  after = passes ∷ [];
  split_up = refl;
  unmatched = (refl, tt);
  matches = refl;
}

build_handler-ended_example :
    build_handler (λ w. w) (λ w. 7 ∷ w) (never ∷ logs ∷ marks ∷ answers ∷ passes ∷ []) upstream []
    ≡ flushed (λ w. 7 ∷ w) (response_phase (some marks) (post_rules site) (3 ∷ 2 ∷ 8 ∷ []))
unfolding rule_bypasses rule_handle handle is_bypass split_default bytes_eq first_default apply_rule
    is_terminating_handler
build_handler-ended_example =
    build_handler-ended (λ w. w) (λ w. 7 ∷ w) upstream
      (never ∷ logs ∷ marks ∷ answers ∷ passes ∷ []) (some marks) site answers [] (8 ∷ [])
      (3 ∷ 2 ∷ 8 ∷ []) err_terminated refl refl site_match refl refl

site_log : response_phase none (post_rules site) (3 ∷ 2 ∷ []) ≡ went_on (5 ∷ 3 ∷ 2 ∷ []) tt
unfolding response_phase post_rules post_loop post_default rule_check rule_handle handle
site_log = refl

-- The commands of `sets_and_passes` are in an accepted order.
sets_and_passes_accepted :
    build_cmd (cons (non_terminating (note 4)) (cons bypass nil)) ≡ sets_and_passes.do_exec
unfolding build_cmd scan in_order is_response_handler
sets_and_passes_accepted = refl

build_handler-dropped_example :
    build_handler
      (λ w. w)
      (λ w. 7 ∷ w)
      (never ∷ logs ∷ rule true (some bypass) ∷ answers ∷ [])
      upstream
      []
    ≡ build_handler
        (λ w. w)
        (λ w. 7 ∷ w)
        (never ∷ logs ∷ sets_and_passes ∷ answers ∷ [])
        upstream
        []
unfolding dropped only_bypass is_bypass
build_handler-dropped_example =
    build_handler-dropped (λ w. w) (λ w. 7 ∷ w) (never ∷ logs ∷ sets_and_passes ∷ answers ∷ [])
      upstream []

build_handler-in_phases_example :
    build_handler (λ w. w) (λ w. 7 ∷ w) (never ∷ logs ∷ default ∷ passes ∷ []) upstream []
    ≡ build_handler
        (λ w. w)
        (λ w. 7 ∷ w)
        (default ∷ in_phases (never ∷ logs ∷ passes ∷ []))
        upstream
        []
unfolding bytes_eq
build_handler-in_phases_example =
    build_handler-in_phases (λ w. w) (λ w. 7 ∷ w) upstream (never ∷ logs ∷ []) default (passes ∷ [])
      [] (refl, (refl, tt)) refl (refl, tt)

build_cmd-well_ordered_example :
    build_cmd (cons (terminating (note 1)) (cons (on_response (note 2)) nil))
    ≡ some (commands (cons (terminating (note 1)) (cons (on_response (note 2)) nil)))
unfolding is_response_handler
build_cmd-well_ordered_example =
    build_cmd-well_ordered (cons (terminating (note 1)) (cons (on_response (note 2)) nil))

-- How often the upstream is in the log.
abbrev calls_of : Log → ℕ
calls_of [] = 0
calls_of (x ∷ w) = elim (x == 100) [ true ↦ suc (calls_of w) | false ↦ calls_of w ]

build_handler-calls_example :
    calls_of (state_of (build_handler (λ w. w) (λ w. w) (never ∷ answers ∷ logs ∷ []) upstream []))
    ≤ 1
unfolding rule_handle handle
build_handler-calls_example =
    build_handler-calls calls_of (λ w. w) (λ w. w) upstream (λ w. refl) (λ w. refl) (λ w. refl)
      (never ∷ answers ∷ logs ∷ []) [] ((λ n w h. h), ((λ n w h. h), ((λ n w h. h), tt)))
