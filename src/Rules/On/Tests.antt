-- ===== src/Rules/On/Tests.antt =====
-- internal/route/rules: conditions with several lines and alternatives.
use godoxy.Prelude.{ℕ, ◌≡◌, refl, Bool, true, false, Option, none, some, List, [], ◌∷◌}
use godoxy.Prelude.Bytes.{Bytes, codes}
use godoxy.Rules.Parser.{parse, loop, step, finish, flush, trim_left}
use godoxy.Rules.On.{
  split_pipe, pipe_parts, split_and, and_parts, trim_space, trim_right, next, splits, parse_single,
  parse_on,
}
use godoxy.Rules.On.Parsing.{Settled, parse_on-Settled}

quoted_pipe :
    split_pipe (codes "path \"a|b\" | !method GET")
    ≡ codes "path \"a|b\"" ∷ codes "!method GET" ∷ []
unfolding split_pipe pipe_parts trim_space trim_right trim_left next splits
quoted_pipe = refl

two_lines : split_and (codes " a b & \n c ") ≡ codes "a b" ∷ codes "c" ∷ []
unfolding split_and and_parts trim_space trim_right trim_left
two_lines = refl

abbrev any_subject : Bytes → List Bytes → Option ((ℕ → Bool) × Bool)
any_subject subject args = some ((λ w. true), false)

abbrev no_env : Bytes → Option Bytes
no_env k = none

parse_on-Settled_example : Settled (parse_on no_env any_subject 2 (codes "a b|!c"))
unfolding split_pipe pipe_parts trim_space trim_right trim_left next splits parse_single parse loop
    step finish flush
parse_on-Settled_example = parse_on-Settled no_env any_subject 0 (codes "a b|!c") tt (tt, (tt, tt))
