-- ===== src/Rules/On.antt =====
-- internal/route/rules/on.go: how the condition of a rule is split into lines and alternatives, and
-- parsed. Text is a list of runes. The table `checkers`, with the validation of the arguments and the
-- check that it builds, is the argument `build`: `none` is an unknown subject or a refused argument.
pub mod Pipes
pub mod Parsing
mod Tests
use godoxy.Prelude.{
  ℕ, zero, suc, ◌+◌, ◌-◌, Bool, true, false, not, ◌&&◌, ◌||◌, Option, none, some, List, [], ◌∷◌,
  ◌++◌, leb, ltb, ◌==◌, if◌then◌else◌, length, map,
}
use godoxy.Prelude.Bytes.{Bytes}
use godoxy.Rules.Parser.{is_quote, is_space, trim_left, Parsed, done, panic, parse}
use godoxy.Rules.Engine.{
  Checker, check_func, check_match_single, check_match_all, Checkers, no_check, check_then,
}

abbrev pub is_empty : Bytes → Bool
is_empty [] = true
is_empty (r ∷ s) = false

unfoldable pub trim_right : (ℕ → Bool) → Bytes → Bytes
trim_right space [] = []
trim_right space (r ∷ s) =
    let rest = trim_right space s in if space r && is_empty rest then [] else r ∷ rest

-- `strings.TrimSpace`.
unfoldable pub trim_space : Bytes → Bytes
unfolding trim_left trim_right
trim_space s = trim_right is_space (trim_left s)

-- The variables of `splitPipe`. `quote` is 0 outside quotes.
pub record Pipe : Type 0 where
  pub escaped : Bool
  pub quote : ℕ
  pub brackets : ℕ

abbrev pub outside : Pipe
outside = record { escaped = false; quote = 0; brackets = 0 }

-- Neither in quotes nor in brackets.
abbrev pub is_top : Pipe → Bool
is_top q = (q.quote == 0) && (q.brackets == 0)

-- A quote begins, or ends.
abbrev pub on_quote : ℕ → Pipe → Pipe
on_quote r q =
    if is_top q then record q { quote = r } else if r == q.quote then record q { quote = 0 } else q

-- The `switch` on an unescaped rune.
abbrev pub on_rune : ℕ → Pipe → Pipe
on_rune r q =
    if r == 92
    then record q { escaped = true }
    else if is_quote r
    then on_quote r q
    else if r == 40
    then record q { brackets = q.brackets + 1 }
    else if r == 41
    then if ltb 0 q.brackets then record q { brackets = q.brackets - 1 } else q
    else q

unfoldable pub next : ℕ → Pipe → Pipe
next r q = if q.escaped then record q { escaped = false } else on_rune r q

-- The rune ends a part.
unfoldable pub splits : ℕ → Pipe → Bool
splits r q = not q.escaped && ((r == 124) && is_top q)

-- The loop of `splitPipe`, with the part that is being read.
unfoldable pub pipe_parts : Pipe → Bytes → Bytes → List Bytes
unfolding trim_space next splits
pipe_parts q current [] = if is_empty current then [] else trim_space current ∷ []
pipe_parts q current (r ∷ s) =
    let after = pipe_parts q [] s in
    let longer = pipe_parts (next r q) (current ++ r ∷ []) s in
    if splits r q then trim_space current ∷ after else longer

unfoldable pub split_pipe : Bytes → List Bytes
unfolding pipe_parts
split_pipe s = pipe_parts outside [] s

-- `asciiSpace` and `andSeps`.
abbrev pub ascii_space : ℕ → Bool
ascii_space r = (leb 9 r && leb r 13) || (r == 32)

abbrev pub and_sep : ℕ → Bool
and_sep r = (r == 38) || (r == 10)

abbrev pub trim_ascii_left : Bytes → Bytes
trim_ascii_left [] = []
trim_ascii_left (r ∷ s) = if ascii_space r then trim_ascii_left s else r ∷ s

-- An empty segment is left out.
abbrev pub add_segment : Bytes → List Bytes → List Bytes
add_segment [] rest = rest
add_segment (r ∷ s) rest = (r ∷ s) ∷ rest

-- The loop of `splitAnd`, with the segment that is being read; the last one is trimmed of all spaces.
unfoldable pub and_parts : Bytes → Bytes → List Bytes
unfolding trim_space trim_right
and_parts current [] = add_segment (trim_space current) []
and_parts current (r ∷ s) =
    let after = and_parts [] s in
    let longer = and_parts (current ++ r ∷ []) s in
    if and_sep r
    then add_segment (trim_right ascii_space (trim_ascii_left current)) after
    else longer

unfoldable pub split_and : Bytes → List Bytes
unfolding and_parts
split_and s = and_parts [] s

-- What a line parses to: a checker and whether it is for the response, an error, or a panic: that of
-- `parse`, or that of the type assertion on a checker which is no `CheckFunc`. Fuel can run out.
pub data Line (W : Type 0) : Type 0 where
  line : Checker W → Bool → Line W
  refused panicked out_of_fuel : Line W

-- The loop over alternatives: the checkers, whether one is for the response, and whether there was an
-- error; or what ended it.
pub data Alternatives (W : Type 0) : Type 0 where
  alternatives : Checkers W → Bool → Bool → Alternatives W
  broken unfinished : Alternatives W

module _ {W : Type 0} where
  add_check : (W → Bool) → Bool → Alternatives W → Alternatives W
  add_check f resp (alternatives cs resps errs) =
      alternatives (check_then (check_func f) cs) (resp || resps) errs
  add_check f resp broken = broken
  add_check f resp unfinished = unfinished

  add_error : Alternatives W → Alternatives W
  add_error (alternatives cs resps errs) = alternatives cs resps true
  add_error broken = broken
  add_error unfinished = unfinished

  -- One more alternative before the others; a checker that is no `CheckFunc` panics.
  unfoldable pub add_line : Line W → Alternatives W → Alternatives W
  unfolding add_check add_error
  add_line (line (check_func f) resp) rest = add_check f resp rest
  add_line (line (check_match_single cs) resp) rest = broken
  add_line (line (check_match_all cs) resp) rest = broken
  add_line refused rest = add_error rest
  add_line panicked rest = broken
  add_line out_of_fuel rest = unfinished

  unfoldable pub any_of : Alternatives W → Line W
  any_of (alternatives cs resp true) = refused
  any_of (alternatives cs resp false) = line (check_match_single cs) resp
  any_of broken = panicked
  any_of unfinished = out_of_fuel

  unfoldable pub add_all : List (Line W) → Alternatives W
  unfolding add_line
  add_all [] = alternatives no_check false false
  add_all (l ∷ ls) = add_line l (add_all ls)

module _ {W : Type 0} (lookup_env : Bytes → Option Bytes)
    (build : Bytes → List Bytes → Option ((W → Bool) × Bool)) where
  negated : Option ((W → Bool) × Bool) → Line W
  negated none = refused
  negated (some (f, resp)) = line (check_func (λ w. not (f w))) resp

  plain : Option ((W → Bool) × Bool) → Line W
  plain none = refused
  plain (some (f, resp)) = line (check_func f) resp

  -- A subject with a leading `!` is negated.
  build_check : Bytes → List Bytes → Line W
  unfolding negated plain
  build_check [] args = plain (build [] args)
  build_check (r ∷ s) args = if r == 33 then negated (build s args) else plain (build (r ∷ s) args)

  after_parse : Parsed → Line W
  unfolding build_check
  after_parse (done subject args none []) = build_check subject args
  after_parse (done subject args none (m ∷ missing)) = refused
  after_parse (done subject args (some e) missing) = refused
  after_parse panic = panicked

  -- A line with one alternative.
  unfoldable pub parse_single : Bytes → Line W
  unfolding after_parse
  parse_single s = after_parse (parse lookup_env s)

  -- `parseOn`, with fuel for the calls of itself.
  unfoldable pub parse_on : ℕ → Bytes → Line W
  unfolding split_pipe parse_single any_of add_all
  parse_on zero s = out_of_fuel
  parse_on (suc n) s =
      if ltb 1 (length (split_pipe s))
      then any_of (add_all (map (parse_on n) (split_pipe s)))
      else parse_single s

  -- The loop of `RuleOn.Parse`: the checkers of the lines, whether one is for the response, and whether
  -- there was an error, which leaves the line out; `none` is a panic.
  unfoldable pub parse_lines : List Bytes → Option (Checkers W × (Bool × Bool))
  unfolding parse_on
  parse_lines [] = some (no_check, (false, false))
  parse_lines (s ∷ ss) = add (parse_on 2 s) (parse_lines ss)
    where
      add : Line W → Option (Checkers W × (Bool × Bool)) → Option (Checkers W × (Bool × Bool))
      add (line c resp) (some (cs, (resps, errs))) = some (check_then c cs, (resp || resps, errs))
      add refused (some (cs, (resps, errs))) = some (cs, (resps, true))
      add _ _ = none

  -- `RuleOn.Parse`.
  unfoldable pub parse_rule_on : Bytes → Option (Checker W × (Bool × Bool))
  unfolding parse_lines split_and
  parse_rule_on v = elim (parse_lines (split_and v)) [
    | none ↦ none
    | some (cs, flags) ↦ some (check_match_all cs, flags)
  ]
