-- ===== src/Rules/Parser.antt =====
-- internal/route/rules/parser.go: `parse`, which splits an expression into a subject and arguments,
-- with quotes, escapes, brackets and environment variables. Text is a list of runes. The lookup of an
-- environment variable (`env.LookupEnv`) is an argument. Leading spaces are trimmed as whole runes: the
-- source cuts one byte after the start of the last one, which is the same for ASCII spaces.
pub mod Words
pub mod Quoted
use godoxy.Prelude.{
  ℕ, zero, suc, ◌+◌, ◌-◌, Bool, true, false, not, ◌&&◌, ◌||◌, Option, none, some, List, [], ◌∷◌,
  ◌++◌, leb, ltb, ◌==◌, if◌then◌else◌,
}
use godoxy.Prelude.Bytes.{Bytes}

-- The errors of `parse`; `env_not_found` is joined to another error, or stands alone.
pub data ParseError : Type 0 where
  unterminated_quotes unterminated_brackets unterminated_env_var : ParseError

-- The variables of the function. `quote` is 0 outside quotes.
pub record State : Type 0 where
  pub subject : Bytes
  pub args : List Bytes
  pub buf : Bytes
  pub escaped : Bool
  pub quote : ℕ
  pub brackets : ℕ
  pub env_var : Bytes
  pub missing : List Bytes
  pub in_env_var : Bool
  pub expecting_brace : Bool

-- What `parse` returns. The index of `quoteChars` is out of range for a rune of 256 or more, which is
-- a run-time panic.
pub data Parsed : Type 0 where
  done : Bytes → List Bytes → Option ParseError → List Bytes → Parsed
  panic : Parsed

-- `escapedChars`.
unfoldable pub escaped_char : ℕ → Option ℕ
escaped_char r =
    if r == b'n'
    then some 10
    else if r == b't'
    then some 9
    else if r == b'r'
    then some 13
    else if (r == 39) || ((r == 34) || ((r == 92) || (r == 32)))
    then some r
    else none

-- `quoteChars`, for a rune below 256: the double quote, the single quote and the backquote.
abbrev pub is_quote : ℕ → Bool
is_quote r = (r == 34) || ((r == 39) || (r == 96))

-- `unicode.IsSpace`.
abbrev pub is_space : ℕ → Bool
is_space r =
    (leb 9 r && leb r 13)
    || ((r == 32)
        || ((r == 133)
            || ((r == 160)
                || ((r == 5760)
                    || ((leb 8192 r && leb r 8202)
                        || ((r == 8232)
                            || ((r == 8233) || ((r == 8239) || ((r == 8287) || (r == 12288))))))))))

unfoldable pub trim_left : Bytes → Bytes
trim_left [] = []
trim_left (r ∷ rs) = if is_space r then trim_left rs else r ∷ rs

-- The end of `flush`: the part becomes the subject or an argument.
abbrev pub put : Bytes → State → State
put part s = elim s.subject [
  | [] ↦ record s { subject = part; buf = [] }
  | x ∷ xs ↦ record s { args = s.args ++ part ∷ []; buf = [] }
]

flush_trimmed : Bytes → State → State
flush_trimmed [] s = s
flush_trimmed (r ∷ rs) s = put (r ∷ rs) s

unfoldable pub flush : Bool → State → State
unfolding trim_left flush_trimmed
flush true s = put s.buf s
flush false s = flush_trimmed (trim_left s.buf) s

abbrev pub write : Bytes → State → State
write bs s = record s { buf = s.buf ++ bs }

-- The branch of an escaped rune.
escape : ℕ → Option ℕ → State → State
escape r (some c) s = record s { buf = s.buf ++ c ∷ []; escaped = false }
escape r none s = record s { buf = s.buf ++ 92 ∷ r ∷ []; escaped = false }

-- The branch of a quote character.
quoting : ℕ → State → State
unfolding flush
quoting r s =
    if (s.quote == 0) && (s.brackets == 0)
    then flush false (record s { quote = r })
    else if r == s.quote
    then flush true (record s { quote = 0 })
    else write (r ∷ []) s

-- The closing brace of an environment variable.
substitute : Option Bytes → State → State
substitute none s = record s { missing = s.missing ++ s.env_var ∷ []; in_env_var = false }
substitute (some value) s = record s { buf = s.buf ++ value; in_env_var = false }

-- What a round does next: the loop goes on, or `parse` returns at once on a bracket that was not
-- opened.
pub data Round : Type 0 where
  next : State → Round
  stray_bracket : State → Round

plain : ℕ → State → State
plain r s = if s.in_env_var then record s { env_var = s.env_var ++ r ∷ [] } else write (r ∷ []) s

-- The `switch` on the rune.
switch_rune : (Bytes → Option Bytes) → ℕ → State → Round
unfolding flush substitute plain
switch_rune lookup r s =
    if r == 92
    then next (record s { escaped = true })
    else if r == b'$'
    then next (
        if s.expecting_brace
        then record s { buf = s.buf ++ b'$' ∷ []; expecting_brace = false }
        else record s { expecting_brace = true })
    else if r == 123
    then next (
        if s.expecting_brace
        then record s { in_env_var = true; expecting_brace = false; env_var = [] }
        else write (r ∷ []) s)
    else if r == 125
    then next (if s.in_env_var then substitute (lookup s.env_var) s else write (r ∷ []) s)
    else if r == b'('
    then next (write (r ∷ []) (record s { brackets = s.brackets + 1 }))
    else if r == b')'
    then if s.brackets == 0
      then stray_bracket s
      else next (write (r ∷ []) (record s { brackets = s.brackets - 1 }))
    else if r == 32
    then next (if s.quote == 0 then flush false s else write (r ∷ []) s)
    else next (
        plain r (
          if s.expecting_brace
          then record s { buf = s.buf ++ b'$' ∷ []; expecting_brace = false }
          else s))

-- A `$` that no brace follows is written out.
abbrev pub settle : ℕ → State → State
settle r s =
    if s.expecting_brace && (not (r == 123) && not (r == b'$'))
    then record s { buf = s.buf ++ b'$' ∷ []; expecting_brace = false }
    else s

-- A rune that is not escaped; `none` is the panic.
unescaped : (Bytes → Option Bytes) → ℕ → State → Option Round
unfolding quoting switch_rune
unescaped lookup r s =
    if leb 256 r
    then none
    else some (if is_quote r then next (quoting r s) else switch_rune lookup r s)

unfoldable pub step : (Bytes → Option Bytes) → ℕ → State → Option Round
unfolding escape unescaped
step lookup r s =
    if s.escaped then some (next (escape r (escaped_char r) s)) else unescaped lookup r (settle r s)

-- After the loop.
error_at_end : State → Option ParseError
error_at_end s =
    if not (s.quote == 0)
    then some unterminated_quotes
    else if not (s.brackets == 0)
    then some unterminated_brackets
    else if s.in_env_var
    then some unterminated_env_var
    else none

finish_with : Option ParseError → State → Parsed
unfolding flush
finish_with (some e) s = done s.subject s.args (some e) s.missing
finish_with none s = let t = flush false s in done t.subject t.args none t.missing

unfoldable pub finish : State → Parsed
unfolding error_at_end finish_with
finish s =
    let t : State = if s.expecting_brace then write (b'$' ∷ []) s else s in
    finish_with (error_at_end t) t

unfoldable pub loop : (Bytes → Option Bytes) → Bytes → State → Parsed
unfolding step finish
loop lookup [] s = finish s
loop lookup (r ∷ rs) s = elim (step lookup r s) [
  | none ↦ panic
  | some (next t) ↦ loop lookup rs t
  | some (stray_bracket t) ↦ done t.subject t.args (some unterminated_brackets) []
]

abbrev pub initial : State
initial = record {
  subject = [];
  args = [];
  buf = [];
  escaped = false;
  quote = 0;
  brackets = 0;
  env_var = [];
  missing = [];
  in_env_var = false;
  expecting_brace = false;
}

unfoldable pub parse : (Bytes → Option Bytes) → Bytes → Parsed
unfolding loop
parse lookup v = loop lookup v initial
