-- ===== src/Rules/Tests.antt =====
-- Tests of the rule language, and witnesses for its theorems.
use godoxy.Prelude.{◌≡◌, refl, arith, Option, none, some, [], ◌∷◌, ◌++◌}
use godoxy.Prelude.Bytes.{Bytes, codes}
use godoxy.Rules.Parser.{parse, done, panic}
use godoxy.Rules.Parser.Words.{IsPlain, more_words, parse-words, parse-panic}
use godoxy.Rules.Parser.Quoted.{quote_text, parse-quote_text}

abbrev env : Bytes → Option Bytes
env v = some (codes "key")

-- The example of the doc comment of `parse`.
quoted_error :
    parse env (codes "error 403 \"Forbidden 'foo' 'bar'\"")
    ≡ done (codes "error") (codes "403" ∷ codes "Forbidden 'foo' 'bar'" ∷ []) none []
unfolding parse
quoted_error = refl

env_error :
    parse env (codes "error 403 \"Message: ${K}$\"")
    ≡ done (codes "error") (codes "403" ∷ codes "Message: key$" ∷ []) none []
unfolding parse
env_error = refl

letter_e : IsPlain 101
letter_e = record {
  below = omega arith;
  not_quote = refl;
  not_space = refl;
  not_backslash = omega arith;
  not_dollar = omega arith;
  not_open_brace = omega arith;
  not_close_brace = omega arith;
  not_open = omega arith;
  not_close = omega arith;
}

parse-words_example :
    parse env (codes "ee" ++ more_words (codes "e" ∷ codes "ee" ∷ []))
    ≡ done (codes "ee") (codes "e" ∷ codes "ee" ∷ []) none []
parse-words_example =
    parse-words env (codes "ee") (codes "e" ∷ codes "ee" ∷ []) (letter_e, (letter_e, tt))
      ((letter_e, tt), ((letter_e, (letter_e, tt)), tt))

parse-quote_text_example :
    parse env (codes "e" ++ 32 ∷ 34 ∷ quote_text (codes "a $\\\"") (34 ∷ []))
    ≡ done (codes "e") (codes "a $\\\"" ∷ []) none []
parse-quote_text_example =
    parse-quote_text env (codes "e") (codes "a $\\\"") (letter_e, tt)
      (
        (omega arith, omega arith, omega arith),
        (
          (omega arith, omega arith, omega arith),
          (
            (omega arith, omega arith, omega arith),
            (
              (omega arith, omega arith, omega arith),
              ((omega arith, omega arith, omega arith), tt),
            ),
          ),
        ),
      )

-- An em dash.
parse-panic_example : parse env (codes "e" ++ 8212 ∷ codes " e") ≡ panic
parse-panic_example = parse-panic env (codes "e") 8212 (codes " e") (letter_e, tt) (omega arith)
