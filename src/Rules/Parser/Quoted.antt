-- ===== src/Rules/Parser/Quoted.antt =====
-- internal/route/rules/parser.go: text in double quotes.
use godoxy.Prelude.{
  Bool-cases, inl, inr, ℕ, ◌<◌, ◌≡◌, ◌≢◌, refl, sym, ap, ◌∙◌, true, false, ◌||◌, Option, none, some,
  List, [], ◌∷◌, ◌++◌, arith, ◌==◌, if◌then◌else◌, All, append-nil, append_assoc,
}
use godoxy.Prelude.Bytes.{Bytes}
use godoxy.Rules.Parser.{State, done, unterminated_quotes, escaped_char, next, step, loop, parse}
use godoxy.Rules.Parser.Words.{reading, IsWord, loop-next, loop-plain, step-space}

-- How a user writes a rune inside double quotes.
quote_rune : ℕ → Bytes → Bytes
quote_rune r rest =
    if (r == 34) || (r == 92)
    then 92 ∷ r ∷ rest
    else if r == b'$'
    then b'$' ∷ b'$' ∷ rest
    else r ∷ rest

unfoldable pub quote_text : Bytes → Bytes → Bytes
unfolding quote_rune
quote_text [] rest = rest
quote_text (r ∷ rs) rest = quote_rune r (quote_text rs rest)

-- Below 256 and no bracket: brackets are counted inside quotes too.
abbrev pub IsQuotable : ℕ → Type 0
IsQuotable r = (r < 256) × (r ≢ b'(') × (r ≢ b')')

dollars : Bytes → List Bytes → Bytes → State
dollars subject args buf = record (reading subject args buf 34) { expecting_brace = true }

backslash : Bytes → List Bytes → Bytes → State
backslash subject args buf = record (reading subject args buf 34) { escaped = true }

module _ (lookup : Bytes → Option Bytes) (subject : Bytes) (args : List Bytes) (buf : Bytes) where
  step-backslash :
      step lookup 92 (reading subject args buf 34) ≡ some (next (backslash subject args buf))
  unfolding step backslash
  step-backslash = refl

  step-escaped :
      (r : ℕ)
      → ((r == 34) || (r == 92)) ≡ true
      → step lookup r (backslash subject args buf)
        ≡ some (next (reading subject args (buf ++ r ∷ []) 34))
  unfolding step backslash escaped_char
  step-escaped r h = ground arith

  step-dollar :
      step lookup b'$' (reading subject args buf 34) ≡ some (next (dollars subject args buf))
  unfolding step dollars
  step-dollar = refl

  step-dollars :
      step lookup b'$' (dollars subject args buf)
      ≡ some (next (reading subject args (buf ++ b'$' ∷ []) 34))
  unfolding step dollars
  step-dollars = refl

  step-inside :
      (r : ℕ)
      → IsQuotable r
      → ((r == 34) || (r == 92)) ≡ false
      → (r == b'$') ≡ false
      → step lookup r (reading subject args buf 34)
        ≡ some (next (reading subject args (buf ++ r ∷ []) 34))
  unfolding step
  step-inside r q a b = ground arith

step-close :
    (lookup : Bytes → Option Bytes) (x : ℕ) (xs : Bytes) (args : List Bytes) (buf : Bytes)
    → step lookup 34 (reading (x ∷ xs) args buf 34)
      ≡ some (next (reading (x ∷ xs) (args ++ buf ∷ []) [] 0))
unfolding step
step-close lookup x xs args buf = refl

step-open :
    (lookup : Bytes → Option Bytes) (subject : Bytes) (args : List Bytes)
    → step lookup 34 (reading subject args [] 0) ≡ some (next (reading subject args [] 34))
unfolding step
step-open lookup subject args = refl

loop-rune :
    (lookup : Bytes → Option Bytes) (r : ℕ) (rest : Bytes) (subject : Bytes) (args : List Bytes)
    (buf : Bytes)
    → IsQuotable r
    → loop lookup (quote_rune r rest) (reading subject args buf 34)
      ≡ loop lookup rest (reading subject args (buf ++ r ∷ []) 34)
unfolding quote_rune
loop-rune lookup r rest subject args buf q = elim (Bool-cases ((r == 34) || (r == 92))) [
  | inl e ↦ rw e (
      loop-next lookup 92 (r ∷ rest) _ _ (step-backslash lookup subject args buf)
      ∙ loop-next lookup r rest _ _ (step-escaped lookup subject args buf r e))
  | inr e ↦ rw e (elim (Bool-cases (r == b'$')) [
    | inl d ↦ rw d (
        loop-next lookup b'$' (b'$' ∷ rest) _ _ (step-dollar lookup subject args buf)
        ∙ loop-next lookup b'$' rest _ _ (step-dollars lookup subject args buf)
        ∙ ap (λ c. loop lookup rest (reading subject args (buf ++ c ∷ []) 34)) (ground arith))
    | inr d ↦ rw d (loop-next lookup r rest _ _ (step-inside lookup subject args buf r q e d))
  ])
]

loop-quoted :
    (lookup : Bytes → Option Bytes) (text rest : Bytes) (subject : Bytes) (args : List Bytes)
    (buf : Bytes)
    → All IsQuotable text
    → loop lookup (quote_text text rest) (reading subject args buf 34)
      ≡ loop lookup rest (reading subject args (buf ++ text) 34)
unfolding quote_text
loop-quoted lookup [] rest subject args buf h =
    ap (λ b. loop lookup rest (reading subject args b 34)) (sym (append-nil buf))
loop-quoted lookup (r ∷ rs) rest subject args buf h =
    loop-rune lookup r (quote_text rs rest) subject args buf h.0
    ∙ loop-quoted lookup rs rest subject args (buf ++ r ∷ []) h.1
    ∙ ap (λ b. loop lookup rest (reading subject args b 34)) (append_assoc buf (r ∷ []) rs)

-- Up to the opening quote, and through the text.
parse-opened :
    (lookup : Bytes → Option Bytes) (r : ℕ) (rs text rest : Bytes)
    → IsWord (r ∷ rs)
    → All IsQuotable text
    → parse lookup ((r ∷ rs) ++ 32 ∷ 34 ∷ quote_text text rest)
      ≡ loop lookup rest (reading (r ∷ rs) [] text 34)
unfolding parse
parse-opened lookup r rs text rest h q =
    loop-plain lookup (r ∷ rs) (32 ∷ 34 ∷ quote_text text rest) [] [] [] 0 h
    ∙ loop-next lookup 32 (34 ∷ quote_text text rest) (reading [] [] (r ∷ rs) 0) _
        (step-space lookup [] [] r rs h.0.not_space)
    ∙ loop-next lookup 34 (quote_text text rest) (reading (r ∷ rs) [] [] 0) _
        (step-open lookup (r ∷ rs) [])
    ∙ loop-quoted lookup text rest (r ∷ rs) [] [] q

-- A word and then any text of runes below 256 without round brackets, written in double quotes with
-- its double quotes and backslashes escaped and its dollars doubled: the word is the subject and the
-- text, unchanged, the one argument.
pub parse-quote_text :
    (lookup : Bytes → Option Bytes) (w text : Bytes)
    → IsWord w
    → All IsQuotable text
    → parse lookup (w ++ 32 ∷ 34 ∷ quote_text text (34 ∷ [])) ≡ done w (text ∷ []) none []
parse-quote_text lookup [] text h q = absurd h
parse-quote_text lookup (r ∷ rs) text h q =
    parse-opened lookup r rs text (34 ∷ []) h q
    ∙ loop-next lookup 34 [] _ _ (step-close lookup r rs [] text)
    ∙ (unfold loop in refl)

-- Without the closing quote the text is dropped and the error is that of unterminated quotes.
pub parse-unterminated :
    (lookup : Bytes → Option Bytes) (w text : Bytes)
    → IsWord w
    → All IsQuotable text
    → parse lookup (w ++ 32 ∷ 34 ∷ quote_text text []) ≡ done w [] (some unterminated_quotes) []
parse-unterminated lookup [] text h q = absurd h
parse-unterminated lookup (r ∷ rs) text h q =
    parse-opened lookup r rs text [] h q ∙ (unfold loop in refl)
