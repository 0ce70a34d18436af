-- ===== src/Rules/Parser/Words.antt =====
-- internal/route/rules/parser.go: expressions without quotes, and the runes on which `parse` panics.
use godoxy.Prelude.{
  ℕ, ◌≤◌, ◌<◌, ◌≡◌, ◌≢◌, refl, sym, ap, ◌∙◌, false, Option, none, some, List, [], ◌∷◌, ◌++◌, arith,
  All, append-nil, append_assoc,
}
use godoxy.Prelude.Bytes.{Bytes}
use godoxy.Rules.Parser.{
  State, done, panic, is_quote, is_space, put, next, switch_rune, step, finish, loop, parse,
}

-- The state between two tokens or inside one, outside brackets, escapes and variables.
abbrev pub reading : Bytes → List Bytes → Bytes → ℕ → State
reading subject args buf quote = record {
  subject = subject;
  args = args;
  buf = buf;
  escaped = false;
  quote = quote;
  brackets = 0;
  env_var = [];
  missing = [];
  in_env_var = false;
  expecting_brace = false;
}

-- A rune with no meaning of its own: below 256 and no quote, space, backslash, dollar, brace or
-- bracket.
pub record IsPlain (r : ℕ) : Type 0 where
  pub below : r < 256
  pub not_quote : is_quote r ≡ false
  pub not_space : is_space r ≡ false
  pub not_backslash : r ≢ 92
  pub not_dollar : r ≢ b'$'
  pub not_open_brace : r ≢ 123
  pub not_close_brace : r ≢ 125
  pub not_open : r ≢ b'('
  pub not_close : r ≢ b')'

-- A word is a run of plain runes that is not empty.
abbrev pub IsWord : Bytes → Type 0
IsWord [] = ⊥
IsWord (r ∷ rs) = IsPlain r × All IsPlain rs

switch_rune-plain :
    (lookup : Bytes → Option Bytes) (r : ℕ) (subject : Bytes) (args : List Bytes) (buf : Bytes)
    (quote : ℕ)
    → IsPlain r
    → switch_rune lookup r (reading subject args buf quote)
      ≡ next (reading subject args (buf ++ r ∷ []) quote)
unfolding switch_rune
switch_rune-plain lookup r subject args buf quote h = ground arith

step-plain :
    (lookup : Bytes → Option Bytes) (r : ℕ) (subject : Bytes) (args : List Bytes) (buf : Bytes)
    (quote : ℕ)
    → IsPlain r
    → step lookup r (reading subject args buf quote)
      ≡ some (next (reading subject args (buf ++ r ∷ []) quote))
unfolding step
step-plain lookup r subject args buf quote h =
    ground (arith, switch_rune-plain lookup r subject args buf quote h)

pub loop-next :
    (lookup : Bytes → Option Bytes) (r : ℕ) (rs : Bytes) (s t : State)
    → step lookup r s ≡ some (next t)
    → loop lookup (r ∷ rs) s ≡ loop lookup rs t
unfolding loop
loop-next lookup r rs s t e = rw (e, loop) refl

-- A run of plain runes is added to the buffer.
pub loop-plain :
    (lookup : Bytes → Option Bytes) (w rest : Bytes) (subject : Bytes) (args : List Bytes)
    (buf : Bytes) (quote : ℕ)
    → All IsPlain w
    → loop lookup (w ++ rest) (reading subject args buf quote)
      ≡ loop lookup rest (reading subject args (buf ++ w) quote)
loop-plain lookup [] rest subject args buf quote h =
    ap (λ b. loop lookup rest (reading subject args b quote)) (sym (append-nil buf))
loop-plain lookup (r ∷ w) rest subject args buf quote h =
    loop-next lookup r (w ++ rest) _ _ (step-plain lookup r subject args buf quote h.0)
    ∙ loop-plain lookup w rest subject args (buf ++ r ∷ []) quote h.1
    ∙ ap (λ b. loop lookup rest (reading subject args b quote)) (append_assoc buf (r ∷ []) w)

pub step-space :
    (lookup : Bytes → Option Bytes) (subject : Bytes) (args : List Bytes) (r : ℕ) (rs : Bytes)
    → is_space r ≡ false
    → step lookup 32 (reading subject args (r ∷ rs) 0)
      ≡ some (next (put (r ∷ rs) (reading subject args (r ∷ rs) 0)))
unfolding step
step-space lookup subject args r rs h = rw h refl

pub finish-word :
    (subject : Bytes) (args : List Bytes) (r : ℕ) (rs : Bytes)
    → is_space r ≡ false
    → finish (reading subject args (r ∷ rs) 0) ≡ (
        let t = put (r ∷ rs) (reading subject args (r ∷ rs) 0) in
        done t.subject t.args none t.missing)
unfolding finish
finish-word subject args r rs h = rw h refl

-- The words after the first, each behind a space.
abbrev pub more_words : List Bytes → Bytes
more_words [] = []
more_words (w ∷ ws) = 32 ∷ w ++ more_words ws

pub IsWord-IsPlain : (w : Bytes) → IsWord w → All IsPlain w
IsWord-IsPlain [] h = absurd h
IsWord-IsPlain (r ∷ rs) h = h

loop-words :
    (lookup : Bytes → Option Bytes) (x : ℕ) (xs : Bytes) (args ws : List Bytes) (w : Bytes)
    → IsWord w
    → All IsWord ws
    → loop lookup (more_words ws) (reading (x ∷ xs) args w 0)
      ≡ done (x ∷ xs) (args ++ w ∷ ws) none []
loop-words lookup x xs args ws [] h hs = absurd h
loop-words lookup x xs args [] (r ∷ rs) h hs =
    unfold loop in finish-word (x ∷ xs) args r rs h.0.not_space
loop-words lookup x xs args (w ∷ ws) (r ∷ rs) h hs =
    loop-next lookup 32 (w ++ more_words ws) _ _
      (step-space lookup (x ∷ xs) args r rs h.0.not_space)
    ∙ loop-plain lookup w (more_words ws) (x ∷ xs) (args ++ (r ∷ rs) ∷ []) [] 0
        (IsWord-IsPlain w hs.0)
    ∙ loop-words lookup x xs (args ++ (r ∷ rs) ∷ []) ws w hs.0 hs.1
    ∙ ap (λ parts. done (x ∷ xs) parts none []) (append_assoc args ((r ∷ rs) ∷ []) (w ∷ ws))

-- Words of plain runes with one space between each two: the first becomes the subject, and the others
-- become the arguments, in order, with no error.
pub parse-words :
    (lookup : Bytes → Option Bytes) (w : Bytes) (ws : List Bytes)
    → IsWord w
    → All IsWord ws
    → parse lookup (w ++ more_words ws) ≡ done w ws none []
unfolding parse
parse-words lookup [] ws h hs = absurd h
parse-words lookup (r ∷ rs) [] h hs =
    loop-plain lookup (r ∷ rs) [] [] [] [] 0 h
    ∙ (unfold loop in finish-word [] [] r rs h.0.not_space)
parse-words lookup (r ∷ rs) (w ∷ ws) h hs =
    loop-plain lookup (r ∷ rs) (32 ∷ w ++ more_words ws) [] [] [] 0 h
    ∙ loop-next lookup 32 (w ++ more_words ws) (reading [] [] (r ∷ rs) 0) _
        (step-space lookup [] [] r rs h.0.not_space)
    ∙ loop-plain lookup w (more_words ws) (r ∷ rs) [] [] 0 (IsWord-IsPlain w hs.0)
    ∙ loop-words lookup r rs [] ws w hs.0 hs.1

step-panic :
    (lookup : Bytes → Option Bytes) (r : ℕ) (s : State)
    → s.escaped ≡ false
    → 256 ≤ r
    → step lookup r s ≡ none
unfolding step
step-panic lookup r s e h = rw e (ground arith)

-- A rune of 256 or more that follows any run of plain runes makes `parse` panic, whatever comes
-- after it.
pub parse-panic :
    (lookup : Bytes → Option Bytes) (w : Bytes) (r : ℕ) (rest : Bytes)
    → All IsPlain w
    → 256 ≤ r
    → parse lookup (w ++ r ∷ rest) ≡ panic
unfolding parse
parse-panic lookup w r rest h k =
    loop-plain lookup w (r ∷ rest) [] [] [] 0 h
    ∙ rw (step-panic lookup r (reading [] [] w 0) refl k, loop) refl
