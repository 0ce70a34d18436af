-- ===== src/AccessLog/Rotate/Log.antt =====
-- internal/logging/accesslog: the text of a log whose lines are all complete, and its lines from the
-- back.
use mathlib.Core.List.{reverse-append, reverse-reverse}
use godoxy.Prelude.{
  ◌≤◌, ◌<◌, ◌≡◌, ◌≢◌, refl, sym, ap, ◌∙◌, arith, none, some, List, [], ◌∷◌, ◌++◌, reverse,
  append-nil, append_assoc, length, length-append, All,
}
use godoxy.Prelude.Bytes.{Bytes}
use godoxy.AccessLog.BackScanner.{cut_last}
use godoxy.AccessLog.BackScanner.Lines.{
  lines_back, non_empty, lines_back-cut, lines_back-one, cut_last-append,
}
use godoxy.AccessLog.BackScanner.Places.{lines_back_nil}
use godoxy.AccessLog.Rotate.Visits.{line_text, text_back}

-- The text of a log with these lines, each ended by a newline.
unfoldable pub log_text : List Bytes → Bytes
log_text [] = []
log_text (l ∷ ls) = line_text l ++ log_text ls

-- A line that is not empty and has no newline within.
abbrev pub IsLine : Bytes → Type 0
IsLine l = (0 < length l) × All (λ c. c ≢ b'\n') l

cut_last-none : (l : Bytes) → All (λ c. c ≢ b'\n') l → cut_last l ≡ none
unfolding cut_last
cut_last-none [] h = refl
cut_last-none (c ∷ l) h = ground (arith, h.0, cut_last-none l h.1)

-- A text that goes on after a newline with a line.
cut_last_line :
    (t l : Bytes) → All (λ c. c ≢ b'\n') l → cut_last ((t ++ b'\n' ∷ []) ++ l) ≡ some (t, l)
unfolding cut_last
cut_last_line t l h =
    ap cut_last (append_assoc t (b'\n' ∷ []) l)
    ∙ cut_last-append t (b'\n' ∷ l) [] l (rw (cut_last-none l h) refl)
    ∙ ap (λ (x : Bytes). some (x, l)) (append-nil t)

lines_back_end : (t : Bytes) → lines_back (t ++ b'\n' ∷ []) ≡ lines_back t
unfolding non_empty cut_last
lines_back_end t =
    lines_back-cut _ t []
      (cut_last-append t (b'\n' ∷ []) [] [] refl ∙ ap (λ (x : Bytes). some (x, [])) (append-nil t))

lines_back_line :
    (ls : List Bytes) (l : Bytes)
    → IsLine l
    → lines_back (text_back ls ++ l) ≡ l ∷ lines_back (text_back ls)
unfolding text_back non_empty
lines_back_line [] [] h = absurd (omega arith)
lines_back_line [] (c ∷ l) h =
    rw (lines_back_nil) (lines_back-one (c ∷ l) (cut_last-none (c ∷ l) h.1))
lines_back_line (m ∷ ls) [] h = absurd (omega arith)
lines_back_line (m ∷ ls) (c ∷ l) h = rw (← append_assoc (text_back ls) m (b'\n' ∷ [])) (
    lines_back-cut _ (text_back ls ++ m) (c ∷ l) (cut_last_line (text_back ls ++ m) (c ∷ l) h.1)
    ∙ ap (◌∷◌ (c ∷ l)) (sym (lines_back_end (text_back ls ++ m))))

pub lines_back-text_back : (ls : List Bytes) → All IsLine ls → lines_back (text_back ls) ≡ ls
unfolding text_back
lines_back-text_back [] h = lines_back_nil
lines_back-text_back (l ∷ ls) h =
    ap lines_back (sym (append_assoc (text_back ls) l (b'\n' ∷ [])))
    ∙ lines_back_end (text_back ls ++ l)
    ∙ lines_back_line ls l h.0
    ∙ ap (◌∷◌ l) (lines_back-text_back ls h.1)

pub length-text_back : (ls : List Bytes) → length ls ≤ length (text_back ls)
unfolding text_back
length-text_back [] = omega arith
length-text_back (l ∷ ls) = omega (
  arith,
  length-text_back ls,
  length-append (text_back ls) (line_text l),
  length-append l (b'\n' ∷ []),
)

text_back-append : (xs ys : List Bytes) → text_back (xs ++ ys) ≡ text_back ys ++ text_back xs
unfolding text_back
text_back-append [] ys = sym (append-nil _)
text_back-append (l ∷ xs) ys =
    rw (text_back-append xs ys) (append_assoc (text_back ys) (text_back xs) (line_text l))

pub text_back-reverse : (ls : List Bytes) → text_back (reverse ls) ≡ log_text ls
unfolding text_back log_text
text_back-reverse [] = refl
text_back-reverse (l ∷ ls) =
    rw (reverse-append (l ∷ []) ls, text_back-append (reverse ls) (l ∷ []), text_back-reverse ls)
      refl

pub log_text-reverse : (ls : List Bytes) → log_text (reverse ls) ≡ text_back ls
log_text-reverse ls = sym (text_back-reverse (reverse ls)) ∙ ap text_back (reverse-reverse ls)

module _ (P : Bytes → Type 0) where
  All-append : (xs ys : List Bytes) → All P xs → All P ys → All P (xs ++ ys)
  All-append [] ys h k = k
  All-append (x ∷ xs) ys h k = (h.0, All-append xs ys h.1 k)

  pub All-reverse : (xs : List Bytes) → All P xs → All P (reverse xs)
  All-reverse [] h = tt
  All-reverse (x ∷ xs) h =
      rw (reverse-append (x ∷ []) xs)
        (All-append (reverse xs) (x ∷ []) (All-reverse xs h.1) (h.0, tt))
