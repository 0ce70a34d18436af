-- ===== src/AccessLog/BackScanner/Lines.antt =====
-- internal/logging/accesslog/back_scanner.go: the lines that the scanner finds, against a description
-- of the lines of a text that knows neither chunks nor a buffer.
use mathlib.Core.List.{reverse-append}
use godoxy.Prelude.{
  ◌≡◌, refl, ap, inl, inr, arith, none, some, List, [], ◌∷◌, ◌++◌, reverse, append-nil,
  append_assoc, Option-cases,
}
use godoxy.Prelude.Bytes.{Bytes, split, split_from}
use godoxy.AccessLog.BackScanner.{cut_last}

unfoldable pub non_empty : List Bytes → List Bytes
non_empty [] = []
non_empty ([] ∷ ls) = non_empty ls
non_empty ((c ∷ l) ∷ ls) = (c ∷ l) ∷ non_empty ls

-- The lines of a text that are not empty, the last one first.
unfoldable pub lines_back : Bytes → List Bytes
unfolding non_empty
lines_back t = reverse (non_empty (split b'\n' t))

non_empty-append : (xs ys : List Bytes) → non_empty (xs ++ ys) ≡ non_empty xs ++ non_empty ys
unfolding non_empty
non_empty-append [] ys = refl
non_empty-append ([] ∷ xs) ys = non_empty-append xs ys
non_empty-append ((c ∷ l) ∷ xs) ys = ap (◌∷◌ (c ∷ l)) (non_empty-append xs ys)

split_one : (part t : Bytes) → cut_last t ≡ none → split_from b'\n' part t ≡ (part ++ t) ∷ []
unfolding cut_last split_from
split_one part [] h = simp (append-nil)
split_one part (c ∷ cs) h =
    ground (arith, split_one [] cs, split_one (part ++ c ∷ []) cs, append_assoc part (c ∷ []) cs)

split_last :
    (part t before line : Bytes)
    → cut_last t ≡ some (before, line)
    → split_from b'\n' part t ≡ split_from b'\n' part before ++ line ∷ []
unfolding cut_last split_from
split_last part [] before line h = absurd (cc)
split_last part (c ∷ cs) before line h = elim (Option-cases (cut_last cs)) [
  | inl e ↦ ground (arith, split_one [] cs)
  | inr ((b, l), e) ↦ ground (arith, split_last [] cs b l, split_last (part ++ c ∷ []) cs b l)
]

pub cut_last-append :
    (p t before line : Bytes)
    → cut_last t ≡ some (before, line)
    → cut_last (p ++ t) ≡ some (p ++ before, line)
unfolding cut_last
cut_last-append [] t before line h = h
cut_last-append (c ∷ p) t before line h = rw (cut_last-append p t before line h) refl

-- The last line of a text is the first of its lines from the back, if it is not empty.
pub lines_back-cut :
    (t before line : Bytes)
    → cut_last t ≡ some (before, line)
    → lines_back t ≡ reverse (non_empty (line ∷ [])) ++ lines_back before
unfolding lines_back split
lines_back-cut t before line h =
    rw (split_last [] t before line h, non_empty-append (split_from b'\n' [] before) (line ∷ []))
      (reverse-append (non_empty (split_from b'\n' [] before)) (non_empty (line ∷ [])))

pub lines_back-one : (t : Bytes) → cut_last t ≡ none → lines_back t ≡ reverse (non_empty (t ∷ []))
unfolding lines_back split
lines_back-one t h = rw (split_one [] t h) refl
