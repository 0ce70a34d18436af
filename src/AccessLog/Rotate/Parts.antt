-- ===== src/AccessLog/Rotate/Parts.antt =====
-- internal/logging/accesslog/rotate.go: `linesToKeep` as the parts of a file that it stands for.
use mathlib.Core.Path.{subst}
use godoxy.Prelude.{
  ℕ, ◌+◌, ◌≤◌, ◌≡◌, refl, sym, ap, ◌∙◌, arith, Bool, true, false, List, [], ◌∷◌, ◌++◌, append_assoc,
  length, length-append,
}
use godoxy.Prelude.Bytes.{Bytes}
use godoxy.Prelude.Int.{ℤ, pos, ◌-ℤ◌}
use godoxy.AccessLog.Visit.{LineInfo, add_line}

-- The lines lie one after the other in the tail, which begins at the base, with gaps between them,
-- and `out` is their text.
unfoldable pub Parts : ℕ → List LineInfo → Bytes → Bytes → Type 0
Parts base [] tail out = out ≡ []
Parts base (g ∷ gs) tail out =
    (gap s rest out' : Bytes) × (tail ≡ gap ++ (s ++ rest))
    × (g.position ≡ pos (base + length gap))
    × (g.size ≡ length s)
    × (out ≡ s ++ out')
    × Parts (base + length gap + length s) gs rest out'

-- The first line begins at the base.
unfoldable pub NextTo : ℕ → List LineInfo → Type 0
NextTo base [] = ⊥
NextTo base (g ∷ gs) = g.position ≡ pos base

pub Parts-skip :
    (l : Bytes) (base : ℕ) (gs : List LineInfo) (tail out : Bytes)
    → Parts (base + length l) gs tail out
    → Parts base gs (l ++ tail) out
unfolding Parts
Parts-skip l base [] tail out p = p
Parts-skip l base (g ∷ gs) tail out (gap, s, rest, out', t, at, size, o, p) = (
  l ++ gap,
  s,
  rest,
  out',
  rw t (sym (append_assoc l gap (s ++ rest))),
  at ∙ ap pos (omega (arith, length-append l gap)),
  size,
  o,
  subst (λ b. Parts b gs rest out') (omega (arith, length-append l gap)) p,
)

pub Parts-new :
    (l : Bytes) (base : ℕ) (gs : List LineInfo) (tail out : Bytes)
    → Parts (base + length l) gs tail out
    → Parts base (record { position = pos base; size = length l } ∷ gs) (l ++ tail) (l ++ out)
unfolding Parts
Parts-new l base gs tail out p = (
  [],
  l,
  tail,
  out,
  refl,
  ap pos (omega arith),
  refl,
  refl,
  subst (λ b. Parts b gs tail out) (omega arith) p,
)

moved : (n k m : ℕ) → n ≡ m + k → pos n -ℤ pos k ≡ pos m
unfolding ◌-ℤ◌
moved n k m h = ground arith

pub Parts-widen :
    (l : Bytes) (base : ℕ) (g : LineInfo) (gs : List LineInfo) (tail out : Bytes)
    → g.position ≡ pos (base + length l)
    → Parts (base + length l) (g ∷ gs) tail out
    → Parts base
        (record { position = g.position -ℤ pos (length l); size = g.size + length l } ∷ gs)
        (l ++ tail)
        (l ++ out)
unfolding Parts
Parts-widen l base g gs tail out next ([], s, rest, out', t, at, size, o, p) = (
  [],
  l ++ s,
  rest,
  out',
  rw t (sym (append_assoc l s rest)),
  rw next (moved (base + length l) (length l) base refl ∙ ap pos (omega arith)),
  omega (arith, size, length-append l s),
  rw o (sym (append_assoc l s out')),
  subst (λ b. Parts b gs rest out') (omega (arith, length-append l s)) p,
)
Parts-widen l base g gs tail out next (x ∷ gap, s, rest, out', t, at, size, o, p) =
    absurd (ground (arith, next, at))

-- Keeping the line before the parts: it is a part of its own, or it widens the first one.
pub add_line-Parts :
    (l : Bytes) (base size : ℕ) (position : ℤ) (flag : Bool) (gs : List LineInfo) (tail out : Bytes)
    → size ≡ length l
    → position ≡ pos base
    → (flag ≡ true → NextTo (base + length l) gs)
    → Parts (base + length l) gs tail out
    → Parts base
        (add_line flag (record { position = position; size = size }) gs)
        (l ++ tail)
        (l ++ out)
      × NextTo base (add_line flag (record { position = position; size = size }) gs)
unfolding add_line NextTo
add_line-Parts l base size position true [] tail out es ep next p = elim (next refl) [ ]
add_line-Parts l base size position true (g ∷ gs) tail out es ep next p = rw es (
  Parts-widen l base g gs tail out (next refl) p,
  rw (next refl) (moved (base + length l) (length l) base refl),
)
add_line-Parts l base size position false gs tail out es ep next p =
    rw (es, ep) (Parts-new l base gs tail out p, refl)

pub nil_of_length : (xs : Bytes) → length xs ≡ 0 → xs ≡ []
nil_of_length [] h = refl
nil_of_length (x ∷ xs) h = absurd (omega arith)

pub Parts-length :
    (base : ℕ) (gs : List LineInfo) (tail out : Bytes)
    → Parts base gs tail out
    → length out ≤ length tail
unfolding Parts
Parts-length base [] tail out p = rw p (omega arith)
Parts-length base (g ∷ gs) tail out (gap, s, rest, out', t, at, size, o, p) =
    rw (t, o)
      (omega (
        arith,
        Parts-length (base + length gap + length s) gs rest out' p,
        length-append gap (s ++ rest),
        length-append s rest,
        length-append s out',
      ))

-- Parts as long as the tail are the whole of it.
pub Parts-whole :
    (base : ℕ) (gs : List LineInfo) (tail out : Bytes)
    → Parts base gs tail out
    → length out ≡ length tail
    → out ≡ tail
unfolding Parts
Parts-whole base [] tail out p h = rw p (sym (nil_of_length tail (sym h ∙ ap length p)))
Parts-whole base (g ∷ gs) tail out (gap, s, rest, out', t, at, size, o, p) h =
    rw (t, o, nil_of_length gap sizes.0)
      (ap (◌++◌ s) (Parts-whole (base + length gap + length s) gs rest out' p sizes.1))
  where
    sizes : (length gap ≡ 0) × (length out' ≡ length rest)
    sizes = omega (
      arith,
      Parts-length (base + length gap + length s) gs rest out' p,
      length-append gap (s ++ rest),
      length-append s rest,
      length-append s out',
      ap length t,
      ap length o,
      h,
    )
