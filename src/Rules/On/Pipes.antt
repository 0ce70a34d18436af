-- ===== src/Rules/On/Pipes.antt =====
-- internal/route/rules/on.go: the parts that splitPipe finds.
use mathlib.Core.Path.{subst}
use godoxy.Prelude.{
  ℕ, ◌≤◌, ◌≡◌, inl, inr, refl, sym, ap, ◌∙◌, arith, Bool, true, false, not, ◌&&◌, List, [], ◌∷◌,
  ◌++◌, ◌==◌, ==_iff, length, Bool-cases, All, All-map,
}
use godoxy.Prelude.Bytes.{Bytes}
use godoxy.Rules.Parser.{is_space, trim_left}
use godoxy.Rules.On.{
  is_empty, trim_right, trim_space, Pipe, outside, is_top, next, splits, pipe_parts, split_pipe,
}

-- No rune of the text ends a part, from this state on.
abbrev pub whole : Pipe → Bytes → Bool
whole q [] = true
whole q (r ∷ s) = not (splits r q) && whole (next r q) s

abbrev after : Pipe → Bytes → Pipe
after q [] = q
after q (r ∷ s) = after (next r q) s

both : (a b : Bool) → (a && b) ≡ true → (a ≡ true) × (b ≡ true)
both true b h = (refl, h)
both false b h = ground arith

untrue : (b : Bool) → not b ≡ true → b ≡ false
untrue true h = ground arith
untrue false h = refl

clash : (b : Bool) → b ≡ true → b ≡ false → ⊥
clash true h k = ground arith
clash false h k = ground arith

-- The first rune, and the others after it.
whole-cons :
    (q : Pipe) (r : ℕ) (s : Bytes)
    → whole q (r ∷ s) ≡ true
    → (splits r q ≡ false) × (whole (next r q) s ≡ true)
whole-cons q r s h =
    let (a, b) = both (not (splits r q)) (whole (next r q) s) h in (untrue (splits r q) a, b)

-- One rune more, which does not end the part.
whole-snoc :
    (q : Pipe) (s : Bytes) (r : ℕ)
    → whole q s ≡ true
    → splits r (after q s) ≡ false
    → whole q (s ++ r ∷ []) ≡ true
whole-snoc q [] r h n = rw n refl
whole-snoc q (x ∷ s) r h n = let (a, b) = whole-cons q x s h in rw a (whole-snoc (next x q) s r b n)

after-snoc : (q : Pipe) (s : Bytes) (r : ℕ) → after q (s ++ r ∷ []) ≡ next r (after q s)
after-snoc q [] r = refl
after-snoc q (x ∷ s) r = after-snoc (next x q) s r

-- A rune that means something to `splitPipe` is no space.
space_not : (r c : ℕ) → is_space c ≡ false → is_space r ≡ true → (r == c) ≡ false
space_not r c h k = elim (Bool-cases (r == c)) [
  | inl e ↦ absurd (clash (is_space c) (subst (λ x. is_space x ≡ true) ((==_iff r c).0 e) k) h)
  | inr e ↦ e
]

next-space : (r : ℕ) → is_space r ≡ true → next r outside ≡ outside
unfolding next
next-space r k =
    rw
      (
        space_not r 92 refl k,
        space_not r 34 refl k,
        space_not r 39 refl k,
        space_not r 96 refl k,
        space_not r 40 refl k,
        space_not r 41 refl k,
      )
      refl

splits-space : (r : ℕ) → is_space r ≡ true → splits r outside ≡ false
unfolding splits
splits-space r k = rw (space_not r 124 refl k) refl

trim_left-whole : (s : Bytes) → whole outside s ≡ true → whole outside (trim_left s) ≡ true
unfolding trim_left
trim_left-whole [] h = refl
trim_left-whole (r ∷ s) h = elim (Bool-cases (is_space r)) [
  | inl k ↦
      rw (trim_left, k)
        (trim_left-whole s
          (subst (λ q. whole q s ≡ true) (next-space r k) (whole-cons outside r s h).1))
  | inr k ↦ rw (trim_left, k) h
]

trim_right-whole :
    (q : Pipe) (s : Bytes) → whole q s ≡ true → whole q (trim_right is_space s) ≡ true
unfolding trim_right
trim_right-whole q [] h = refl
trim_right-whole q (r ∷ s) h = elim (Bool-cases (is_space r && is_empty (trim_right is_space s))) [
  | inl k ↦ rw (trim_right, k) refl
  | inr k ↦
      rw (trim_right, k, (whole-cons q r s h).0)
        (trim_right-whole (next r q) s (whole-cons q r s h).1)
]

trim_space-whole : (s : Bytes) → whole outside s ≡ true → whole outside (trim_space s) ≡ true
unfolding trim_space
trim_space-whole s h = trim_right-whole outside (trim_left s) (trim_left-whole s h)

-- A part ends outside of quotes and brackets.
splits-outside : (r : ℕ) (q : Pipe) → splits r q ≡ true → q ≡ outside
unfolding splits
splits-outside r q h =
    let (a, b) = both (not q.escaped) ((r == 124) && is_top q) h in
    let (_, c) = both (r == 124) (is_top q) b in
    let (d, e) = both (q.quote == 0) (q.brackets == 0) c in
    λ i. record {
      escaped = untrue q.escaped a i;
      quote = (==_iff q.quote 0).0 d i;
      brackets = (==_iff q.brackets 0).0 e i;
    }

Whole : List Bytes → Type 0
Whole ps = All (λ p. whole outside p ≡ true) ps

-- The part that is being read was begun outside of quotes and brackets, and is one part so far.
pipe_parts-Whole :
    (q : Pipe) (current s : Bytes)
    → whole outside current ≡ true
    → after outside current ≡ q
    → Whole (pipe_parts q current s)
unfolding pipe_parts Whole
pipe_parts-Whole q current [] h e = elim (Bool-cases (is_empty current)) [
  | inl k ↦ rw (pipe_parts, k) tt
  | inr k ↦ rw (pipe_parts, k) (trim_space-whole current h, tt)
]
pipe_parts-Whole q current (r ∷ s) h e = elim (Bool-cases (splits r q)) [
  | inl k ↦
      rw (pipe_parts, k)
        (trim_space-whole current h, pipe_parts-Whole q [] s refl (sym (splits-outside r q k)))
  | inr k ↦
      rw (pipe_parts, k)
        (pipe_parts-Whole (next r q) (current ++ r ∷ []) s
          (whole-snoc outside current r h (ap (splits r) e ∙ k))
          (after-snoc outside current r ∙ ap (next r) e))
]

-- A text that is one part is not split.
whole-one : (q : Pipe) (current s : Bytes) → whole q s ≡ true → length (pipe_parts q current s) ≤ 1
unfolding pipe_parts
whole-one q current [] h = elim (Bool-cases (is_empty current)) [
  | inl k ↦ rw (pipe_parts, k) (omega arith)
  | inr k ↦ rw (pipe_parts, k) (omega arith)
]
whole-one q current (r ∷ s) h =
    let (a, b) = whole-cons q r s h in
    rw (pipe_parts, a) (whole-one (next r q) (current ++ r ∷ []) s b)

-- Each alternative that `splitPipe` finds in a line is split into at most one by it again.
pub split_pipe-split_pipe : (s : Bytes) → All (λ p. length (split_pipe p) ≤ 1) (split_pipe s)
unfolding split_pipe Whole
split_pipe-split_pipe s =
    All-map (split_pipe s) (λ p h. whole-one outside [] p h)
      (pipe_parts-Whole outside [] s refl refl)
