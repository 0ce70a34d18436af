-- ===== src/Rules/On/Parsing.antt =====
-- internal/route/rules/on.go: the calls of parseOn in itself, and its type assertion.
use godoxy.Prelude.{
  ℕ, suc, ◌≤◌, ◌≡◌, inl, inr, refl, arith, Bool, true, false, Option, none, some, List, [], ◌∷◌,
  ltb, ltb→lt, ◌==◌, if◌then◌else◌, length, map, Bool-cases, All,
}
use godoxy.Prelude.Bytes.{Bytes}
use godoxy.Rules.Parser.{Parsed, done, panic, parse}
use godoxy.Rules.Engine.{check_func, check_match_single, check_match_all}
use godoxy.Rules.On.{
  split_pipe, Line, line, refused, panicked, out_of_fuel, Alternatives, alternatives, broken,
  unfinished, add_check, add_error, add_line, any_of, add_all, negated, plain, build_check,
  after_parse, parse_single, parse_on,
}
use godoxy.Rules.On.Pipes.{split_pipe-split_pipe}

module _ {W : Type 0} where
  -- The line parsed, or was refused.
  abbrev pub Settled : Line W → Type 0
  Settled (line c resp) = Unit
  Settled refused = Unit
  Settled panicked = ⊥
  Settled out_of_fuel = ⊥

  -- What one alternative can be parsed to.
  abbrev pub Single : Line W → Type 0
  Single (line (check_func f) resp) = Unit
  Single (line (check_match_single cs) resp) = ⊥
  Single (line (check_match_all cs) resp) = ⊥
  Single refused = Unit
  Single panicked = Unit
  Single out_of_fuel = ⊥

  abbrev Collected : Alternatives W → Type 0
  Collected (alternatives cs resp errs) = Unit
  Collected broken = ⊥
  Collected unfinished = ⊥

  add_check-Collected :
      (f : W → Bool) (resp : Bool) (a : Alternatives W)
      → Collected a
      → Collected (add_check f resp a)
  unfolding add_check
  add_check-Collected f resp (alternatives cs resps errs) h = tt
  add_check-Collected f resp broken h = elim h [ ]
  add_check-Collected f resp unfinished h = elim h [ ]

  add_error-Collected : (a : Alternatives W) → Collected a → Collected (add_error a)
  unfolding add_error
  add_error-Collected (alternatives cs resps errs) h = tt
  add_error-Collected broken h = elim h [ ]
  add_error-Collected unfinished h = elim h [ ]

  add_line-Collected :
      (l : Line W) (a : Alternatives W)
      → Single l
      → Settled l
      → Collected a
      → Collected (add_line l a)
  unfolding add_line
  add_line-Collected (line (check_func f) resp) a p q h = add_check-Collected f resp a h
  add_line-Collected (line (check_match_single _) resp) a p q h = elim p [ ]
  add_line-Collected (line (check_match_all _) resp) a p q h = elim p [ ]
  add_line-Collected refused a p q h = add_error-Collected a h
  add_line-Collected panicked a p q h = elim q [ ]
  add_line-Collected out_of_fuel a p q h = elim p [ ]

  add_all-Collected : (ls : List (Line W)) → All Single ls → All Settled ls → Collected (add_all ls)
  unfolding add_all
  add_all-Collected [] p q = tt
  add_all-Collected (l ∷ ls) p q =
      add_line-Collected l (add_all ls) p.0 q.0 (add_all-Collected ls p.1 q.1)

  any_of-Settled : (a : Alternatives W) → Collected a → Settled (any_of a)
  unfolding any_of
  any_of-Settled (alternatives cs resp true) h = tt
  any_of-Settled (alternatives cs resp false) h = tt
  any_of-Settled broken h = elim h [ ]
  any_of-Settled unfinished h = elim h [ ]

module _ {W : Type 0} (lookup_env : Bytes → Option Bytes)
    (build : Bytes → List Bytes → Option ((W → Bool) × Bool)) where
  negated-Single : (o : Option ((W → Bool) × Bool)) → Single (negated lookup_env build o)
  unfolding negated
  negated-Single none = tt
  negated-Single (some (f, resp)) = tt

  plain-Single : (o : Option ((W → Bool) × Bool)) → Single (plain lookup_env build o)
  unfolding plain
  plain-Single none = tt
  plain-Single (some (f, resp)) = tt

  build_check-Single :
      (subject : Bytes) (args : List Bytes) → Single (build_check lookup_env build subject args)
  unfolding build_check
  build_check-Single [] args = plain-Single (build [] args)
  build_check-Single (r ∷ s) args = elim (Bool-cases (r == 33)) [
    | inl e ↦ rw (build_check, e) (negated-Single (build s args))
    | inr e ↦ rw (build_check, e) (plain-Single (build (r ∷ s) args))
  ]

  after_parse-Single : (p : Parsed) → Single (after_parse lookup_env build p)
  unfolding after_parse
  after_parse-Single (done subject args none []) = build_check-Single subject args
  after_parse-Single (done subject args none (m ∷ ms)) = tt
  after_parse-Single (done subject args (some e) ms) = tt
  after_parse-Single panic = tt

  parse_single-Single : (s : Bytes) → Single (parse_single lookup_env build s)
  unfolding parse_single
  parse_single-Single s = after_parse-Single (parse lookup_env s)

  parse_on-one :
      (n : ℕ) (s : Bytes)
      → length (split_pipe s) ≤ 1
      → parse_on lookup_env build (suc n) s ≡ parse_single lookup_env build s
  unfolding parse_on
  parse_on-one n s h = elim (Bool-cases (ltb 1 (length (split_pipe s)))) [
    | inl e ↦ absurd (omega (arith, h, ltb→lt 1 (length (split_pipe s)) e))
    | inr e ↦ rw (parse_on, e) refl
  ]

  parse_parts-one :
      (n : ℕ) (ss : List Bytes)
      → All (λ s. length (split_pipe s) ≤ 1) ss
      → map (parse_on lookup_env build (suc n)) ss ≡ map (parse_single lookup_env build) ss
  parse_parts-one n [] h = refl
  parse_parts-one n (s ∷ ss) h = rw (parse_on-one n s h.0, parse_parts-one n ss h.1) refl

  parts-Single : (ss : List Bytes) → All Single (map (parse_single lookup_env build) ss)
  parts-Single [] = tt
  parts-Single (s ∷ ss) = (parse_single-Single s, parts-Single ss)

  parts-Settled :
      (ss : List Bytes)
      → All (λ s. Settled (parse_single lookup_env build s)) ss
      → All Settled (map (parse_single lookup_env build) ss)
  parts-Settled [] h = tt
  parts-Settled (s ∷ ss) h = (h.0, parts-Settled ss h.1)

  parse_on-two :
      (n : ℕ) (s : Bytes)
      → parse_on lookup_env build (suc (suc n)) s ≡ (
          if ltb 1 (length (split_pipe s))
          then any_of (add_all (map (parse_single lookup_env build) (split_pipe s)))
          else parse_single lookup_env build s)
  unfolding parse_on
  parse_on-two n s = rw (parse_on, parse_parts-one n (split_pipe s) (split_pipe-split_pipe s)) refl

  -- `parseOn` returns after at most one call of itself for each alternative, which is then parsed alone,
  -- and does not panic, when `parse` panics on neither the line nor its alternatives: the checker of an
  -- alternative is always one that the type assertion accepts.
  pub parse_on-Settled :
      (n : ℕ) (s : Bytes)
      → Settled (parse_single lookup_env build s)
      → All (λ p. Settled (parse_single lookup_env build p)) (split_pipe s)
      → Settled (parse_on lookup_env build (suc (suc n)) s)
  parse_on-Settled n s h hs = elim (Bool-cases (ltb 1 (length (split_pipe s)))) [
    | inl e ↦
        rw (parse_on-two n s, e)
          (any_of-Settled (add_all (map (parse_single lookup_env build) (split_pipe s))) (
            add_all-Collected (map (parse_single lookup_env build) (split_pipe s))
              (parts-Single (split_pipe s)) (parts-Settled (split_pipe s) hs)))
    | inr e ↦ rw (parse_on-two n s, e) h
  ]
