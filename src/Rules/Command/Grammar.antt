-- ===== src/Rules/Command/Grammar.antt =====
-- internal/route/rules/do.go: which sequences of commands buildCmd accepts.
use godoxy.Prelude.{
  ℕ, suc, ◌≤◌, ◌≡◌, inl, inr, refl, sym, ap, ◌∙◌, Bool, true, false, ◌&&◌, ◌||◌, Option, none, some,
  arith, ◌==◌, if◌then◌else◌, Bool-cases, some-injective,
}
use godoxy.Rules.Command.{
  Command, commands, Commands, nil, cons, is_response_handler, scan, ends_request, in_order,
  build_cmd,
}

some-if :
    {b : Bool} {i last : ℕ} → (if b then some i else none) ≡ some last → (b ≡ true) × (i ≡ last)
some-if {b = true} e = (refl, some-injective e)
some-if {b = false} e = ground arith

module _ {W : Type 0} where
  abbrev pub all_response : Commands W → Bool
  all_response nil = true
  all_response (cons c cs) = is_response_handler c && all_response cs

  -- Commands that go on, then at most one that ends the request, then those for the response.
  abbrev pub well_ordered : Commands W → Bool
  well_ordered nil = true
  well_ordered (cons c cs) =
      if is_response_handler c || ends_request c then all_response cs else well_ordered cs

  scan_tail :
      (cs : Commands W) (i last : ℕ)
      → scan cs i last true ≡ (if all_response cs then some last else none)
  unfolding scan
  scan_tail nil i last = refl
  scan_tail (cons c cs) i last = elim (Bool-cases (is_response_handler c)) [
    | inl e ↦ rw e (scan_tail cs (suc i) last)
    | inr e ↦ rw e refl
  ]

  in_order_past : (cs : Commands W) (i last : ℕ) → last ≤ i → in_order cs i last ≡ true
  unfolding in_order
  in_order_past nil i last h = refl
  in_order_past (cons c cs) i last h = ground arith

  scan_resp :
      (c : Command W) (cs : Commands W) (i : ℕ)
      → is_response_handler c ≡ true
      → scan (cons c cs) i i false ≡ (if all_response cs then some i else none)
  unfolding scan
  scan_resp c cs i r = rw r (scan_tail cs (suc i) i)

  scan_req :
      (c : Command W) (cs : Commands W) (i : ℕ)
      → is_response_handler c ≡ false
      → scan (cons c cs) i i false ≡ scan cs (suc i) (suc i) false
  unfolding scan
  scan_req c cs i r = rw r refl

  scan_bound : (cs : Commands W) (i last : ℕ) → scan cs i i false ≡ some last → i ≤ last
  unfolding scan
  scan_bound nil i last e = omega (arith, some-injective e)
  scan_bound (cons c cs) i last e = elim (Bool-cases (is_response_handler c)) [
    | inl r ↦ omega (arith, (some-if (sym (scan_resp c cs i r) ∙ e)).1)
    | inr r ↦ omega (arith, scan_bound cs (suc i) last (sym (scan_req c cs i r) ∙ e))
  ]

  -- Nothing but commands for the response: the first loop finds no other.
  scan_none : (cs : Commands W) (i : ℕ) → all_response cs ≡ true → scan cs i i false ≡ some i
  unfolding scan
  scan_none nil i h = refl
  scan_none (cons c cs) i h = elim (Bool-cases (is_response_handler c)) [
    | inl r ↦ ground (arith, scan_resp c cs i r)
    | inr r ↦ ground arith
  ]

  scan_only : (cs : Commands W) (i : ℕ) → scan cs i i false ≡ some i → all_response cs ≡ true
  unfolding scan
  scan_only nil i e = refl
  scan_only (cons c cs) i e = elim (Bool-cases (is_response_handler c)) [
    | inl r ↦ rw r ((some-if (sym (scan_resp c cs i r) ∙ e)).0)
    | inr r ↦ absurd (omega (arith, scan_bound cs (suc i) i (sym (scan_req c cs i r) ∙ e)))
  ]

  -- The second loop on a sequence that goes on with a command for the request.
  in_order_ends :
      (c : Command W) (cs : Commands W) (i last : ℕ)
      → suc i ≤ last
      → ends_request c ≡ true
      → in_order (cons c cs) i last ≡ (suc i == last)
  unfolding in_order
  in_order_ends c cs i last h e = ground (arith, in_order_past cs (suc i) last)

  in_order_more :
      (c : Command W) (cs : Commands W) (i last : ℕ)
      → suc i ≤ last
      → ends_request c ≡ false
      → in_order (cons c cs) i last ≡ in_order cs (suc i) last
  unfolding in_order
  in_order_more c cs i last h e = ground arith

  only_tail :
      (cs : Commands W) (i last : ℕ) → scan cs i i false ≡ some last → (i == last) ≡ all_response cs
  only_tail cs i last e = elim (Bool-cases (all_response cs)) [
    | inl a ↦ ground (arith, scan_none cs i a)
    | inr a ↦ ground (arith, scan_only cs i)
  ]

  -- What the two loops say together.
  accepted : Commands W → ℕ → Option ℕ → Bool
  accepted cs i none = false
  accepted cs i (some last) = in_order cs i last

  accepted_req :
      (c : Command W) (cs : Commands W) (i : ℕ) (o : Option ℕ)
      → scan cs (suc i) (suc i) false ≡ o
      → accepted cs (suc i) o ≡ well_ordered cs
      → accepted (cons c cs) i o ≡ (if ends_request c then all_response cs else well_ordered cs)
  unfolding accepted
  accepted_req c cs i none e ih = ground (arith, scan_none cs (suc i))
  accepted_req c cs i (some last) e ih = elim (Bool-cases (ends_request c)) [
    | inl d ↦
        rw d
          (in_order_ends c cs i last (scan_bound cs (suc i) last e) d ∙ only_tail cs (suc i) last e)
    | inr d ↦ rw d (in_order_more c cs i last (scan_bound cs (suc i) last e) d ∙ ih)
  ]

  accepted_tail :
      (c : Command W) (cs : Commands W) (i : ℕ) (b : Bool)
      → accepted (cons c cs) i (if b then some i else none) ≡ b
  unfolding accepted
  accepted_tail c cs i true = in_order_past (cons c cs) i i (omega arith)
  accepted_tail c cs i false = refl

  accepted-well_ordered :
      (cs : Commands W) (i : ℕ) → accepted cs i (scan cs i i false) ≡ well_ordered cs
  unfolding accepted scan in_order
  accepted-well_ordered nil i = refl
  accepted-well_ordered (cons c cs) i = elim (Bool-cases (is_response_handler c)) [
    | inl r ↦ rw r (
        ap (accepted (cons c cs) i) (sym (rw r refl) ∙ scan_resp c cs i r)
        ∙ accepted_tail c cs i (all_response cs))
    | inr r ↦
        ap (accepted (cons c cs) i) (scan_req c cs i r)
        ∙ accepted_req c cs i (scan cs (suc i) (suc i) false) refl
            (accepted-well_ordered cs (suc i))
        ∙ rw r refl
  ]

  -- A rule's commands are accepted exactly when some that go on are followed by at most one that ends
  -- the request (a terminating command or a bypass) and then by commands for the response only.
  pub build_cmd-well_ordered :
      (cs : Commands W) → build_cmd cs ≡ (if well_ordered cs then some (commands cs) else none)
  unfolding build_cmd accepted
  build_cmd-well_ordered cs = built (scan cs 0 0 false) (accepted-well_ordered cs 0)
    where
      built :
          (o : Option ℕ)
          → accepted cs 0 o ≡ well_ordered cs
          → (elim o [
            | none ↦ none
            | some last ↦ if in_order cs 0 last then some (commands cs) else none
          ])
            ≡ (if well_ordered cs then some (commands cs) else none)
      built none e = rw (← e) refl
      built (some last) e = rw (← e) refl
