-- ===== src/Rules/Engine/Order.antt =====
-- internal/route/rules/rules.go: what the order of the rules means.
use godoxy.Prelude.{
  ◌≡◌, inl, inr, refl, sym, ap, ◌∙◌, true, false, Option, none, some, List, [], ◌∷◌, ◌++◌,
  Bool-cases, All, append-nil,
}
use godoxy.Rules.Engine.{
  Rule, is_default_rule, is_response_rule, split_default, pre_rules, post_rules,
}
use godoxy.Rules.Engine.Serve.{flushed, serve_rules, serve_split, build_handler}

pub All-pre_rules :
    {W : Type 0} (P : Rule W → Type 0) (rs : List (Rule W)) → All P rs → All P (pre_rules rs)
unfolding pre_rules
All-pre_rules P [] h = tt
All-pre_rules P (r ∷ rs) h = elim (Bool-cases (is_response_rule r)) [
  | inl e ↦ rw (pre_rules, e) (All-pre_rules P rs h.1)
  | inr e ↦ rw (pre_rules, e) (h.0, All-pre_rules P rs h.1)
]

pub All-post_rules :
    {W : Type 0} (P : Rule W → Type 0) (rs : List (Rule W)) → All P rs → All P (post_rules rs)
unfolding post_rules
All-post_rules P [] h = tt
All-post_rules P (r ∷ rs) h = elim (Bool-cases (is_response_rule r)) [
  | inl e ↦ rw (post_rules, e) (h.0, All-post_rules P rs h.1)
  | inr e ↦ rw (post_rules, e) (All-post_rules P rs h.1)
]

module _ {W : Type 0} where
  -- No rule of the list is a default rule.
  abbrev pub NoDefault : List (Rule W) → Type 0
  NoDefault rs = All (λ r. is_default_rule r ≡ false) rs

  pub split_default-none :
      (d : Option (Rule W)) (rs : List (Rule W)) → NoDefault rs → split_default d rs ≡ (d, rs)
  unfolding split_default
  split_default-none d [] h = refl
  split_default-none d (r ∷ rs) h = rw (h.0, split_default-none d rs h.1) refl

  split_default-middle :
      (e : Option (Rule W)) (xs : List (Rule W)) (d : Rule W) (ys : List (Rule W))
      → NoDefault xs
      → is_default_rule d ≡ true
      → NoDefault ys
      → split_default e (xs ++ d ∷ ys) ≡ (some d, xs ++ ys)
  unfolding split_default
  split_default-middle e [] d ys hx hd hy = rw (hd, split_default-none (some d) ys hy) refl
  split_default-middle e (x ∷ xs) d ys hx hd hy =
      rw (hx.0, split_default-middle e xs d ys hx.1 hd hy) refl

  -- The rules for the request, then those for the response.
  abbrev pub in_phases : List (Rule W) → List (Rule W)
  in_phases rs = pre_rules rs ++ post_rules rs

  pre_rules-append : (rs qs : List (Rule W)) → pre_rules (rs ++ qs) ≡ pre_rules rs ++ pre_rules qs
  unfolding pre_rules
  pre_rules-append [] qs = refl
  pre_rules-append (r ∷ rs) qs = elim (Bool-cases (is_response_rule r)) [
    | inl e ↦ rw (e, pre_rules-append rs qs) refl
    | inr e ↦ rw (e, pre_rules-append rs qs) refl
  ]

  pre_rules-pre_rules : (rs : List (Rule W)) → pre_rules (pre_rules rs) ≡ pre_rules rs
  unfolding pre_rules
  pre_rules-pre_rules [] = refl
  pre_rules-pre_rules (r ∷ rs) = elim (Bool-cases (is_response_rule r)) [
    | inl e ↦ rw (e, pre_rules-pre_rules rs) refl
    | inr e ↦ rw (e, e, pre_rules-pre_rules rs) refl
  ]

  pre_rules-post_rules : (rs : List (Rule W)) → pre_rules (post_rules rs) ≡ []
  unfolding pre_rules post_rules
  pre_rules-post_rules [] = refl
  pre_rules-post_rules (r ∷ rs) = elim (Bool-cases (is_response_rule r)) [
    | inl e ↦ rw (e, e, pre_rules-post_rules rs) refl
    | inr e ↦ rw (e, pre_rules-post_rules rs) refl
  ]

  post_rules-append :
      (rs qs : List (Rule W)) → post_rules (rs ++ qs) ≡ post_rules rs ++ post_rules qs
  unfolding post_rules
  post_rules-append [] qs = refl
  post_rules-append (r ∷ rs) qs = elim (Bool-cases (is_response_rule r)) [
    | inl e ↦ rw (e, post_rules-append rs qs) refl
    | inr e ↦ rw (e, post_rules-append rs qs) refl
  ]

  post_rules-post_rules : (rs : List (Rule W)) → post_rules (post_rules rs) ≡ post_rules rs
  unfolding post_rules
  post_rules-post_rules [] = refl
  post_rules-post_rules (r ∷ rs) = elim (Bool-cases (is_response_rule r)) [
    | inl e ↦ rw (e, e, post_rules-post_rules rs) refl
    | inr e ↦ rw (e, post_rules-post_rules rs) refl
  ]

  post_rules-pre_rules : (rs : List (Rule W)) → post_rules (pre_rules rs) ≡ []
  unfolding pre_rules post_rules
  post_rules-pre_rules [] = refl
  post_rules-pre_rules (r ∷ rs) = elim (Bool-cases (is_response_rule r)) [
    | inl e ↦ rw (e, post_rules-pre_rules rs) refl
    | inr e ↦ rw (e, e, post_rules-pre_rules rs) refl
  ]

  serve_rules-in_phases :
      (d : Option (Rule W)) (rs : List (Rule W)) (up : W → W) (w : W)
      → serve_rules d (in_phases rs) up w ≡ serve_rules d rs up w
  unfolding serve_rules
  serve_rules-in_phases d rs up w =
      rw
        (
          pre_rules-append (pre_rules rs) (post_rules rs),
          pre_rules-pre_rules rs,
          pre_rules-post_rules rs,
          post_rules-append (pre_rules rs) (post_rules rs),
          post_rules-post_rules rs,
          post_rules-pre_rules rs,
          append-nil (pre_rules rs),
        )
        refl

  serve_split-cons :
      (begin flush up : W → W) (d : Option (Rule W)) (xs : List (Rule W)) (r : Rule W)
      (ys : List (Rule W)) (w : W)
      → serve_split begin flush up (d, xs ++ r ∷ ys) w
        ≡ flushed flush (serve_rules d (xs ++ r ∷ ys) up (begin w))
  unfolding serve_split
  serve_split-cons begin flush up d [] r ys w = refl
  serve_split-cons begin flush up d (x ∷ xs) r ys w = refl

  in_phases-cons :
      (begin flush up : W → W) (d : Option (Rule W)) (r : Rule W) (rs : List (Rule W)) (w : W)
      → serve_split begin flush up (d, in_phases (r ∷ rs)) w
        ≡ flushed flush (serve_rules d (in_phases (r ∷ rs)) up (begin w))
  unfolding pre_rules post_rules
  in_phases-cons begin flush up d r rs w = elim (Bool-cases (is_response_rule r)) [
    | inl e ↦ rw e (serve_split-cons begin flush up d (pre_rules rs) r (post_rules rs) w)
    | inr e ↦ rw e (serve_split-cons begin flush up d [] r (pre_rules rs ++ post_rules rs) w)
  ]

  serve_split-in_phases :
      (begin flush up : W → W) (d : Option (Rule W)) (rs : List (Rule W)) (w : W)
      → serve_split begin flush up (d, in_phases rs) w ≡ serve_split begin flush up (d, rs) w
  unfolding serve_split pre_rules post_rules
  serve_split-in_phases begin flush up d [] w = refl
  serve_split-in_phases begin flush up d (r ∷ rs) w =
      in_phases-cons begin flush up d r rs w
      ∙ ap (flushed flush) (serve_rules-in_phases d (r ∷ rs) up (begin w))

  NoDefault-append : (xs ys : List (Rule W)) → NoDefault xs → NoDefault ys → NoDefault (xs ++ ys)
  NoDefault-append [] ys hx hy = hy
  NoDefault-append (x ∷ xs) ys hx hy = (hx.0, NoDefault-append xs ys hx.1 hy)

  NoDefault-in_phases : (rs : List (Rule W)) → NoDefault rs → NoDefault (in_phases rs)
  NoDefault-in_phases rs h =
      NoDefault-append (pre_rules rs) (post_rules rs) (All-pre_rules _ rs h) (All-post_rules _ rs h)

  build_handler-middle :
      (begin flush up : W → W) (xs : List (Rule W)) (d : Rule W) (ys : List (Rule W)) (w : W)
      → NoDefault xs
      → is_default_rule d ≡ true
      → NoDefault ys
      → build_handler begin flush (xs ++ d ∷ ys) up w
        ≡ serve_split begin flush up (some d, xs ++ ys) w
  unfolding build_handler
  build_handler-middle begin flush up [] d ys w hx hd hy =
      ap (λ p. serve_split begin flush up p w) (split_default-middle none [] d ys hx hd hy)
  build_handler-middle begin flush up (x ∷ xs) d ys w hx hd hy =
      ap (λ p. serve_split begin flush up p w) (split_default-middle none (x ∷ xs) d ys hx hd hy)

  -- A request is served alike wherever the default rule stands among the rules, and when the rules for
  -- the request are put before those for the response with the order of each kind kept.
  pub build_handler-in_phases :
      (begin flush up : W → W) (xs : List (Rule W)) (d : Rule W) (ys : List (Rule W)) (w : W)
      → NoDefault xs
      → is_default_rule d ≡ true
      → NoDefault ys
      → build_handler begin flush (xs ++ d ∷ ys) up w
        ≡ build_handler begin flush (d ∷ in_phases (xs ++ ys)) up w
  build_handler-in_phases begin flush up xs d ys w hx hd hy =
      build_handler-middle begin flush up xs d ys w hx hd hy
      ∙ sym (serve_split-in_phases begin flush up (some d) (xs ++ ys) w)
      ∙ sym (
          build_handler-middle begin flush up [] d (in_phases (xs ++ ys)) w tt hd
            (NoDefault-in_phases (xs ++ ys) (NoDefault-append xs ys hx hy)))
