-- ===== src/Period/Window.antt =====
-- internal/metrics/period/entries.go: the ring holds the last samples that were added, oldest first.
use mathlib.Core.Path.{ap₂}
use godoxy.Prelude.{
  ℕ, zero, suc, ◌+◌, ◌-◌, ◌≤◌, ◌<◌, ◌≡◌, refl, sym, ap, ◌∙◌, List, [], ◌∷◌, ◌++◌, arith, ltb,
  length, set, take, drop, append_assoc, length-set, length-append, length-take, length-drop,
  length-replicate, append-nil, Bool-cases, inl, inr, ltb→lt,
}
use godoxy.Period.Entries.{Entries, max_entries, new_entries, add_with_time, get}

module _ {A : Type 0} where
  -- The last `n` elements.
  abbrev pub take_last : ℕ → List A → List A
  take_last n xs = drop (length xs - n) xs

  -- The ring is as long as it should be, and the index and the count agree.
  pub record IsValid (e : Entries A) : Type 0 where
    pub full_length : length e.entries ≡ max_entries
    pub index_bound : e.index < max_entries
    pub count_bound : e.count ≤ max_entries
    pub filling : e.count < max_entries → e.index ≡ e.count

  pub new_entries-IsValid : (z : A) (duration now : ℕ) → IsValid (new_entries z duration now)
  unfolding new_entries
  new_entries-IsValid z duration now = record {
    full_length = length-replicate max_entries z;
    index_bound = omega arith;
    count_bound = omega arith;
    filling = λ h. refl;
  }

  pub add_with_time-IsValid :
      (t : ℕ) (x : A) (e : Entries A) → IsValid e → IsValid (add_with_time t x e)
  unfolding add_with_time
  add_with_time-IsValid t x e v = record {
    full_length = length-set e.entries e.index x ∙ v.full_length;
    index_bound = omega arith;
    count_bound = ground arith;
    filling = ground arith;
  }

  take-set :
      (i : ℕ) (xs : List A) (x : A)
      → i < length xs
      → take (suc i) (set xs i x) ≡ take i xs ++ x ∷ []
  take-set i [] x h = absurd (omega arith)
  take-set zero (y ∷ xs) x h = refl
  take-set (suc i) (y ∷ xs) x h = ap (λ r. y ∷ r) (take-set i xs x (omega arith))

  drop-set : (i : ℕ) (xs : List A) (x : A) → drop (suc i) (set xs i x) ≡ drop (suc i) xs
  drop-set i [] x = refl
  drop-set zero (y ∷ xs) x = refl
  drop-set (suc i) (y ∷ xs) x = drop-set i xs x

  drop-drop_one :
      (i : ℕ) (xs ys : List A) → i < length xs → drop 1 (drop i xs ++ ys) ≡ drop (suc i) xs ++ ys
  drop-drop_one i [] ys h = absurd (omega arith)
  drop-drop_one zero (x ∷ xs) ys h = refl
  drop-drop_one (suc i) (x ∷ xs) ys h = drop-drop_one i xs ys (omega arith)

  drop-nil : (n : ℕ) (xs : List A) → length xs ≤ n → drop n xs ≡ []
  drop-nil zero [] h = refl
  drop-nil zero (x ∷ xs) h = absurd (omega arith)
  drop-nil (suc n) [] h = refl
  drop-nil (suc n) (x ∷ xs) h = drop-nil n xs (omega arith)

  take-all : (n : ℕ) (xs : List A) → length xs ≤ n → take n xs ≡ xs
  take-all zero [] h = refl
  take-all zero (x ∷ xs) h = absurd (omega arith)
  take-all (suc n) [] h = refl
  take-all (suc n) (x ∷ xs) h = ap (λ r. x ∷ r) (take-all n xs (omega arith))

  -- `Get` before and after the ring is full.
  get_filling : (e : Entries A) → e.count < max_entries → get e ≡ take e.count e.entries
  unfolding get
  get_filling e h = ground arith

  get_full :
      (e : Entries A)
      → e.count ≡ max_entries
      → e.index < max_entries
      → get e ≡ drop e.index e.entries ++ take e.index e.entries
  unfolding get
  get_full e h k = ground arith

  -- A ring whose write position has come back to the start is read from the start.
  get_wrapped : (e : Entries A) → e.count ≡ max_entries → e.index ≡ 0 → get e ≡ e.entries
  get_wrapped e h k = get_full e h (omega arith) ∙ rw (k, append-nil) refl

  pub take_last_all : (xs : List A) → length xs ≤ max_entries → take_last max_entries xs ≡ xs
  take_last_all xs h = ap (λ n. drop n xs) (zero_room (length xs) h)
    where
      zero_room : (n : ℕ) → n ≤ max_entries → n - max_entries ≡ 0
      zero_room n h = omega arith

  take_last_one : (xs : List A) → length xs ≡ 101 → take_last max_entries xs ≡ drop 1 xs
  take_last_one xs h = ap (λ n. drop n xs) (one_over (length xs) h)
    where
      one_over : (n : ℕ) → n ≡ 101 → n - max_entries ≡ 1
      one_over n h = omega arith

  length-snoc : (xs : List A) (x : A) → length (xs ++ x ∷ []) ≡ length xs + 1
  length-snoc xs x = length-append xs (x ∷ [])

  module _ (t : ℕ) (x : A) (e : Entries A) (v : IsValid e) where
    count_filling : e.count < max_entries → (add_with_time t x e).count ≡ suc e.count
    unfolding add_with_time
    count_filling h = ground arith

    count_full : e.count ≡ max_entries → (add_with_time t x e).count ≡ max_entries
    unfolding add_with_time
    count_full h = ground arith

    index_next : e.index + 1 < max_entries → (add_with_time t x e).index ≡ suc e.index
    unfolding add_with_time
    index_next h = omega arith

    index_wrap : e.index + 1 ≡ max_entries → (add_with_time t x e).index ≡ 0
    unfolding add_with_time
    index_wrap h = omega arith

    entries_set : (add_with_time t x e).entries ≡ set e.entries e.index x
    unfolding add_with_time
    entries_set = refl

    -- The whole ring after a write to its last place.
    write_end :
        e.index + 1 ≡ max_entries → set e.entries e.index x ≡ take e.index e.entries ++ x ∷ []
    write_end h =
        sym (
          take-all (suc e.index) (set e.entries e.index x)
            (omega (arith, length-set e.entries e.index x, v.full_length)))
        ∙ take-set e.index e.entries x (omega (arith, v.full_length))

    -- A write while the ring is filling, whether or not it becomes full.
    write_filling :
        e.count < max_entries → get (add_with_time t x e) ≡ take e.count e.entries ++ x ∷ []
    write_filling h = elim (Bool-cases (ltb (e.count + 1) max_entries)) [
      | inl lt ↦
          get_filling (add_with_time t x e) (omega (arith, count_filling h, ltb→lt _ _ lt))
          ∙ ap₂ take (count_filling h) entries_set
          ∙ ap (λ i. take (suc e.count) (set e.entries i x)) (v.filling h)
          ∙ take-set e.count e.entries x (omega (arith, v.full_length))
      | inr ge ↦
          get_wrapped (add_with_time t x e) (ground (arith, count_filling h))
            (index_wrap (ground (arith, v.filling)))
          ∙ entries_set
          ∙ write_end (ground (arith, v.filling))
          ∙ ap (λ i. take i e.entries ++ x ∷ []) (v.filling h)
    ]

    -- A write to a full ring, whether or not the write position comes back to the start.
    write_full :
        e.count ≡ max_entries
        → get (add_with_time t x e)
          ≡ drop (suc e.index) e.entries ++ (take e.index e.entries ++ x ∷ [])
    write_full h = elim (Bool-cases (ltb (e.index + 1) max_entries)) [
      | inl lt ↦
          get_full (add_with_time t x e) (count_full h)
            (omega (arith, index_next (ltb→lt _ _ lt), ltb→lt _ _ lt))
          ∙ ap₂ (λ i xs. drop i xs ++ take i xs) (index_next (ltb→lt _ _ lt)) entries_set
          ∙ ap₂ (λ xs ys. xs ++ ys) (drop-set e.index e.entries x)
              (take-set e.index e.entries x (omega (arith, v.full_length, v.index_bound)))
      | inr ge ↦
          get_wrapped (add_with_time t x e) (count_full h)
            (index_wrap (ground (arith, v.index_bound)))
          ∙ entries_set
          ∙ write_end (ground (arith, v.index_bound))
          ∙ ap (λ xs. xs ++ (take e.index e.entries ++ x ∷ []))
              (sym
                (drop-nil (suc e.index) e.entries (ground (arith, v.full_length, v.index_bound))))
    ]

  length-get_filling :
      (e : Entries A)
      → IsValid e
      → e.count < max_entries
      → length (take e.count e.entries) ≡ e.count
  length-get_filling e v h = omega (arith, length-take e.count e.entries, v.full_length)

  length-get_full :
      (e : Entries A)
      → IsValid e
      → length (drop e.index e.entries ++ take e.index e.entries) ≡ max_entries
  length-get_full e v = omega (
    arith,
    length-append (drop e.index e.entries) (take e.index e.entries),
    length-take e.index e.entries,
    length-drop e.index e.entries,
    v.full_length,
    v.index_bound,
  )

  -- The samples after one more, in any valid ring: the new one comes last, and of more than
  -- `max_entries` the oldest goes.
  pub get-add_with_time :
      (t : ℕ) (x : A) (e : Entries A)
      → IsValid e
      → get (add_with_time t x e) ≡ take_last max_entries (get e ++ x ∷ [])
  get-add_with_time t x e v = elim (Bool-cases (ltb e.count max_entries)) [
    | inl lt ↦
        write_filling t x e v (ltb→lt _ _ lt)
        ∙ sym (
            take_last_all (take e.count e.entries ++ x ∷ []) (
              omega (
                arith,
                length-snoc (take e.count e.entries) x,
                length-get_filling e v (ltb→lt _ _ lt),
                ltb→lt _ _ lt,
              )))
        ∙ ap (λ xs. take_last max_entries (xs ++ x ∷ [])) (sym (get_filling e (ltb→lt _ _ lt)))
    | inr ge ↦ full (ground (arith, v.count_bound))
  ]
    where
      full :
          e.count ≡ max_entries
          → get (add_with_time t x e) ≡ take_last max_entries (get e ++ x ∷ [])
      full h =
          write_full t x e v h
          ∙ sym (
              drop-drop_one e.index e.entries (take e.index e.entries ++ x ∷ [])
                (omega (arith, v.full_length, v.index_bound)))
          ∙ ap (drop 1)
              (sym (append_assoc (drop e.index e.entries) (take e.index e.entries) (x ∷ [])))
          ∙ sym (
              take_last_one ((drop e.index e.entries ++ take e.index e.entries) ++ x ∷ []) (
                omega (
                  arith,
                  length-snoc (drop e.index e.entries ++ take e.index e.entries) x,
                  length-get_full e v,
                )))
          ∙ ap (λ xs. take_last max_entries (xs ++ x ∷ [])) (sym (get_full e h v.index_bound))

  -- Never more than `max_entries` samples.
  pub length-get : (e : Entries A) → IsValid e → length (get e) ≤ max_entries
  length-get e v = elim (Bool-cases (ltb e.count max_entries)) [
    | inl lt ↦ omega (
      arith,
      ap length (get_filling e (ltb→lt _ _ lt)),
      length-get_filling e v (ltb→lt _ _ lt),
      ltb→lt _ _ lt,
    )
    | inr ge ↦ omega (
      arith,
      ap length (get_full e (ground (arith, v.count_bound)) v.index_bound),
      length-get_full e v,
    )
  ]
