-- ===== src/Period/History.antt =====
-- internal/metrics/period/entries.go: runs of samples through a ring, and saving and loading it.
use mathlib.Core.Path.{ap₂}
use godoxy.Prelude.{
  ℕ, zero, suc, ◌+◌, ◌-◌, ◌*◌, ◌≤◌, ◌≡◌, refl, sym, ap, ◌∙◌, true, false, List, [], ◌∷◌, ◌++◌,
  arith, ltb, if◌then◌else◌, length, drop, append_assoc, append-nil, length-append, length-drop,
  Bool-cases, inl, inr,
}
use godoxy.Period.Entries.{
  Entries, max_entries, interval_of, new_entries, add_with_time, add, get, restore_from,
  restore_some, restore,
}
use godoxy.Period.Window.{
  take_last, IsValid, new_entries-IsValid, add_with_time-IsValid, get-add_with_time, length-get,
  take_last_all,
}

not_over : (n : ℕ) → n ≤ max_entries → ltb max_entries n ≡ false
not_over n h = ground arith

module _ {A : Type 0} where
  drop-append : (k : ℕ) (xs ys : List A) → k ≤ length xs → drop k (xs ++ ys) ≡ drop k xs ++ ys
  drop-append zero xs ys h = refl
  drop-append (suc k) [] ys h = absurd (omega arith)
  drop-append (suc k) (x ∷ xs) ys h = drop-append k xs ys (omega arith)

  drop-empty : (n : ℕ) → drop {A = A} n [] ≡ []
  drop-empty zero = refl
  drop-empty (suc n) = refl

  drop-drop : (j k m : ℕ) (xs : List A) → m ≡ k + j → drop j (drop k xs) ≡ drop m xs
  drop-drop j zero m xs h = ap (λ n. drop n xs) (omega arith)
  drop-drop j (suc k) m [] h = drop-empty j ∙ sym (drop-empty m)
  drop-drop j (suc k) zero (x ∷ xs) h = absurd (omega arith)
  drop-drop j (suc k) (suc m) (x ∷ xs) h = drop-drop j k m xs (omega arith)

  -- Cutting down to the last `n` in between changes nothing.
  take_last-append :
      (n : ℕ) (xs ys : List A) → take_last n (take_last n xs ++ ys) ≡ take_last n (xs ++ ys)
  take_last-append n xs ys =
      ap (λ zs. drop (length (take_last n xs ++ ys) - n) zs)
        (sym (drop-append (length xs - n) xs ys (omega arith)))
      ∙ drop-drop (length (take_last n xs ++ ys) - n) (length xs - n) (length (xs ++ ys) - n)
          (xs ++ ys)
          (omega (
            arith,
            length-append (take_last n xs) ys,
            length-append xs ys,
            length-drop (length xs - n) xs,
          ))

  -- The samples with their times, oldest first, that `Add` takes: those that come at least an
  -- interval after the last one taken.
  abbrev pub accepted : ℕ → ℕ → List (ℕ × A) → List A
  accepted interval last [] = []
  accepted interval last ((now, x) ∷ samples) =
      if ltb now (last + interval)
      then accepted interval last samples
      else x ∷ accepted interval now samples

  unfoldable pub add_all : List (ℕ × A) → Entries A → Entries A
  add_all [] e = e
  add_all ((now, x) ∷ samples) e = add_all samples (add now x e)

  -- One sample, taken or not.
  add_refused :
      (now : ℕ) (x : A) (e : Entries A) → ltb now (e.last_add + e.interval) ≡ true → add now x e ≡ e
  unfolding add
  add_refused now x e h = rw h refl

  add_taken :
      (now : ℕ) (x : A) (e : Entries A)
      → ltb now (e.last_add + e.interval) ≡ false
      → add now x e ≡ add_with_time now x e
  unfolding add
  add_taken now x e h = rw h refl

  add_with_time-kept :
      (now : ℕ) (x : A) (e : Entries A)
      → ((add_with_time now x e).interval ≡ e.interval) × ((add_with_time now x e).last_add ≡ now)
  unfolding add_with_time
  add_with_time-kept now x e = (refl, refl)

  get-short : (e : Entries A) → IsValid e → take_last max_entries (get e) ≡ get e
  get-short e v = take_last_all (get e) (length-get e v)

  get-add_all :
      (samples : List (ℕ × A)) (e : Entries A)
      → IsValid e
      → get (add_all samples e)
        ≡ take_last max_entries (get e ++ accepted e.interval e.last_add samples)
  unfolding add_all
  get-add_all [] e v = sym (ap (take_last max_entries) (append-nil (get e)) ∙ get-short e v)
  get-add_all ((now, x) ∷ samples) e v = elim (Bool-cases (ltb now (e.last_add + e.interval))) [
    | inl h ↦ rw (add_refused now x e h) (rw h (get-add_all samples e v))
    | inr h ↦ rw (add_taken now x e h) (
        rw h
          (taken (get-add_all samples (add_with_time now x e) (add_with_time-IsValid now x e v))))
  ]
    where
      taken :
          get (add_all samples (add_with_time now x e))
            ≡ take_last max_entries (
                get (add_with_time now x e)
                ++ accepted
                    (add_with_time now x e).interval
                    (add_with_time now x e).last_add
                    samples)
          → get (add_all samples (add_with_time now x e))
            ≡ take_last max_entries (get e ++ x ∷ accepted e.interval now samples)
      taken ih =
          ih
          ∙ ap₂ (λ i l. take_last max_entries (get (add_with_time now x e) ++ accepted i l samples))
              (add_with_time-kept now x e).0 (add_with_time-kept now x e).1
          ∙ ap (λ xs. take_last max_entries (xs ++ accepted e.interval now samples))
              (get-add_with_time now x e v)
          ∙ take_last-append max_entries (get e ++ x ∷ []) (accepted e.interval now samples)
          ∙ ap (take_last max_entries)
              (append_assoc (get e) (x ∷ []) (accepted e.interval now samples))

  get-new_entries : (z : A) (duration now : ℕ) → get (new_entries z duration now) ≡ []
  unfolding get new_entries
  get-new_entries z duration now = refl

  new_entries-kept :
      (z : A) (duration now : ℕ)
      → ((new_entries z duration now).interval ≡ interval_of duration)
        × ((new_entries z duration now).last_add ≡ now)
  unfolding new_entries
  new_entries-kept z duration now = (refl, refl)

  -- After any run of calls of `Add` on a new ring, `Get` returns the last `max_entries` of the samples
  -- that came at least an interval after the one taken before them, oldest first.
  pub get-add_run :
      (z : A) (duration start : ℕ) (samples : List (ℕ × A))
      → get (add_all samples (new_entries z duration start))
        ≡ take_last max_entries (accepted (interval_of duration) start samples)
  get-add_run z duration start samples =
      get-add_all samples (new_entries z duration start) (new_entries-IsValid z duration start)
      ∙ ap
          (λ xs. take_last max_entries (
            xs
            ++ accepted (new_entries z duration start).interval
                (new_entries z duration start).last_add samples))
          (get-new_entries z duration start)
      ∙ ap₂ (λ i l. take_last max_entries (accepted i l samples))
          (new_entries-kept z duration start).0 (new_entries-kept z duration start).1

  get-restore_from :
      (now n i : ℕ) (infos : List A) (e : Entries A)
      → IsValid e
      → get (restore_from now n i infos e) ≡ take_last max_entries (get e ++ infos)
  unfolding restore_from
  get-restore_from now n i [] e v =
      sym (ap (take_last max_entries) (append-nil (get e)) ∙ get-short e v)
  get-restore_from now n i (x ∷ infos) e v =
      let t : ℕ = now - (n - 1 - i) * e.interval in
      get-restore_from now n (i + 1) infos (add_with_time t x e) (add_with_time-IsValid t x e v)
      ∙ ap (λ xs. take_last max_entries (xs ++ infos)) (get-add_with_time t x e v)
      ∙ take_last-append max_entries (get e ++ x ∷ []) infos
      ∙ ap (take_last max_entries) (append_assoc (get e) (x ∷ []) infos)

  with_interval-IsValid :
      (interval : ℕ) (e : Entries A) → IsValid e → IsValid (record e { interval = interval })
  with_interval-IsValid interval e v = record {
    full_length = v.full_length;
    index_bound = v.index_bound;
    count_bound = v.count_bound;
    filling = v.filling;
  }

  get-with_interval :
      (interval : ℕ) (e : Entries A) → get (record e { interval = interval }) ≡ get e
  unfolding get
  get-with_interval interval e = refl

  restore_some_lem :
      (now interval : ℕ) (infos : List A) (e : Entries A)
      → length infos ≤ max_entries
      → restore_some now interval infos e
        ≡ restore_from now (length infos) 0 infos (record e { interval = interval })
  unfolding restore_some
  restore_some_lem now interval infos e h = rw (not_over (length infos) h) refl

  -- Loading at most `max_entries` samples into a new ring gives back those samples.
  get-restore :
      (z : A) (duration start now interval : ℕ) (infos : List A)
      → length infos ≤ max_entries
      → get (restore now interval infos (new_entries z duration start)) ≡ infos
  unfolding restore
  get-restore z duration start now interval [] h = get-new_entries z duration start
  get-restore z duration start now interval (x ∷ infos) h =
      ap get (restore_some_lem now interval (x ∷ infos) (new_entries z duration start) h)
      ∙ get-restore_from now (length (x ∷ infos)) 0 (x ∷ infos)
          (record (new_entries z duration start) { interval = interval })
          (with_interval-IsValid interval (new_entries z duration start)
            (new_entries-IsValid z duration start))
      ∙ ap (λ xs. take_last max_entries (xs ++ x ∷ infos))
          (get-with_interval interval (new_entries z duration start)
            ∙ get-new_entries z duration start)
      ∙ take_last_all (x ∷ infos) h

  -- What one ring holds can be saved and loaded into a new one, whatever the times and the periods of
  -- the two.
  pub get-restore-get :
      (e : Entries A) (z : A) (duration start now interval : ℕ)
      → IsValid e
      → get (restore now interval (get e) (new_entries z duration start)) ≡ get e
  get-restore-get e z duration start now interval v =
      get-restore z duration start now interval (get e) (length-get e v)
