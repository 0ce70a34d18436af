-- ===== src/AccessLog/Rotate/Recent.antt =====
-- internal/logging/accesslog/rotate.go: which lines a rotation keeps.
use mathlib.Core.List.{reverse-append, reverse-reverse}
use godoxy.Prelude.{
  ℕ, ◌+◌, ◌≤◌, ◌<◌, ◌≡◌, refl, sym, ap, ◌∙◌, ◌⊎◌, arith, some, List, [], ◌∷◌, ◌++◌, inl, inr,
  reverse, append_assoc, length, length-append, All, ◌==◌, if◌then◌else◌,
}
use godoxy.Prelude.Bytes.{Bytes}
use godoxy.AccessLog.Retention.{Retention}
use godoxy.AccessLog.FileIo.{FileIo, Obeys}
use godoxy.AccessLog.Visit.{Limit, last_lines, since, stops, limit_of}
use godoxy.AccessLog.Rotate.{rotate_log_file}
use godoxy.AccessLog.Rotate.Visits.{keeps}
use godoxy.AccessLog.Rotate.Log.{IsLine, log_text, All-reverse}
use godoxy.AccessLog.Rotate.Kept.{kept_lines, no_result, Leaves, rotate_log_file-kept_lines}

length-reverse : (xs : List Bytes) → length (reverse xs) ≡ length xs
length-reverse [] = refl
length-reverse (x ∷ xs) =
    ap length (reverse-append (x ∷ []) xs)
    ∙ omega (arith, length-reverse xs, length-append (reverse xs) (x ∷ []))

module _ (time_of : Bytes → ℕ) where
  -- The lines that have a time, in their order.
  unfoldable pub with_time : List Bytes → List Bytes
  with_time [] = []
  with_time (l ∷ ls) = if time_of l == 0 then with_time ls else l ∷ with_time ls

  with_time-append : (xs ys : List Bytes) → with_time (xs ++ ys) ≡ with_time xs ++ with_time ys
  unfolding with_time
  with_time-append [] ys = refl
  with_time-append (x ∷ xs) ys = ground (arith, with_time-append xs ys)

  with_time-reverse : (xs : List Bytes) → with_time (reverse xs) ≡ reverse (with_time xs)
  unfolding with_time
  with_time-reverse [] = refl
  with_time-reverse (x ∷ xs) =
      ap with_time (reverse-append (x ∷ []) xs)
      ∙ with_time-append (reverse xs) (x ∷ [])
      ∙ ap (λ (ys : List Bytes). ys ++ with_time (x ∷ [])) (with_time-reverse xs)
      ∙ ap (◌++◌ (reverse (with_time xs))) (one x)
      ∙ sym (reverse-append (with_time (x ∷ [])) (with_time xs))
      ∙ ap reverse (sym (with_time-append (x ∷ []) xs))
    where
      one : (x : Bytes) → with_time (x ∷ []) ≡ reverse (with_time (x ∷ []))
      one x = ground arith

  -- A line that a rotation by days passes: it has no time, or one that is not before the cutoff.
  abbrev pub IsRecent : ℕ → Bytes → Type 0
  IsRecent cutoff l = (time_of l ≡ 0) ⊎ (cutoff ≤ time_of l)

  -- What stands before the recent lines: nothing, or lines whose last one is too old.
  abbrev pub EndsOld : ℕ → List Bytes → Type 0
  EndsOld cutoff [] = Unit {0}
  EndsOld cutoff (l ∷ ls) = (0 < time_of l) × (time_of l < cutoff)

  keeps-since :
      (cutoff keep invalid : ℕ) (xs ys : List Bytes)
      → All (IsRecent cutoff) xs
      → EndsOld cutoff ys
      → keeps time_of (since cutoff) keep invalid (xs ++ ys) ≡ with_time xs
  unfolding keeps stops with_time
  keeps-since cutoff keep invalid [] [] h o = refl
  keeps-since cutoff keep invalid [] (y ∷ ys) h o = ground arith
  keeps-since cutoff keep invalid (x ∷ xs) ys h o = ground (
    arith,
    h.0,
    keeps-since cutoff keep (invalid + 1) xs ys h.1 o,
    keeps-since cutoff (keep + 1) invalid xs ys h.1 o,
  )

  keeps-last :
      (n keep invalid : ℕ) (xs ys : List Bytes)
      → All (λ l. 0 < time_of l) xs
      → keep + length xs ≤ n + invalid
      → ((ys ≡ []) ⊎ (keep + length xs ≡ n + invalid))
      → All (λ l. 0 < time_of l) ys
      → keeps time_of (last_lines n) keep invalid (xs ++ ys) ≡ xs
  unfolding keeps stops
  keeps-last n keep invalid [] [] h le end o = refl
  keeps-last n keep invalid [] (y ∷ ys) h le (inl e) o = absurd (cc)
  keeps-last n keep invalid [] (y ∷ ys) h le (inr e) o = ground (arith, o.0)
  keeps-last n keep invalid (x ∷ xs) ys h le end o =
      ground (arith, h.0, keeps-last n (keep + 1) invalid xs ys h.1 (omega arith) next o)
    where
      next : (ys ≡ []) ⊎ (keep + 1 + length xs ≡ n + invalid)
      next = elim end [ inl e ↦ inl e | inr e ↦ inr (omega arith) ]

  keeps-invalid :
      (limit : Limit) (keep invalid : ℕ) (xs ys : List Bytes)
      → All (λ l. time_of l ≡ 0) xs
      → keeps time_of limit keep invalid (xs ++ ys)
        ≡ keeps time_of limit keep (invalid + length xs) ys
  unfolding keeps
  keeps-invalid limit keep invalid [] ys h =
      ap (λ (n : ℕ). keeps time_of limit keep n ys) (omega arith)
  keeps-invalid limit keep invalid (x ∷ xs) ys h =
      skip
      ∙ keeps-invalid limit keep (invalid + 1) xs ys h.1
      ∙ ap (λ (n : ℕ). keeps time_of limit keep n ys) (omega arith)
    where
      skip :
          keeps time_of limit keep invalid (x ∷ (xs ++ ys))
          ≡ keeps time_of limit keep (invalid + 1) (xs ++ ys)
      skip = ground (arith, h.0)

last_limit :
    (config : Retention) (cutoff : ℕ)
    → 0 < config.last
    → limit_of config cutoff ≡ some (last_lines config.last)
unfolding limit_of
last_limit config cutoff h = ground arith

days_limit :
    (config : Retention) (cutoff : ℕ)
    → config.last ≡ 0
    → 0 < config.days
    → limit_of config cutoff ≡ some (since cutoff)
unfolding limit_of
days_limit config cutoff z h = ground arith

module _ {F : Type 0} (io : FileIo F) (content : F → Bytes) (obeys : Obeys io content) (f : F)
    (time_of : Bytes → ℕ) (cutoff size : ℕ) (config : Retention) (buf : 0 < size)
    (no_size : config.keep_size ≡ 0) where
  -- On a log whose lines are not empty and each end with a newline, a rotation by days, with no limit
  -- on the size, a buffer that is not empty and a file whose calls do what package os promises, ends
  -- without an error and leaves the lines with a time after the last line that is older than the cutoff (or all of them, if none
  -- is), in their order.
  pub rotate_log_file-since :
      (old recent : List Bytes)
      → content f ≡ log_text (old ++ recent)
      → All IsLine (old ++ recent)
      → config.last ≡ 0
      → 0 < config.days
      → All (IsRecent time_of cutoff) recent
      → EndsOld time_of cutoff (reverse old)
      → Leaves io content obeys f time_of
          (log_text (with_time time_of recent))
          (rotate_log_file io time_of cutoff size f config no_result)
  rotate_log_file-since old recent log all z h new ends = rw (← kept) (
      rotate_log_file-kept_lines io content obeys f time_of cutoff size config (since cutoff)
        (old ++ recent) log all buf no_size (days_limit config cutoff z h))
    where
      kept : kept_lines time_of (since cutoff) (old ++ recent) ≡ with_time time_of recent
      kept =
          ap (λ (ls : List Bytes). reverse (keeps time_of (since cutoff) 0 0 ls))
            (reverse-append old recent)
          ∙ ap reverse (
              keeps-since time_of cutoff 0 0 (reverse recent) (reverse old)
                (All-reverse (IsRecent time_of cutoff) recent new) ends)
          ∙ ap reverse (with_time-reverse time_of recent)
          ∙ reverse-reverse (with_time time_of recent)

  -- On a log whose lines are not empty and each end with a newline, and of which all have a time but
  -- some at the end, a rotation that keeps the last n lines, with no limit on the size, a buffer that
  -- is not empty and a file whose calls do what package os promises, ends without an error. It leaves the last n of the lines that
  -- have a time and one more for each that has none, or all that have one if there are fewer. Where
  -- every line has a time it leaves the last n lines.
  pub rotate_log_file-last :
      (old recent bad : List Bytes)
      → content f ≡ log_text (old ++ (recent ++ bad))
      → All IsLine (old ++ (recent ++ bad))
      → 0 < config.last
      → All (λ l. 0 < time_of l) old
      → All (λ l. 0 < time_of l) recent
      → All (λ l. time_of l ≡ 0) bad
      → length recent ≤ config.last + length bad
      → ((old ≡ []) ⊎ (length recent ≡ config.last + length bad))
      → Leaves io content obeys f time_of
          (log_text recent)
          (rotate_log_file io time_of cutoff size f config no_result)
  rotate_log_file-last old recent bad log all h valid_old valid_recent no_time few enough =
      rw (← kept) (
        rotate_log_file-kept_lines io content obeys f time_of cutoff size config
          (last_lines config.last) (old ++ (recent ++ bad)) log all buf no_size
          (last_limit config cutoff h))
    where
      back : reverse (old ++ (recent ++ bad)) ≡ reverse bad ++ (reverse recent ++ reverse old)
      back =
          reverse-append old (recent ++ bad)
          ∙ ap (λ (x : List Bytes). x ++ reverse old) (reverse-append recent bad)
          ∙ append_assoc (reverse bad) (reverse recent) (reverse old)

      lengths : (length (reverse recent) ≡ length recent) × (length (reverse bad) ≡ length bad)
      lengths = (length-reverse recent, length-reverse bad)

      stop :
          (reverse old ≡ [])
          ⊎ (0 + length (reverse recent) ≡ config.last + (0 + length (reverse bad)))
      stop = elim enough [ inl e ↦ inl (ap reverse e) | inr e ↦ inr (omega (arith, lengths)) ]

      kept : kept_lines time_of (last_lines config.last) (old ++ (recent ++ bad)) ≡ recent
      kept =
          ap (λ (ls : List Bytes). reverse (keeps time_of (last_lines config.last) 0 0 ls)) back
          ∙ ap reverse (
              keeps-invalid time_of (last_lines config.last) 0 0 (reverse bad) _
                (All-reverse (λ l. time_of l ≡ 0) bad no_time)
              ∙ keeps-last time_of config.last 0 (0 + length (reverse bad)) (reverse recent)
                  (reverse old) (All-reverse (λ l. 0 < time_of l) recent valid_recent)
                  (omega (arith, lengths)) stop (All-reverse (λ l. 0 < time_of l) old valid_old))
          ∙ reverse-reverse recent
