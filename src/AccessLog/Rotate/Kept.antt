-- ===== src/AccessLog/Rotate/Kept.antt =====
-- internal/logging/accesslog/rotate.go: what a rotation by lines or by days leaves of a log.
use mathlib.Core.Path.{subst}
use mathlib.Core.Option
use godoxy.Prelude.{
  ℕ, ◌+◌, ◌<◌, ◌≡◌, refl, sym, ap, ◌∙◌, ◌⊎◌, arith, true, false, Option, none, some, List, [], ◌∷◌,
  inl, inr, reverse, append-nil, length, All, ltb, ◌==◌, if◌then◌else◌, Bool-cases,
}
use godoxy.Prelude.Bytes.{Bytes}
use godoxy.AccessLog.Retention.{Retention}
use godoxy.AccessLog.FileIo.{FileIo, Obeys}
use godoxy.AccessLog.Visit.{RotateResult, Walk, Limit, limit_of}
use godoxy.AccessLog.BackScanner.{BackScanner, new_back_scanner}
use godoxy.AccessLog.BackScanner.Lines.{lines_back}
use godoxy.AccessLog.BackScanner.Scanned.{new_back_scanner-At}
use godoxy.AccessLog.Rotate.{
  Rotated, by_limit, after_walk, rotate_sized, walk, rotate_log_file_by_policy, rotate_log_file,
  seek_to_end,
}
use godoxy.AccessLog.Rotate.Parts.{Parts}
use godoxy.AccessLog.Rotate.Visits.{text_back, keeps, Walking}
use godoxy.AccessLog.Rotate.Walks.{Ending, Walked, walk-Ending}
use godoxy.AccessLog.Rotate.Moves.{Left, rewrite-Left}
use godoxy.AccessLog.Rotate.Log.{
  IsLine, log_text, lines_back-text_back, length-text_back, text_back-reverse, log_text-reverse,
  All-reverse,
}

-- The result as the caller makes it.
abbrev pub no_result : RotateResult
no_result = record {
  original_size = 0;
  num_bytes_read = 0;
  num_bytes_keep = 0;
  num_lines_read = 0;
  num_lines_keep = 0;
  num_lines_invalid = 0;
}

-- The lines that the limit leaves of a log, in their order.
abbrev pub kept_lines : (Bytes → ℕ) → Limit → List Bytes → List Bytes
kept_lines time_of limit ls = reverse (keeps time_of limit 0 0 (reverse ls))

module _ {F : Type 0} (io : FileIo F) (content : F → Bytes) (obeys : Obeys io content) (f : F)
    (time_of : Bytes → ℕ) where
  -- A rotation that has ended without an error, and what it left.
  abbrev pub Leaves : Bytes → Option (Rotated F) → Type 0
  Leaves out o = (r : Rotated F) × (o ≡ some r) × Left io content obeys (content f) out r

  module _ (limit : Limit) (ls : List Bytes) (log : content f ≡ text_back ls)
      (lines : All IsLine ls) where
    after_walk-Leaves :
        (r : RotateResult) (out : Bytes) (o : Option (BackScanner × Walk))
        → 0 < length (content f)
        → Ending (content f) out o
        → Leaves out (after_walk io f o)
    unfolding after_walk
    after_walk-Leaves r out none h e = elim e [ ]
    after_walk-Leaves r out (some (s, w)) h (ok, g) = (
      _,
      rw ok refl,
      rewrite-Left io content obeys f w.result w.lines_to_keep g.front g.tail out g.whole h
          g.original g.bytes g.parts,
    )

    started : Walk
    started = record {
      result = record no_result { original_size = length (content f) };
      lines_to_keep = [];
      last_line_valid = false;
    }

    start-Walking : Walking (content f) (text_back ls) started []
    unfolding Parts started
    start-Walking = record {
      tail = [];
      whole = log ∙ sym (append-nil _);
      original = refl;
      bytes = refl;
      done = refl;
      parts = refl;
      next = λ h. absurd (cc);
    }

    module _ (size : ℕ) (buf : 0 < size) where
      walk_started : Option (BackScanner × Walk)
      walk_started =
          walk io (length (content f) + 1) time_of limit f
            (new_back_scanner (length (content f)) size) started

      walk_started-Ending : Ending (content f) (text_back (keeps time_of limit 0 0 ls)) walk_started
      unfolding walk_started Walked started
      walk_started-Ending =
          subst (λ x. Ending (content f) x walk_started) (append-nil _)
            (walk-Ending io content obeys f time_of limit (length (content f) + 1) ls
              (omega (arith, length-text_back ls, ap length log)) _ (content f) started [] 0 0
              (new_back_scanner-At io content obeys f size buf)
              (ap lines_back log ∙ lines_back-text_back ls lines) start-Walking refl refl)

      empty_text :
          (rs : List Bytes)
          → content f ≡ text_back rs
          → length (content f) ≡ 0
          → content f ≡ text_back (keeps time_of limit 0 0 rs)
      unfolding keeps
      empty_text [] e z = e
      empty_text (l ∷ rs) e z = absurd (omega (arith, length-text_back (l ∷ rs), ap length e))

      empty-Left :
          (r : Rotated F)
          → length (content f) ≡ 0
          → r.file ≡ f
          → r.err ≡ false
          → r.rotated ≡ false
          → Left io content obeys (content f) (text_back (keeps time_of limit 0 0 ls)) r
      empty-Left r z e1 e2 e3 = record {
        text = ap content e1 ∙ empty_text ls log z;
        no_error = e2;
        is_rotated = ground (arith, e3, ap length (empty_text ls log z));
      }

      rotate_sized-Leaves :
          Leaves
            (text_back (keeps time_of limit 0 0 ls))
            (rotate_sized io time_of limit size f no_result (io.stat f))
      unfolding rotate_sized walk_started started
      rotate_sized-Leaves = rw (obeys.stat_size f) (either (Bool-cases (length (content f) == 0)))
        where
          either :
              ((length (content f) == 0) ≡ true) ⊎ ((length (content f) == 0) ≡ false)
              → Leaves
                  (text_back (keeps time_of limit 0 0 ls))
                  (rotate_sized io time_of limit size f no_result (some (length (content f))))
          either (inl z) = rw z (_, refl, empty-Left _ (ground (arith, z)) refl refl refl)
          either (inr n) =
              rw n
                (after_walk-Leaves no_result _ walk_started (ground (arith, n)) walk_started-Ending)

  seek_to_end-Left :
      (before out : Bytes) (r : Rotated F)
      → Left io content obeys before out r
      → Left io content obeys before out (seek_to_end io r)
  unfolding seek_to_end
  seek_to_end-Left before out r at = record {
    text = (obeys.seek_part r.file).1 ∙ at.text;
    no_error = rw (at.no_error, (obeys.seek_part r.file).0) refl;
    is_rotated = at.is_rotated;
  }

  module _ (cutoff size : ℕ) (config : Retention) (limit : Limit) (lines : List Bytes) where
    -- On a log of complete lines, a rotation by lines or by days ends without an error. The file is
    -- then the text of the kept lines, in their order, and the rotation says whether its length
    -- changed.
    pub rotate_log_file-kept_lines :
        content f ≡ log_text lines
        → All IsLine lines
        → 0 < size
        → config.keep_size ≡ 0
        → limit_of config cutoff ≡ some limit
        → Leaves
            (log_text (kept_lines time_of limit lines))
            (rotate_log_file io time_of cutoff size f config no_result)
    unfolding rotate_log_file rotate_log_file_by_policy by_limit
    rotate_log_file-kept_lines log all buf no_size is_limit =
        let (r, e, at) =
          rotate_sized-Leaves limit (reverse lines) (log ∙ sym (text_back-reverse lines))
            (All-reverse IsLine lines all) size buf in
        (
          _,
          if_zero config.keep_size _ _ no_size
              ∙ ap (Option.map (seek_to_end io)) (on_limit (limit_of config cutoff) is_limit ∙ e),
          rw (log_text-reverse (keeps time_of limit 0 0 (reverse lines)))
              (seek_to_end-Left (content f) _ r at),
        )
      where
        if_zero : {A : Type 0} (n : ℕ) (a b : A) → n ≡ 0 → (if ltb 0 n then a else b) ≡ b
        if_zero n a b z = rw z refl

        on_limit :
            (o : Option Limit)
            → o ≡ some limit
            → by_limit io time_of size f no_result o
              ≡ rotate_sized io time_of limit size f no_result (io.stat f)
        on_limit o e = rw e refl
