-- ===== src/AccessLog/Rotate/Walks.antt =====
-- internal/logging/accesslog/rotate.go: the loop over the lines of a log, from the newest, against a
-- description of the lines that it keeps.
use mathlib.Core.Path.{subst}
use godoxy.Prelude.{
  ℕ, zero, suc, ◌+◌, ◌<◌, ◌≡◌, ap, ◌∙◌, arith, false, Option, none, some, List, [], ◌∷◌, ◌++◌, inl,
  inr, append_assoc, length, ◌==◌, Bool-cases,
}
use godoxy.Prelude.Bytes.{Bytes}
use godoxy.AccessLog.FileIo.{FileIo, Obeys}
use godoxy.AccessLog.Visit.{Walk, Limit, stops}
use godoxy.AccessLog.BackScanner.{BackScanner, scan}
use godoxy.AccessLog.BackScanner.Lines.{lines_back}
use godoxy.AccessLog.BackScanner.Places.{At}
use godoxy.AccessLog.BackScanner.Scanned.{Scanned, scan-Scanned}
use godoxy.AccessLog.Rotate.{walk, walk_on}
use godoxy.AccessLog.Rotate.Visits.{
  line_text, text_back, keeps, Gathered, Walking, visit-invalid, visit-stop, visit-keep,
}

-- The end of the loop.
abbrev pub Ending : Bytes → Bytes → Option (BackScanner × Walk) → Type 0
Ending c out none = ⊥
Ending c out (some (s, w)) = (s.err ≡ false) × Gathered c w out

module _ {F : Type 0} (io : FileIo F) (content : F → Bytes) (obeys : Obeys io content) (f : F)
    (time_of : Bytes → ℕ) (limit : Limit) where
  unfoldable pub Walked : ℕ → List Bytes → Type 0
  Walked fuel ls =
      (s : BackScanner) (t : Bytes) (w : Walk) (out : Bytes) (keep invalid : ℕ)
      → At (content f) s t
      → lines_back t ≡ ls
      → Walking (content f) (text_back ls) w out
      → w.result.num_lines_keep ≡ keep
      → w.result.num_lines_invalid ≡ invalid
      → Ending (content f) (text_back (keeps time_of limit keep invalid ls) ++ out)
          (walk io fuel time_of limit f s w)

  module _ (l : Bytes) (ls : List Bytes) (fuel : ℕ) (s : BackScanner) (w : Walk) (out : Bytes)
      (keep invalid : ℕ) (t : Bytes) where
    -- One line of the loop.
    line-Ending :
        At (content f) s t
        → lines_back t ≡ ls
        → Walking (content f) (text_back (l ∷ ls)) w out
        → w.result.num_lines_keep ≡ keep
        → w.result.num_lines_invalid ≡ invalid
        → Walked fuel ls
        → Ending
            (content f)
            (text_back (keeps time_of limit keep invalid (l ∷ ls)) ++ out)
            (walk_on io (walk io fuel time_of limit f) time_of limit w (some (s, some l)))
    unfolding walk_on text_back keeps Walked
    line-Ending at e k hk hi ih = elim (Bool-cases (time_of l == 0)) [
      | inl z ↦
          (let (k', b, k'', i'') =
              visit-invalid time_of limit (content f) (text_back ls) l w out k z in
            rw (z, b)
              (ih s t _ out keep (invalid + 1) at e k' (k'' ∙ hk) (i'' ∙ ap (λ (n : ℕ). n + 1) hi)))
      | inr z ↦ elim (Bool-cases (stops limit keep invalid (time_of l))) [
        | inl h ↦
            (let (k', b) =
                visit-stop time_of limit (content f) (text_back ls) l w out k z (rw (hk, hi) h) in
              rw (z, h, b) (no_error at, k'))
        | inr h ↦
            (let (k', b, k'', i'') =
                visit-keep time_of limit (content f) (text_back ls) l w out k z (rw (hk, hi) h) in
              rw (z, h, b, append_assoc)
                (ih s t _ (line_text l ++ out) (keep + 1) invalid at e k'
                  (k'' ∙ ap (λ (n : ℕ). n + 1) hk) (i'' ∙ hi)))
      ]
    ]
      where
        no_error : At (content f) s t → s.err ≡ false
        no_error a = a.no_error

  -- What a call of `Scan` answers, for the lines that are left.
  Scanned-Ending :
      (ls : List Bytes) (o : Option (BackScanner × Option Bytes)) (fuel : ℕ) (w : Walk)
      (out : Bytes) (keep invalid : ℕ)
      → Scanned (content f) ls o
      → Walking (content f) (text_back ls) w out
      → w.result.num_lines_keep ≡ keep
      → w.result.num_lines_invalid ≡ invalid
      → ((ls' : List Bytes) → length ls' < length ls → Walked fuel ls')
      → Ending
          (content f)
          (text_back (keeps time_of limit keep invalid ls) ++ out)
          (walk_on io (walk io fuel time_of limit f) time_of limit w o)
  unfolding walk_on text_back keeps
  Scanned-Ending ls none fuel w out keep invalid g k hk hi ih = elim g [ ]
  Scanned-Ending [] (some (s, none)) fuel w out keep invalid g k hk hi ih = (
    g.1,
    record {
      front = [];
      tail = k.tail;
      whole = k.whole;
      original = k.original;
      bytes = k.bytes;
      parts = k.parts;
    },
  )
  Scanned-Ending (l ∷ ls) (some (s, none)) fuel w out keep invalid g k hk hi ih = absurd (cc)
  Scanned-Ending [] (some (s, some line)) fuel w out keep invalid (t, at, e) k hk hi ih =
      absurd (cc)
  Scanned-Ending (l ∷ ls) (some (s, some line)) fuel w out keep invalid (t, at, e) k hk hi ih =
      let same : l ≡ line = cc in
      let left : lines_back t ≡ ls = cc in
      rw (← same)
        (line-Ending l ls fuel s w out keep invalid t at left k hk hi (ih ls (omega arith)))

  pub walk-Ending : (fuel : ℕ) (ls : List Bytes) → length ls < fuel → Walked fuel ls
  unfolding walk Walked
  walk-Ending zero ls h = λ s t w out keep invalid at e k hk hi. absurd (omega arith)
  walk-Ending (suc fuel) ls h = λ s t w out keep invalid at e k hk hi.
      Scanned-Ending ls (scan io f s) fuel w out keep invalid
        (subst (λ x. Scanned (content f) x (scan io f s)) e
          (scan-Scanned io content obeys f s t at))
        k hk hi (λ ls' less. walk-Ending fuel ls' (omega arith))
