-- ===== src/AccessLog/BackScanner/Scanned.antt =====
-- internal/logging/accesslog/back_scanner.go: `Scan` on a file that does not fail.
use mathlib.Core.Path.{subst}
use godoxy.Prelude.{
  ℕ, zero, suc, ◌+◌, ◌-◌, ◌*◌, ◌≤◌, ◌<◌, ◌≡◌, refl, sym, ap, ◌∙◌, inl, inr, arith, false, Option,
  none, some, List, [], ◌∷◌, ◌++◌, append-nil, append_assoc, length, take, drop, take-append-drop,
  length-take, length-drop, ◌==◌, if◌then◌else◌, Bool-cases,
}
use godoxy.Prelude.Bytes.{Bytes}
use godoxy.Prelude.Int.{pos}
use godoxy.AccessLog.FileIo.{FileIo, Obeys, got}
use godoxy.AccessLog.BackScanner.{
  BackScanner, Place, look, read, found, ended, cut_last, read_chunk, scan_loop, scan,
}
use godoxy.AccessLog.BackScanner.Lines.{lines_back}
use godoxy.AccessLog.BackScanner.{new_back_scanner, scan_while, scan_while_on}
use godoxy.AccessLog.BackScanner.Places.{
  At, Goes, rounds, take_line-Goes, take_rest-Goes, prepend-Goes,
}

-- A call that has ended, with the lines that were ahead of it.
abbrev pub Scanned : Bytes → List Bytes → Option (BackScanner × Option Bytes) → Type 0
Scanned file ls none = ⊥
Scanned file ls (some (s, none)) = (ls ≡ []) × (s.err ≡ false)
Scanned file ls (some (s, some l)) = (t : Bytes) × At file s t × (ls ≡ l ∷ lines_back t)

module _ {F : Type 0} (io : FileIo F) (content : F → Bytes) (obeys : Obeys io content) (f : F) where
  pub read_at_part :
      (k n : ℕ) (a b c : Bytes)
      → length a ≡ k
      → length b ≡ n
      → content f ≡ a ++ b ++ c
      → io.read_at f (pos k) n ≡ got b
  read_at_part k n a b c p q e = rw (← p, ← q) (obeys.read_part f a b c e)

  read_chunk-Goes :
      (s : BackScanner) (t : Bytes)
      → At (content f) s t
      → cut_last s.chunk ≡ none
      → Goes (content f) (lines_back t) (read_chunk io f s)
        × (rounds (read_chunk io f s) < rounds (read s))
  unfolding read_chunk
  read_chunk-Goes s t at e = elim (Bool-cases (s.offset == 0)) [
    | inl z ↦ rw z (take_rest-Goes (content f) s t at (ground arith) e s.chunk refl)
    | inr n ↦
        rw (n, obeyed)
          (prepend-Goes (content f) s t (s.offset - s.chunk_buf) (take k at.front) (drop k at.front)
            at.rest parts short ahead at.has_buffer at.no_error sum (long_pos n))
  ]
    where
      k : ℕ
      k = s.offset - s.chunk_buf

      long : length (drop k at.front) ≡ s.offset - k
      long = omega (arith, length-drop k at.front, at.at_offset)

      short : length (take k at.front) ≡ k
      short = omega (arith, length-take k at.front, at.at_offset)

      parts : content f ≡ take k at.front ++ drop k at.front ++ at.rest
      parts = rw (take-append-drop k at.front) at.parts

      obeyed : io.read_at f (pos k) (s.offset - k) ≡ got (drop k at.front)
      obeyed = read_at_part k (s.offset - k) _ _ _ short long parts

      ahead : t ≡ take k at.front ++ (drop k at.front ++ s.chunk)
      ahead =
          at.ahead
          ∙ ap (λ (x : Bytes). x ++ s.chunk) (sym (take-append-drop k at.front))
          ∙ append_assoc (take k at.front) (drop k at.front) s.chunk

      sum : k + length (drop k at.front) ≡ s.offset
      sum = omega (arith, long)

      long_pos : (s.offset == 0) ≡ false → 0 < length (drop k at.front)
      long_pos n = ground (arith, long, at.has_buffer)

  scan_loop-Scanned :
      (fuel : ℕ) (ls : List Bytes) (p : Place)
      → rounds p ≤ fuel
      → Goes (content f) ls p
      → Scanned (content f) ls (scan_loop io f fuel p)
  unfolding scan_loop
  scan_loop-Scanned fuel ls (found line s) h g = g
  scan_loop-Scanned fuel ls (ended s) h g = g
  scan_loop-Scanned zero ls (look s) h g = absurd (omega arith)
  scan_loop-Scanned zero ls (read s) h g = absurd (omega arith)
  scan_loop-Scanned (suc fuel) ls (look s) h (t, at, e) =
      let (g, less) = take_line-Goes (content f) s t at (cut_last s.chunk) refl in
      scan_loop-Scanned fuel ls _ (omega arith) (rw e g)
  scan_loop-Scanned (suc fuel) ls (read s) h (t, at, e, whole) =
      let (g, less) = read_chunk-Goes s t at whole in
      scan_loop-Scanned fuel ls _ (omega arith) (rw e g)

  -- `Scan` ends, and it finds the last line of the text that it has not passed: the lines of what
  -- it leaves are the others. It answers false when no line is left.
  pub scan-Scanned :
      (s : BackScanner) (t : Bytes)
      → At (content f) s t
      → Scanned (content f) (lines_back t) (scan io f s)
  unfolding scan
  scan-Scanned s t at =
      subst (λ b. Scanned (content f) (lines_back t) (if b then some (s, none) else scanned))
        (sym at.no_error) (scan_loop-Scanned _ (lines_back t) (look s) (omega arith) (t, at, refl))
    where
      scanned : Option (BackScanner × Option Bytes)
      scanned = scan_loop io f (2 * (2 * s.offset + length s.chunk) + 2) (look s)

  -- The scanner made for a file has the whole file ahead.
  pub new_back_scanner-At :
      (size : ℕ)
      → 0 < size
      → At (content f) (new_back_scanner (length (content f)) size) (content f)
  unfolding new_back_scanner
  new_back_scanner-At size h = record {
    front = content f;
    rest = [];
    parts = sym (append-nil _);
    at_offset = refl;
    ahead = sym (append-nil _);
    has_buffer = h;
    no_error = refl;
  }

  scan_while-At :
      (fuel : ℕ) (s : BackScanner) (t : Bytes)
      → At (content f) s t
      → length (lines_back t) < fuel
      → scan_while io f fuel s ≡ some (lines_back t)
  unfolding scan_while scan_while_on
  scan_while-At zero s t at h = absurd (omega arith)
  scan_while-At (suc fuel) s t at h = step (scan io f s) (scan-Scanned s t at) (scan_while-At fuel)
    where
      step :
          (o : Option (BackScanner × Option Bytes))
          → Scanned (content f) (lines_back t) o
          → ((s' : BackScanner) (t' : Bytes)
              → At (content f) s' t'
              → length (lines_back t') < fuel
              → scan_while io f fuel s' ≡ some (lines_back t'))
          → scan_while_on (scan_while io f fuel) o ≡ some (lines_back t)
      step none g ih = elim g [ ]
      step (some (s', none)) (g, ok) ih = rw g refl
      step (some (s', some l)) (t', at', e) ih =
          rw (ih s' t' at' (omega (arith, ap length e, h)), e) refl

  -- With a buffer of any size but zero, calling `Scan` until it answers false finds every line of
  -- the file that is not empty, whole, once, and the last one first, whether or not the file ends
  -- in a newline and wherever the chunks fall.
  pub scan_while-new_back_scanner :
      (size fuel : ℕ)
      → 0 < size
      → length (lines_back (content f)) < fuel
      → scan_while io f fuel (new_back_scanner (length (content f)) size)
        ≡ some (lines_back (content f))
  scan_while-new_back_scanner size fuel h = scan_while-At fuel _ _ (new_back_scanner-At size h)
