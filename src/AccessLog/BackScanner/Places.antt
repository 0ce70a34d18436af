-- ===== src/AccessLog/BackScanner/Places.antt =====
-- internal/logging/accesslog/back_scanner.go: the places of the loop of `Scan`, with the lines
-- that are ahead of each.
use godoxy.Prelude.{
  ℕ, ◌+◌, ◌*◌, ◌<◌, ◌≡◌, refl, ap, ◌∙◌, inl, inr, arith, false, Option, none, some, List, [], ◌∷◌,
  ◌++◌, reverse, append_assoc, length, length-append, Option-cases,
}
use godoxy.Prelude.Bytes.{Bytes, split, split_from}
use godoxy.AccessLog.FileIo.{got}
use godoxy.AccessLog.BackScanner.{
  BackScanner, Place, look, read, found, ended, cut_last, take_line, take_rest, prepend,
}
use godoxy.AccessLog.BackScanner.Lines.{
  lines_back, non_empty, lines_back-cut, lines_back-one, cut_last-append,
}

-- The text that the scanner has not passed yet: the file up to the offset, and the buffer.
pub record At (file : Bytes) (s : BackScanner) (t : Bytes) : Type 0 where
  pub front : Bytes
  pub rest : Bytes
  pub parts : file ≡ front ++ rest
  pub at_offset : length front ≡ s.offset
  pub ahead : t ≡ front ++ s.chunk
  pub has_buffer : 0 < s.chunk_buf
  pub no_error : s.err ≡ false

-- The lines ahead of a place of the loop.
abbrev pub Goes : Bytes → List Bytes → Place → Type 0
Goes file ls (look s) = (t : Bytes) × At file s t × (ls ≡ lines_back t)
Goes file ls (read s) = (t : Bytes) × At file s t × (ls ≡ lines_back t) × (cut_last s.chunk ≡ none)
Goes file ls (found l s) = (t : Bytes) × At file s t × (ls ≡ l ∷ lines_back t)
Goes file ls (ended s) = (ls ≡ []) × (s.err ≡ false)

abbrev pub bytes_left : BackScanner → ℕ
bytes_left s = 2 * s.offset + length s.chunk

-- The rounds that a place may still take.
abbrev pub rounds : Place → ℕ
rounds (look s) = 2 * bytes_left s + 2
rounds (read s) = 2 * bytes_left s + 1
rounds (found l s) = 0
rounds (ended s) = 0

shorter : (t before line : Bytes) → cut_last t ≡ some (before, line) → length before < length t
unfolding cut_last
shorter [] before line h = absurd (cc)
shorter (c ∷ cs) before line h = elim (Option-cases (cut_last cs)) [
  | inl e ↦ ground arith
  | inr ((b, l), e) ↦ ground (arith, shorter cs b l)
]

pub lines_back_nil : lines_back [] ≡ []
unfolding lines_back split split_from non_empty
lines_back_nil = refl

module _ (file : Bytes) where
  -- The slice before the last newline is what is left.
  before-At :
      (s : BackScanner) (t before line : Bytes)
      → At file s t
      → cut_last s.chunk ≡ some (before, line)
      → (u : Bytes) × At file (record s { chunk = before }) u
        × (lines_back t ≡ reverse (non_empty (line ∷ [])) ++ lines_back u)
  before-At s t before line at e = (
    at.front ++ before,
    record {
      front = at.front;
      rest = at.rest;
      parts = at.parts;
      at_offset = at.at_offset;
      ahead = refl;
      has_buffer = at.has_buffer;
      no_error = at.no_error;
    },
    lines_back-cut t (at.front ++ before) line
        (rw at.ahead (cut_last-append at.front s.chunk before line e)),
  )

  pub take_line-Goes :
      (s : BackScanner) (t : Bytes)
      → At file s t
      → (o : Option (Bytes × Bytes)) → cut_last s.chunk ≡ o
      → Goes file (lines_back t) (take_line s o) × (rounds (take_line s o) < rounds (look s))
  unfolding take_line non_empty
  take_line-Goes s t at none e = ((t, at, refl, e), omega arith)
  take_line-Goes s t at (some (before, [])) e =
      let (u, at', l) = before-At s t before [] at e in
      ((u, at', l), omega (arith, shorter s.chunk before [] e))
  take_line-Goes s t at (some (before, c ∷ line)) e =
      let (u, at', l) = before-At s t before (c ∷ line) at e in ((u, at', l), omega arith)

  pub take_rest-Goes :
      (s : BackScanner) (t : Bytes)
      → At file s t
      → s.offset ≡ 0
      → cut_last s.chunk ≡ none
      → (c : Bytes) → s.chunk ≡ c
      → Goes file (lines_back t) (take_rest s c) × (rounds (take_rest s c) < rounds (read s))
  unfolding take_rest non_empty
  take_rest-Goes s t at z e c ec = step c ec
    where
      front_nil : (xs : Bytes) → length xs ≡ 0 → xs ≡ []
      front_nil [] h = refl
      front_nil (x ∷ xs) h = absurd (omega arith)

      no_front : at.front ≡ []
      no_front = front_nil at.front (at.at_offset ∙ z)

      is_chunk : t ≡ s.chunk
      is_chunk = at.ahead ∙ ap (λ (f : Bytes). f ++ s.chunk) no_front

      one : lines_back t ≡ reverse (non_empty (t ∷ []))
      one = lines_back-one t (rw is_chunk e)

      step :
          (c : Bytes)
          → s.chunk ≡ c
          → Goes file (lines_back t) (take_rest s c) × (rounds (take_rest s c) < rounds (read s))
      step [] ec = ((rw (one, is_chunk, ec) refl, at.no_error), omega arith)
      step (x ∷ l) ec = (
        (
          [],
          record {
            front = at.front;
            rest = at.rest;
            parts = at.parts;
            at_offset = at.at_offset;
            ahead = rw no_front refl;
            has_buffer = at.has_buffer;
            no_error = at.no_error;
          },
          rw (one, is_chunk, ec, lines_back_nil) refl,
        ),
        omega arith,
      )

  pub prepend-Goes :
      (s : BackScanner) (t : Bytes) (new_offset : ℕ) (front d rest : Bytes)
      → file ≡ front ++ d ++ rest
      → length front ≡ new_offset
      → t ≡ front ++ (d ++ s.chunk)
      → 0 < s.chunk_buf
      → s.err ≡ false
      → new_offset + length d ≡ s.offset
      → 0 < length d
      → Goes file (lines_back t) (prepend s new_offset (got d))
        × (rounds (prepend s new_offset (got d)) < rounds (read s))
  unfolding prepend
  prepend-Goes s t new_offset front [] rest parts lf ahead buf ok sum some_read = elim some_read [ ]
  prepend-Goes s t new_offset front (b ∷ bs) rest parts lf ahead buf ok sum some_read =
      let s' : BackScanner = record s { chunk = (b ∷ bs) ++ s.chunk; offset = new_offset } in
      let at' : At file s' t = record {
        front = front;
        rest = (b ∷ bs) ++ rest;
        parts = parts ∙ append_assoc front (b ∷ bs) rest;
        at_offset = lf;
        ahead = ahead;
        has_buffer = buf;
        no_error = ok;
      } in
      let r = take_line-Goes s' t at' (cut_last s'.chunk) refl in
      (r.0, omega (arith, r.1, length-append (b ∷ bs) s.chunk))
