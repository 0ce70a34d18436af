-- ===== src/AccessLog/Rotate/Visits.antt =====
-- internal/logging/accesslog/rotate.go: what the visit of a line does to the state of the loop.
use mathlib.Core.Path.{subst}
use godoxy.Prelude.{
  ℕ, ◌+◌, ◌≡◌, refl, sym, ap, ◌∙◌, arith, true, false, List, [], ◌∷◌, ◌++◌, append_assoc, length,
  length-append, ◌==◌, if◌then◌else◌,
}
use godoxy.Prelude.Bytes.{Bytes}
use godoxy.Prelude.Int.{pos, sub_ℕ}
use godoxy.AccessLog.Visit.{
  Walk, Limit, stops, should_stop, visit, add_line, count_read, count_keep,
}
use godoxy.AccessLog.Rotate.Parts.{Parts, NextTo, Parts-skip, add_line-Parts}

-- A line with its newline.
abbrev pub line_text : Bytes → Bytes
line_text l = l ++ b'\n' ∷ []

-- The text of lines that are given with the newest first.
unfoldable pub text_back : List Bytes → Bytes
text_back [] = []
text_back (l ∷ ls) = text_back ls ++ line_text l

module _ (time_of : Bytes → ℕ) (limit : Limit) where
  -- The lines that are kept of those given, with the newest first: invalid lines are left out, and
  -- the first valid line at which the limit is reached ends it.
  unfoldable pub keeps : ℕ → ℕ → List Bytes → List Bytes
  keeps keep invalid [] = []
  keeps keep invalid (l ∷ ls) =
      let skipped = keeps keep (invalid + 1) ls in
      let more = keeps (keep + 1) invalid ls in
      if time_of l == 0
      then skipped
      else if stops limit keep invalid (time_of l)
      then []
      else l ∷ more

-- What the loop has found when it ends: the parts to keep have this text.
pub record Gathered (c : Bytes) (w : Walk) (out : Bytes) : Type 0 where
  pub front : Bytes
  pub tail : Bytes
  pub whole : c ≡ front ++ tail
  pub original : w.result.original_size ≡ length c
  pub bytes : w.result.num_bytes_keep ≡ length out
  pub parts : Parts (length front) w.lines_to_keep tail out

-- The same between two lines, where the front is what the loop has not read.
pub record Walking (c front : Bytes) (w : Walk) (out : Bytes) : Type 0 where
  pub tail : Bytes
  pub whole : c ≡ front ++ tail
  pub original : w.result.original_size ≡ length c
  pub bytes : w.result.num_bytes_keep ≡ length out
  pub done : w.result.num_bytes_read ≡ length tail
  pub parts : Parts (length front) w.lines_to_keep tail out
  pub next : w.last_line_valid ≡ true → NextTo (length front) w.lines_to_keep

module _ (time_of : Bytes → ℕ) (limit : Limit) (c front l : Bytes) (w : Walk) (out : Bytes) where
  module _ (at : Walking c (front ++ line_text l) w out) where
    read_size : length (line_text l ++ at.tail) ≡ w.result.num_bytes_read + (length l + 1)
    read_size =
        omega (arith, at.done, length-append (line_text l) at.tail, length-append l (b'\n' ∷ []))

    whole' : c ≡ front ++ (line_text l ++ at.tail)
    whole' = at.whole ∙ append_assoc front (line_text l) at.tail

    parts' : Parts (length front + length (line_text l)) w.lines_to_keep at.tail out
    parts' =
        subst (λ b. Parts b w.lines_to_keep at.tail out) (length-append front (line_text l))
          at.parts

    pub visit-invalid :
        (time_of l == 0) ≡ true
        → Walking c front (visit time_of limit l w).0 out
          × ((visit time_of limit l w).1 ≡ false)
          × ((visit time_of limit l w).0.result.num_lines_keep ≡ w.result.num_lines_keep)
          × ((visit time_of limit l w).0.result.num_lines_invalid ≡ w.result.num_lines_invalid + 1)
    unfolding visit count_read
    visit-invalid e = rw e (
      record {
        tail = line_text l ++ at.tail;
        whole = whole';
        original = at.original;
        bytes = at.bytes;
        done = sym read_size;
        parts = Parts-skip (line_text l) (length front) w.lines_to_keep at.tail out parts';
        next = λ h. absurd (cc);
      },
      refl,
      refl,
      refl,
    )

    pub visit-stop :
        (time_of l == 0) ≡ false
        → stops limit w.result.num_lines_keep w.result.num_lines_invalid (time_of l) ≡ true
        → Gathered c (visit time_of limit l w).0 out × ((visit time_of limit l w).1 ≡ true)
    unfolding visit count_read should_stop
    visit-stop e h =
        rw (e, h)
          (
            record {
              front = front ++ line_text l;
              tail = at.tail;
              whole = at.whole;
              original = at.original;
              bytes = at.bytes;
              parts = at.parts;
            },
            refl,
          )

    line_size : length l + 1 ≡ length (line_text l)
    line_size = omega (arith, length-append l (b'\n' ∷ []))

    line_pos :
        sub_ℕ w.result.original_size (w.result.num_bytes_read + (length l + 1)) ≡ pos (length front)
    line_pos = ground (
      arith,
      at.original,
      ap length whole',
      length-append front (line_text l ++ at.tail),
      read_size,
    )

    pub visit-keep :
        (time_of l == 0) ≡ false
        → stops limit w.result.num_lines_keep w.result.num_lines_invalid (time_of l) ≡ false
        → Walking c front (visit time_of limit l w).0 (line_text l ++ out)
          × ((visit time_of limit l w).1 ≡ false)
          × ((visit time_of limit l w).0.result.num_lines_keep ≡ w.result.num_lines_keep + 1)
          × ((visit time_of limit l w).0.result.num_lines_invalid ≡ w.result.num_lines_invalid)
    unfolding visit count_read count_keep should_stop
    visit-keep e h =
        rw (e, h)
          (
            record {
              tail = line_text l ++ at.tail;
              whole = whole';
              original = at.original;
              bytes = omega (arith, at.bytes, line_size, length-append (line_text l) out);
              done = sym read_size;
              parts = added.0;
              next = λ _. added.1;
            },
            refl,
            refl,
            refl,
          )
      where
        added :
            Parts
              (length front)
              (add_line w.last_line_valid
                (record {
                  position =
                      sub_ℕ w.result.original_size (w.result.num_bytes_read + (length l + 1));
                  size = length l + 1;
                })
                w.lines_to_keep)
              (line_text l ++ at.tail)
              (line_text l ++ out)
            × NextTo (length front) (
                add_line w.last_line_valid
                  (record {
                    position =
                        sub_ℕ w.result.original_size (w.result.num_bytes_read + (length l + 1));
                    size = length l + 1;
                  })
                  w.lines_to_keep)
        added =
            add_line-Parts (line_text l) (length front) _ _ w.last_line_valid w.lines_to_keep
              at.tail out line_size line_pos
              (λ f.
                subst (λ b. NextTo b w.lines_to_keep) (length-append front (line_text l))
                  (at.next f))
              parts'
