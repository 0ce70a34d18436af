-- ===== src/AccessLog/Visit.antt =====
-- internal/logging/accesslog/rotate.go: which lines of a log the rotation keeps: the counts, the
-- limit of a retention, and the visit of a line. Positions are integers, since the source's may fall
-- below zero; sizes and counts are natural numbers below 2 ^ 63, where `int(config.Last)` is the
-- number itself. The name of the file in the result is its caller's, and `Print` only logs.
use godoxy.Prelude.{
  ℕ, ◌+◌, Bool, true, false, Option, none, some, List, [], ◌∷◌, length, ltb, ◌==◌, if◌then◌else◌,
}
use godoxy.Prelude.Bytes.{Bytes}
use godoxy.Prelude.Int.{ℤ, pos, sub_ℕ, ◌-ℤ◌}
use godoxy.AccessLog.Retention.{Retention}

pub record RotateResult : Type 0 where
  pub original_size : ℕ
  pub num_bytes_read : ℕ
  pub num_bytes_keep : ℕ
  pub num_lines_read : ℕ
  pub num_lines_keep : ℕ
  pub num_lines_invalid : ℕ

pub record LineInfo : Type 0 where
  pub position : ℤ
  pub size : ℕ

-- Which lines the rotation reads: it stops when the number of lines kept, less the invalid ones,
-- is the number to keep, or at a line before the cutoff.
pub data Limit : Type 0 where
  last_lines since : ℕ → Limit

-- The switch over the retention; `none` is its default.
unfoldable pub limit_of : Retention → ℕ → Option Limit
limit_of config cutoff =
    if ltb 0 config.last
    then some (last_lines config.last)
    else if ltb 0 config.days
    then some (since cutoff)
    else none

unfoldable pub stops : Limit → ℕ → ℕ → ℕ → Bool
stops (last_lines n) keep invalid t = keep == n + invalid
stops (since cutoff) keep invalid t = ltb t cutoff

unfoldable pub should_stop : Limit → RotateResult → ℕ → Bool
unfolding stops
should_stop limit r t = stops limit r.num_lines_keep r.num_lines_invalid t

-- The state of the loop over the lines. The list has the slice's last element first, which is the
-- oldest part of the file that is kept.
pub record Walk : Type 0 where
  pub result : RotateResult
  pub lines_to_keep : List LineInfo
  pub last_line_valid : Bool

-- A line next to the last one that was kept widens it. The flag is set only after a line is kept,
-- so the list is not empty there.
unfoldable pub add_line : Bool → LineInfo → List LineInfo → List LineInfo
add_line true line [] = []
add_line true line (last ∷ ls) =
    record { position = last.position -ℤ pos line.size; size = last.size + line.size } ∷ ls
add_line false line ls = line ∷ ls

unfoldable pub count_read : ℕ → RotateResult → RotateResult
count_read line_size r = record r {
  num_lines_read = r.num_lines_read + 1;
  num_bytes_read = r.num_bytes_read + line_size;
}

unfoldable pub count_keep : ℕ → RotateResult → RotateResult
count_keep line_size r = record r {
  num_bytes_keep = r.num_bytes_keep + line_size;
  num_lines_keep = r.num_lines_keep + 1;
}

-- One line, with whether the loop breaks.
unfoldable pub visit : (Bytes → ℕ) → Limit → Bytes → Walk → Walk × Bool
unfolding count_read count_keep add_line should_stop
visit time_of limit line w =
    let line_size = length line + 1 in
    let line_pos = sub_ℕ w.result.original_size (w.result.num_bytes_read + line_size) in
    let r = count_read line_size w.result in
    let t = time_of line in
    if t == 0
    then (
      record w {
        result = record r { num_lines_invalid = r.num_lines_invalid + 1 };
        last_line_valid = false;
      },
      false,
    )
    else if should_stop limit r t
    then (record w { result = r }, true)
    else (
      record {
        result = count_keep line_size r;
        lines_to_keep =
            add_line w.last_line_valid (record { position = line_pos; size = line_size })
              w.lines_to_keep;
        last_line_valid = true;
      },
      false,
    )
