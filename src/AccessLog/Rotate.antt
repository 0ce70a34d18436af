-- ===== src/AccessLog/Rotate.antt =====
-- internal/logging/accesslog/rotate.go: the rotation of a log file by its retention. The file's calls,
-- `ParseLogTime`, the chunk size and the time before which a line is too old are arguments.
pub mod Log
pub mod Recent
mod Parts
mod Visits
mod Walks
mod Moves
pub mod Kept
use mathlib.Core.Option
use godoxy.Prelude.{
  ℕ, zero, suc, ◌+◌, ◌-◌, Bool, true, false, not, ◌||◌, Option, none, some, List, [], ◌∷◌, length,
  ltb, leb, ◌==◌, if◌then◌else◌,
}
use godoxy.Prelude.Bytes.{Bytes}
use godoxy.Prelude.Int.{ℤ, pos, sub_ℕ, ◌-ℤ◌}
use godoxy.AccessLog.Retention.{Retention}
use godoxy.AccessLog.FileIo.{FileIo, ReadResult, got, eof, failed, WriteResult, wrote, write_failed}
use godoxy.AccessLog.BackScanner.{BackScanner, new_back_scanner, scan}
use godoxy.AccessLog.LogTime.{parse_log_time}
use godoxy.AccessLog.Visit.{RotateResult, LineInfo, Walk, Limit, limit_of, visit}

-- What the rotation leaves, with its two results.
pub record Rotated (F : Type 0) : Type 0 where
  pub file : F
  pub result : RotateResult
  pub rotated : Bool
  pub err : Bool

-- The end of a write: an error, or fewer bytes than were given.
unfoldable pub written : {F : Type 0} → ℕ → F × WriteResult → F × Bool
written size (f, write_failed) = (f, true)
written size (f, wrote n) = (f, not (n == size))

module _ {F : Type 0} (io : FileIo F) where
  unfoldable pub move_read : F → ℕ → ℕ → ReadResult → F × Bool
  unfolding written
  move_read f dst_pos size failed = (f, true)
  move_read f dst_pos size eof = (f, true)
  move_read f dst_pos size (got buf) =
      if length buf == size then written size (io.write_at f (pos dst_pos) buf) else (f, true)

  unfoldable pub file_content_move : F → ℤ → ℕ → ℕ → F × Bool
  unfolding move_read
  file_content_move f src_pos dst_pos size = move_read f dst_pos size (io.read_at f src_pos size)

  -- The loop that writes the kept parts to the front of the file, the oldest first, with the
  -- position after the last one, if there was no error.
  unfoldable pub move_lines : List LineInfo → F → ℕ → F × Option ℕ
  unfolding file_content_move
  move_lines [] f write_pos = (f, some write_pos)
  move_lines (line ∷ lines) f write_pos =
      let moved = file_content_move f line.position write_pos line.size in
      let rest = move_lines lines moved.0 (write_pos + line.size) in
      if moved.1 then (moved.0, none) else rest

  unfoldable pub truncate_to : RotateResult → F × Option ℕ → Rotated F
  truncate_to r (f, none) = record { file = f; result = r; rotated = false; err = true }
  truncate_to r (f, some size) =
      let (f', bad) = io.truncate f size in
      record { file = f'; result = r; rotated = not bad; err = bad }

  -- One round of `for s.Scan() { … }`.
  unfoldable pub walk_on :
      (BackScanner → Walk → Option (BackScanner × Walk))
      → (Bytes → ℕ)
      → Limit
      → Walk
      → Option (BackScanner × Option Bytes)
      → Option (BackScanner × Walk)
  walk_on go time_of limit w none = none
  walk_on go time_of limit w (some (s, none)) = some (s, w)
  walk_on go time_of limit w (some (s, some line)) =
      let (w', break) = visit time_of limit line w in if break then some (s, w') else go s w'

  -- The loop; `none` means that the fuel ran out.
  unfoldable pub walk :
      ℕ → (Bytes → ℕ) → Limit → F → BackScanner → Walk → Option (BackScanner × Walk)
  unfolding walk_on scan
  walk zero time_of limit f s w = none
  walk (suc fuel) time_of limit f s w =
      walk_on (walk fuel time_of limit f) time_of limit w (scan io f s)

  unfoldable pub rewrite : F → RotateResult → List LineInfo → Rotated F
  unfolding truncate_to move_lines
  rewrite f r [] =
      let (f', bad) = io.truncate f 0 in record { file = f'; result = r; rotated = true; err = bad }
  rewrite f r (line ∷ lines) =
      if r.num_bytes_keep == r.original_size
      then record { file = f; result = r; rotated = false; err = false }
      else truncate_to r (move_lines (line ∷ lines) f 0)

  unfoldable pub after_walk : F → Option (BackScanner × Walk) → Option (Rotated F)
  unfolding rewrite
  after_walk f none = none
  after_walk f (some (s, w)) =
      if s.err
      then some (record { file = f; result = w.result; rotated = false; err = true })
      else some (rewrite f w.result w.lines_to_keep)

  unfoldable pub rotate_sized :
      (Bytes → ℕ) → Limit → ℕ → F → RotateResult → Option ℕ → Option (Rotated F)
  unfolding after_walk walk new_back_scanner
  rotate_sized time_of limit chunk_size f r none =
      some (record { file = f; result = r; rotated = false; err = true })
  rotate_sized time_of limit chunk_size f r (some size) =
      if size == 0
      then some (record { file = f; result = r; rotated = false; err = false })
      else after_walk f (
          walk (size + 1) time_of limit f (new_back_scanner size chunk_size) (record {
            result = record r { original_size = size };
            lines_to_keep = [];
            last_line_valid = false;
          }))

  -- Without a limit there is nothing to do.
  unfoldable pub by_limit : (Bytes → ℕ) → ℕ → F → RotateResult → Option Limit → Option (Rotated F)
  unfolding rotate_sized
  by_limit time_of chunk_size f r none =
      some (record { file = f; result = r; rotated = false; err = false })
  by_limit time_of chunk_size f r (some limit) =
      rotate_sized time_of limit chunk_size f r (io.stat f)

  -- `time_of` is `ParseLogTime`, and the chunk size is the package's variable.
  unfoldable pub rotate_log_file_by_policy :
      (Bytes → ℕ) → ℕ → ℕ → F → Retention → RotateResult → Option (Rotated F)
  unfolding by_limit limit_of
  rotate_log_file_by_policy time_of cutoff chunk_size f config r =
      by_limit time_of chunk_size f r (limit_of config cutoff)

  unfoldable pub cut_to : F → RotateResult → ℕ → Option ℕ → Rotated F
  cut_to f r keep_size none = record { file = f; result = r; rotated = false; err = true }
  cut_to f r keep_size (some size) =
      if leb size keep_size
      then record {
        file = f;
        result = record r { original_size = size; num_bytes_keep = size };
        rotated = false;
        err = false;
      }
      else (let (f', bad) = io.truncate f keep_size in
          record {
            file = f';
            result = record r { original_size = size; num_bytes_keep = keep_size };
            rotated = not bad;
            err = bad;
          })

  unfoldable pub rotate_log_file_by_size : F → Retention → RotateResult → Rotated F
  unfolding cut_to
  rotate_log_file_by_size f config r = cut_to f r config.keep_size (io.stat f)

  -- The offset goes to the end of the file, and its error is joined.
  unfoldable pub seek_to_end : Rotated F → Rotated F
  seek_to_end out =
      let (f, bad) = io.seek_end out.file in record out { file = f; err = out.err || bad }

  unfoldable pub rotate_log_file :
      (Bytes → ℕ) → ℕ → ℕ → F → Retention → RotateResult → Option (Rotated F)
  unfolding seek_to_end rotate_log_file_by_size rotate_log_file_by_policy
  rotate_log_file time_of cutoff chunk_size f config r =
      if ltb 0 config.keep_size
      then some (seek_to_end (rotate_log_file_by_size f config r))
      else Option.map seek_to_end (rotate_log_file_by_policy time_of cutoff chunk_size f config r)
