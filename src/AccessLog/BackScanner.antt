-- ===== src/AccessLog/BackScanner.antt =====
-- internal/logging/accesslog/back_scanner.go: reading a file from its end, line by line, in chunks.
-- `chunk_buf` is the length of the buffer that a read fills; a nil chunk and an empty one behave
-- alike and are one. The pool of buffers keeps no state that the scanner reads.
pub mod Lines
pub mod Places
pub mod Scanned
use mathlib.Core.Option
use godoxy.Prelude.{
  ℕ, zero, suc, ◌+◌, ◌-◌, ◌*◌, Bool, true, false, Option, none, some, List, [], ◌∷◌, ◌++◌, max,
  length, ◌==◌, if◌then◌else◌,
}
use godoxy.Prelude.Bytes.{Bytes}
use godoxy.Prelude.Int.{pos}
use godoxy.AccessLog.FileIo.{FileIo, ReadResult, got, eof, failed}

pub record BackScanner : Type 0 where
  pub offset : ℕ
  pub chunk_buf : ℕ
  pub chunk : Bytes
  pub err : Bool

unfoldable pub new_back_scanner : ℕ → ℕ → BackScanner
new_back_scanner file_size chunk_size = record {
  offset = file_size;
  chunk_buf = chunk_size;
  chunk = [];
  err = false;
}

-- What stands before and after the last newline (`bytes.LastIndexByte` and the two slices).
unfoldable pub cut_last : Bytes → Option (Bytes × Bytes)
cut_last [] = none
cut_last (c ∷ cs) = elim (cut_last cs) [
  | some (before, after) ↦ some (c ∷ before, after)
  | none ↦ if c == b'\n' then some ([], cs) else none
]

-- Where `Scan` stands: at the test for a line in the buffer, at the inner loop that reads a chunk,
-- or returning a line, or returning false.
pub data Place : Type 0 where
  look read : BackScanner → Place
  found : Bytes → BackScanner → Place
  ended : BackScanner → Place

-- The slices at the last newline; an empty line is passed over.
unfoldable pub take_line : BackScanner → Option (Bytes × Bytes) → Place
take_line s none = read s
take_line s (some (before, [])) = look (record s { chunk = before })
take_line s (some (before, c ∷ line)) = found (c ∷ line) (record s { chunk = before })

-- No more data to read: the rest of the buffer is the first line of the file.
unfoldable pub take_rest : BackScanner → Bytes → Place
take_rest s [] = ended s
take_rest s (c ∷ line) = found (c ∷ line) (record s { chunk = [] })

-- The answer of a read at the new offset: the chunk is put before the buffer, and the buffer is
-- looked through again.
unfoldable pub prepend : BackScanner → ℕ → ReadResult → Place
unfolding take_line cut_last
prepend s new_offset failed = ended (record s { err = true })
prepend s new_offset eof = ended s
prepend s new_offset (got []) = ended s
prepend s new_offset (got (b ∷ bs)) =
    take_line (record s { chunk = (b ∷ bs) ++ s.chunk; offset = new_offset })
      (cut_last ((b ∷ bs) ++ s.chunk))

-- `for s.Scan() { … s.Bytes() … }`: the lines of all calls that answer true.
unfoldable pub scan_while_on :
    (BackScanner → Option (List Bytes)) → Option (BackScanner × Option Bytes) → Option (List Bytes)
scan_while_on go none = none
scan_while_on go (some (s, none)) = some []
scan_while_on go (some (s, some line)) = Option.map (◌∷◌ line) (go s)

module _ {F : Type 0} (io : FileIo F) (file : F) where
  -- One round of the inner loop: max(0, offset - len(chunkBuf)) is the subtraction of ℕ.
  unfoldable pub read_chunk : BackScanner → Place
  unfolding prepend take_rest
  read_chunk s =
      if s.offset == 0
      then take_rest s s.chunk
      else (let new_offset = s.offset - s.chunk_buf in
          prepend s new_offset (io.read_at file (pos new_offset) (s.offset - new_offset)))

  -- `none` means that the fuel ran out.
  unfoldable pub scan_loop : ℕ → Place → Option (BackScanner × Option Bytes)
  unfolding read_chunk take_line cut_last
  scan_loop fuel (found line s) = some (s, some line)
  scan_loop fuel (ended s) = some (s, none)
  scan_loop zero (look s) = none
  scan_loop zero (read s) = none
  scan_loop (suc fuel) (look s) = scan_loop fuel (take_line s (cut_last s.chunk))
  scan_loop (suc fuel) (read s) = scan_loop fuel (read_chunk s)

  -- `Scan` with `Bytes`: the next line, or that there is none. Each round takes a byte of the
  -- buffer or of the file, or goes from the test to the reading.
  unfoldable pub scan : BackScanner → Option (BackScanner × Option Bytes)
  unfolding scan_loop
  scan s =
      if s.err then some (s, none) else scan_loop (2 * (2 * s.offset + length s.chunk) + 2) (look s)

  unfoldable pub scan_while : ℕ → BackScanner → Option (List Bytes)
  unfolding scan_while_on scan
  scan_while zero s = none
  scan_while (suc fuel) s = scan_while_on (scan_while fuel) (scan s)
