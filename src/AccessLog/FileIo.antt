-- ===== src/AccessLog/FileIo.antt =====
-- internal/logging/accesslog/rotate.go: `supportRotate`, the calls of a log file that the rotation
-- makes. The file itself is outside the repository: its calls are a record, and `Obeys` names the
-- documented behaviour of the calls of `os.File` (`io.ReaderAt`, `io.WriterAt`, `Truncate`,
-- `Stat`, `Seek`) on a file that does not fail.
use godoxy.Prelude.{ℕ, ◌≡◌, Bool, false, ◌++◌, Option, some, length}
use godoxy.Prelude.Bytes.{Bytes}
use godoxy.Prelude.Int.{ℤ, pos}

-- What `ReadAt` answers: the bytes that were read, `io.EOF`, or another error.
pub data ReadResult : Type 0 where
  got : Bytes → ReadResult
  eof failed : ReadResult

-- What `WriteAt` answers: the number of bytes written, or an error.
pub data WriteResult : Type 0 where
  wrote : ℕ → WriteResult
  write_failed : WriteResult

-- `read_at f off n` reads into a buffer of n bytes. An offset may be negative. `stat` gives the
-- size; `truncate` and `seek_end` give the file with whether there was an error.
pub record FileIo (F : Type 0) : Type 0 where
  pub stat : F → Option ℕ
  pub read_at : F → ℤ → ℕ → ReadResult
  pub write_at : F → ℤ → Bytes → F × WriteResult
  pub truncate : F → ℕ → F × Bool
  pub seek_end : F → F × Bool

-- The calls act on the content of the file: a read and a write within the file reach the bytes at
-- the offset, `Truncate` keeps the first bytes, and moving the offset changes no byte.
pub record Obeys {F : Type 0} (io : FileIo F) (content : F → Bytes) : Type 0 where
  pub stat_size : (f : F) → io.stat f ≡ some (length (content f))
  pub read_part :
      (f : F) (a b c : Bytes)
      → content f ≡ a ++ b ++ c
      → io.read_at f (pos (length a)) (length b) ≡ got b
  pub write_part :
      (f : F) (a b c s : Bytes)
      → content f ≡ a ++ b ++ c
      → length b ≡ length s
      → ((io.write_at f (pos (length a)) s).1 ≡ wrote (length s))
        × (content (io.write_at f (pos (length a)) s).0 ≡ a ++ s ++ c)
  pub truncate_part :
      (f : F) (a b : Bytes)
      → content f ≡ a ++ b
      → ((io.truncate f (length a)).1 ≡ false) × (content (io.truncate f (length a)).0 ≡ a)
  pub seek_part : (f : F) → ((io.seek_end f).1 ≡ false) × (content (io.seek_end f).0 ≡ content f)
