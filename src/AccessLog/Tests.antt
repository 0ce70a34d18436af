-- ===== src/AccessLog/Tests.antt =====
-- Tests of the access log, and witnesses for its theorems: a file is its bytes, and a
-- line's time is its first digit.
use Prim.Native.String.{String}
use godoxy.Prelude.{
  ℕ, ◌+◌, ◌-◌, ◌<◌, ◌≡◌, refl, ap, arith, Bool, true, false, Option, none, some, List, [], ◌∷◌,
  ◌++◌, append_assoc, length, length-append, take, drop, leb, if◌then◌else◌, inr,
}
use godoxy.Prelude.Bytes.{Bytes, codes, split}
use godoxy.Prelude.Int.{ℤ, pos, negsuc, ◌-ℤ◌}
use godoxy.AccessLog.Retention.{Retention, parse_retention, unit_days, is_valid, fresh}
use godoxy.AccessLog.Visit.{visit}
use godoxy.AccessLog.FileIo.{FileIo, Obeys, ReadResult, got, eof, failed, WriteResult, wrote}
use godoxy.AccessLog.BackScanner.{new_back_scanner, scan_while}
use godoxy.AccessLog.BackScanner.Lines.{lines_back}
use godoxy.AccessLog.BackScanner.Scanned.{scan_while-new_back_scanner}
use godoxy.AccessLog.Rotate.{Rotated, rotate_log_file}
use godoxy.AccessLog.Rotate.Log.{log_text}
use godoxy.AccessLog.Rotate.Kept.{no_result, Leaves}
use godoxy.AccessLog.Rotate.Recent.{rotate_log_file-since, rotate_log_file-last, with_time}

abbrev words : String → List String
words v = "2" ∷ "weeks" ∷ []

abbrev two : String → ℕ × Bool
two t = (2, false)

abbrev fortnight : Retention
fortnight = record { days = 14; last = 0; keep_size = 0 }

two_weeks : parse_retention words two "2 weeks" fresh ≡ (fortnight, none)
unfolding parse_retention unit_days is_valid
two_weeks = refl

unfoldable read_bytes : Bytes → ℤ → ℕ → ReadResult
read_bytes f (pos o) n = if leb (o + n) (length f) then got (take n (drop o f)) else eof
read_bytes f (negsuc o) n = failed

unfoldable write_bytes : Bytes → ℤ → Bytes → Bytes × WriteResult
write_bytes f (pos o) s = (take o f ++ s ++ drop (length s) (drop o f), wrote (length s))
write_bytes f (negsuc o) s = (f, WriteResult.write_failed)

abbrev bytes_io : FileIo Bytes
bytes_io = record {
  stat = λ f. some (length f);
  read_at = read_bytes;
  write_at = write_bytes;
  truncate = λ f n. (take n f, false);
  seek_end = λ f. (f, false);
}

abbrev content : Bytes → Bytes
content f = f

take_part : (a b : Bytes) → take (length a) (a ++ b) ≡ a
take_part [] b = refl
take_part (x ∷ a) b = ap (◌∷◌ x) (take_part a b)

drop_part : (a b : Bytes) → drop (length a) (a ++ b) ≡ b
drop_part [] b = refl
drop_part (x ∷ a) b = drop_part a b

drop_size : (b c : Bytes) (n : ℕ) → length b ≡ n → drop n (b ++ c) ≡ c
drop_size b c n e = rw (← e) (drop_part b c)

reads :
    (a b c : Bytes)
    → (if leb (length a + length b) (length (a ++ (b ++ c)))
        then got (take (length b) (drop (length a) (a ++ (b ++ c))))
        else eof)
      ≡ got b
reads a b c = rw (drop_part a (b ++ c), take_part b c, fits) refl
  where
    fits : leb (length a + length b) (length (a ++ (b ++ c))) ≡ true
    fits = ground (arith, length-append a (b ++ c), length-append b c)

bytes_obey : Obeys bytes_io content
unfolding read_bytes write_bytes
bytes_obey = record {
  stat_size = λ f. refl;
  read_part = λ f a b c e. rw (e, append_assoc) (reads a b c);
  write_part = λ f a b c s e h. (
    refl,
    rw
        (
          e,
          append_assoc a b c,
          take_part a (b ++ c),
          drop_part a (b ++ c),
          drop_size b c (length s) h,
        )
        refl,
  );
  truncate_part = λ f a b e. (refl, rw e (take_part a b));
  seek_part = λ f. (refl, refl);
}

-- The first digit of the line.
digit : Bytes → ℕ
digit [] = 0
digit (c ∷ l) = c - b'0'

abbrev last_two : Retention
last_two = record { days = 0; last = 2; keep_size = 0 }

abbrev three_days : Retention
three_days = record { days = 3; last = 0; keep_size = 0 }

abbrev lines_of : Bytes → List Bytes
lines_of [] = []
lines_of (c ∷ s) = (c ∷ b'a' ∷ []) ∷ lines_of s

abbrev after : Option (Rotated Bytes) → Bytes × Bool
after none = ([], true)
after (some r) = (r.file, r.rotated)

-- Chunks of three bytes, a line without its newline at the end, and an empty line.
scan_chunks :
    scan_while bytes_io (codes "abcd\n\ne\nfg") 9 (new_back_scanner 10 3)
    ≡ some (codes "fg" ∷ codes "e" ∷ codes "abcd" ∷ [])
unfolding scan_while new_back_scanner read_bytes
scan_chunks = refl

scan_while-new_back_scanner_example :
    scan_while bytes_io (codes "ab\nc") 3 (new_back_scanner 4 2) ≡ some (lines_back (codes "ab\nc"))
unfolding lines_back split
scan_while-new_back_scanner_example =
    scan_while-new_back_scanner bytes_io content bytes_obey (codes "ab\nc") 2 3 (omega arith) few
  where
    few : length (lines_back (codes "ab\nc")) < 3
    few = omega arith

-- Two parts are moved to the front, over the invalid line between them.
rotate_days :
    after (rotate_log_file bytes_io digit 5 4 (codes "1a\n6b\n0c\n7d\n") three_days no_result)
    ≡ (codes "6b\n7d\n", true)
unfolding rotate_log_file visit read_bytes write_bytes digit
rotate_days = refl

-- An empty line shifts the positions: the older of the two lines loses its start.
rotate_empty_line :
    after (rotate_log_file bytes_io digit 5 4 (codes "1a\n6b\n\n7d\n") three_days no_result)
    ≡ (codes "b\n\n7d\n", true)
unfolding rotate_log_file visit ◌-ℤ◌ read_bytes write_bytes digit
rotate_empty_line = refl

rotate_log_file-since_example :
    Leaves bytes_io content bytes_obey
      (codes "1a\n0c\n7d\n")
      digit
      (codes "7d\n")
      (rotate_log_file bytes_io digit 5 4 (codes "1a\n0c\n7d\n") three_days no_result)
unfolding digit log_text with_time
rotate_log_file-since_example =
    rotate_log_file-since bytes_io content bytes_obey (codes "1a\n0c\n7d\n") digit 5 4 three_days
      (omega arith) refl (lines_of (codes "1")) (codes "0c" ∷ codes "7d" ∷ []) refl (omega arith)
      refl (omega arith) (omega arith) (omega arith)

rotate_log_file-last_example :
    Leaves bytes_io content bytes_obey
      (codes "1a\n2a\n3a\n4a\n0a\n")
      digit
      (codes "2a\n3a\n4a\n")
      (rotate_log_file bytes_io digit 0 4 (codes "1a\n2a\n3a\n4a\n0a\n") last_two no_result)
unfolding digit log_text
rotate_log_file-last_example =
    rotate_log_file-last bytes_io content bytes_obey (codes "1a\n2a\n3a\n4a\n0a\n") digit 0 4
      last_two (omega arith) refl (lines_of (codes "1")) (lines_of (codes "234"))
      (lines_of (codes "0")) refl (omega arith) (omega arith) (omega arith) (omega arith)
      (omega arith) (omega arith) (inr refl)
