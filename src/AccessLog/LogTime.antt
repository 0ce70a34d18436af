-- ===== src/AccessLog/LogTime.antt =====
-- internal/logging/accesslog/rotate.go: finding the time of a log line. `time.Parse` is an argument:
-- a time is a number, and zero is the zero time, which a text that does not parse gives.
use godoxy.Prelude.{ℕ, Option, none, some, [], ◌∷◌, length, take, ltb, ◌==◌, if◌then◌else◌}
use godoxy.Prelude.Bytes.{Bytes, codes}

-- len(LogTimeFormat), which is 02/Jan/2006:15:04:05 -0700.
abbrev pub time_length : ℕ
time_length = 26

abbrev time_json : Bytes
time_json = codes "\"time\":\""

-- What stands after the pattern, if the text begins with it.
unfoldable pub after_prefix : Bytes → Bytes → Option Bytes
after_prefix [] s = some s
after_prefix (p ∷ ps) [] = none
after_prefix (p ∷ ps) (c ∷ s) = if p == c then after_prefix ps s else none

-- What stands after the first place of the pattern (`bytes.Index` and the slice).
unfoldable pub after_first : Bytes → Bytes → Option Bytes
unfolding after_prefix
after_first p [] = after_prefix p []
after_first p (c ∷ s) = elim (after_prefix p (c ∷ s)) [
  | some rest ↦ some rest
  | none ↦ after_first p s
]

-- The time's text, if the line is long enough to hold it.
unfoldable pub time_text : Option Bytes → Option Bytes
time_text none = none
time_text (some rest) = if ltb (length rest) time_length then none else some (take time_length rest)

-- A line that opens with a brace is JSON; any other has its time in brackets.
unfoldable pub extract_time : Bytes → Option Bytes
unfolding time_text after_first
extract_time [] = none
extract_time (c ∷ line) =
    if c == b'{'
    then time_text (after_first time_json (c ∷ line))
    else time_text (after_first (b'[' ∷ []) (c ∷ line))

unfoldable pub parse_text : (Bytes → ℕ) → Option Bytes → ℕ
parse_text parse none = 0
parse_text parse (some text) = parse text

-- `ParseLogTime`; the empty line has no time.
unfoldable pub parse_log_time : (Bytes → ℕ) → Bytes → ℕ
unfolding parse_text extract_time
parse_log_time parse line = parse_text parse (extract_time line)
