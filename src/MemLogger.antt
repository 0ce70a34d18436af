-- ===== src/MemLogger.antt =====
-- internal/logging/memlogger/mem_logger.go: the log that is kept in memory, and those who listen to it.
-- Bytes are numbers; a channel is the list of the messages that wait in it.
pub mod Recent
mod Tests
use godoxy.Prelude.{ℕ, ◌+◌, ◌-◌, Bool, List, [], ◌∷◌, ◌++◌, ltb, ◌==◌, if◌then◌else◌, length, drop}
use godoxy.Prelude.Bytes.{Bytes}

abbrev pub max_mem_log_size : ℕ
max_mem_log_size = 16384

abbrev pub truncate_size : ℕ
truncate_size = 8192

abbrev pub listener_chan_buf_size : ℕ
listener_chan_buf_size = 64

-- A channel, and the messages in it.
pub record Listener : Type 0 where
  pub chan : ℕ
  pub pending : List Bytes

pub record MemLogger : Type 0 where
  pub buf : Bytes
  pub listeners : List Listener

unfoldable pub new_mem_logger : MemLogger
new_mem_logger = record { buf = []; listeners = [] }

-- `truncateIfNeeded`; `Next` drops from the front.
truncate_if_needed : ℕ → Bytes → Bytes
truncate_if_needed n buf =
    if ltb max_mem_log_size (length buf + n) then drop (length buf - truncate_size) buf else buf

write_buf : Bytes → Bytes → Bytes
write_buf p buf = let b = buf ++ p in drop (length b - max_mem_log_size) b

-- A full channel drops the message.
send : Bytes → Listener → Listener
send msg l =
    if ltb (length l.pending) listener_chan_buf_size
    then record l { pending = l.pending ++ msg ∷ [] }
    else l

unfoldable pub notify : Bytes → List Listener → List Listener
unfolding send
notify msg [] = []
notify msg (l ∷ ls) = send msg l ∷ notify msg ls

unfoldable pub write_log : Bytes → MemLogger → MemLogger
unfolding truncate_if_needed write_buf notify
write_log [] m = m
write_log (c ∷ p) m = record {
  buf = write_buf (c ∷ p) (truncate_if_needed (length (c ∷ p)) m.buf);
  listeners = notify (c ∷ p) m.listeners;
}

-- `events`, and the cancel function that it returns, for the new channel `ch`.
unfoldable pub subscribe : ℕ → MemLogger → MemLogger
subscribe ch m = record m { listeners = record { chan = ch; pending = [] } ∷ m.listeners }

delete : ℕ → List Listener → List Listener
delete ch [] = []
delete ch (l ∷ ls) = let rest = delete ch ls in if l.chan == ch then rest else l ∷ rest

unfoldable pub cancel : ℕ → MemLogger → MemLogger
unfolding delete
cancel ch m = record m { listeners = delete ch m.listeners }

-- The reader of a channel takes its first message.
take_first : ℕ → List Listener → List Listener
take_first ch [] = []
take_first ch (l ∷ ls) =
    (if l.chan == ch then record l { pending = drop 1 l.pending } else l) ∷ take_first ch ls

unfoldable pub receive : ℕ → MemLogger → MemLogger
unfolding take_first
receive ch m = record m { listeners = take_first ch m.listeners }

pub data Call : Type 0 where
  writes : Bytes → Call
  subscribes cancels receives : ℕ → Call

unfoldable pub call : Call → MemLogger → MemLogger
unfolding write_log subscribe cancel receive
call (writes p) m = write_log p m
call (subscribes ch) m = subscribe ch m
call (cancels ch) m = cancel ch m
call (receives ch) m = receive ch m

unfoldable pub run : List Call → MemLogger → MemLogger
run [] m = m
run (c ∷ cs) m = run cs (call c m)
