-- ===== src/MemLogger/Recent.antt =====
-- internal/logging/memlogger/mem_logger.go: what the buffer holds.
use mathlib.Core.Path.{subst}
use godoxy.Prelude.{
  ℕ, ◌+◌, ◌-◌, ◌≤◌, ◌≡◌, ◌⊎◌, inl, inr, refl, sym, ap, ◌∙◌, List, [], ◌∷◌, ◌++◌, arith, ltb, ◌==◌,
  length, take, drop, length-append, length-drop, take-append-drop, append_assoc, append-nil,
  Bool-cases, All,
}
use godoxy.Prelude.Bytes.{Bytes}
use godoxy.MemLogger.{
  max_mem_log_size, truncate_size, listener_chan_buf_size, Listener, MemLogger, new_mem_logger,
  truncate_if_needed, write_buf, send, notify, write_log, delete, take_first, Call, writes,
  subscribes, cancels, receives, call, run,
}

-- All that the calls write.
abbrev pub written : List Call → Bytes
written [] = []
written (writes p ∷ cs) = p ++ written cs
written (subscribes ch ∷ cs) = written cs
written (cancels ch ∷ cs) = written cs
written (receives ch ∷ cs) = written cs

-- The buffer is the end of the text, and it is all of it or at least `truncate_size` long.
pub record IsTail (all buf : Bytes) : Type 0 where
  pub older : Bytes
  pub split_up : older ++ buf ≡ all
  pub enough : (truncate_size ≤ length buf) ⊎ (buf ≡ all)

drop_none : (k : ℕ) (b : Bytes) → k ≡ 0 → drop k b ≡ b
drop_none k b h = ap (λ i. drop i b) h

-- Cutting `k` bytes off the front.
drop-IsTail :
    (k : ℕ) (all buf : Bytes)
    → IsTail all buf
    → (k ≡ 0) ⊎ (truncate_size + k ≤ length buf)
    → IsTail all (drop k buf)
drop-IsTail k all buf r (inl e) = subst (λ b. IsTail all b) (sym (drop_none k buf e)) r
drop-IsTail k all buf r (inr h) = record {
  older = r.older ++ take k buf;
  split_up =
      append_assoc r.older (take k buf) (drop k buf)
      ∙ ap (λ b. r.older ++ b) (take-append-drop k buf)
      ∙ r.split_up;
  enough = inl (omega (arith, length-drop k buf));
}

cut_to : (n m : ℕ) → (n - m ≡ 0) ⊎ (m + (n - m) ≤ n)
cut_to n m = elim (Bool-cases (ltb m n)) [ inl e ↦ inr (ground arith) | inr e ↦ inl (ground arith) ]

truncate-IsTail : (n : ℕ) (all buf : Bytes) → IsTail all buf → IsTail all (truncate_if_needed n buf)
unfolding truncate_if_needed
truncate-IsTail n all buf r = elim (Bool-cases (ltb max_mem_log_size (length buf + n))) [
  | inl e ↦
      rw e (drop-IsTail (length buf - truncate_size) all buf r (cut_to (length buf) truncate_size))
  | inr e ↦ rw e r
]

append-IsTail : (p all buf : Bytes) → IsTail all buf → IsTail (all ++ p) (buf ++ p)
append-IsTail p all buf r = record {
  older = r.older;
  split_up = sym (append_assoc r.older buf p) ∙ ap (λ b. b ++ p) r.split_up;
  enough = elim r.enough [
    | inl h ↦ inl (omega (arith, length-append buf p))
    | inr e ↦ inr (ap (λ b. b ++ p) e)
  ];
}

write_cut : (n : ℕ) → (n - max_mem_log_size ≡ 0) ⊎ (truncate_size + (n - max_mem_log_size) ≤ n)
write_cut n = elim (cut_to n max_mem_log_size) [ inl e ↦ inl e | inr h ↦ inr (omega arith) ]

write_buf-IsTail : (p all buf : Bytes) → IsTail all buf → IsTail (all ++ p) (write_buf p buf)
unfolding write_buf
write_buf-IsTail p all buf r =
    drop-IsTail (length (buf ++ p) - max_mem_log_size) (all ++ p) (buf ++ p)
      (append-IsTail p all buf r) (write_cut (length (buf ++ p)))

write_buf-bound : (p buf : Bytes) → length (write_buf p buf) ≤ max_mem_log_size
unfolding write_buf
write_buf-bound p buf = omega (arith, length-drop (length (buf ++ p) - max_mem_log_size) (buf ++ p))

-- No channel holds more messages than it has room for.
abbrev pub Roomy : List Listener → Type 0
Roomy ls = All (λ l. length l.pending ≤ listener_chan_buf_size) ls

send_bound :
    (msg : Bytes) (l : Listener)
    → length l.pending ≤ listener_chan_buf_size
    → length (send msg l).pending ≤ listener_chan_buf_size
unfolding send
send_bound msg l h = ground (arith, length-append l.pending (msg ∷ []))

notify-Roomy : (msg : Bytes) (ls : List Listener) → Roomy ls → Roomy (notify msg ls)
unfolding notify
notify-Roomy msg [] h = tt
notify-Roomy msg (l ∷ ls) h = (send_bound msg l h.0, notify-Roomy msg ls h.1)

delete-Roomy : (ch : ℕ) (ls : List Listener) → Roomy ls → Roomy (delete ch ls)
unfolding delete
delete-Roomy ch [] h = tt
delete-Roomy ch (l ∷ ls) h = elim (Bool-cases (l.chan == ch)) [
  | inl e ↦ rw e (delete-Roomy ch ls h.1)
  | inr e ↦ rw e (h.0, delete-Roomy ch ls h.1)
]

take_first-Roomy : (ch : ℕ) (ls : List Listener) → Roomy ls → Roomy (take_first ch ls)
unfolding take_first
take_first-Roomy ch [] h = tt
take_first-Roomy ch (l ∷ ls) h = elim (Bool-cases (l.chan == ch)) [
  | inl e ↦ rw e (omega (arith, length-drop 1 l.pending, h.0), take_first-Roomy ch ls h.1)
  | inr e ↦ rw e (h.0, take_first-Roomy ch ls h.1)
]

-- The log has been given this text so far.
pub record Holds (all : Bytes) (m : MemLogger) : Type 0 where
  pub tail : IsTail all m.buf
  pub bounded : length m.buf ≤ max_mem_log_size
  pub roomy : Roomy m.listeners

write_log-Holds : (p all : Bytes) (m : MemLogger) → Holds all m → Holds (all ++ p) (write_log p m)
unfolding write_log
write_log-Holds [] all m h = rw (append-nil all) h
write_log-Holds (c ∷ p) all m h = record {
  tail =
      write_buf-IsTail (c ∷ p) all (truncate_if_needed (length (c ∷ p)) m.buf)
        (truncate-IsTail (length (c ∷ p)) all m.buf h.tail);
  bounded = write_buf-bound (c ∷ p) (truncate_if_needed (length (c ∷ p)) m.buf);
  roomy = notify-Roomy (c ∷ p) m.listeners h.roomy;
}

run_from :
    (cs : List Call) (all : Bytes) (m : MemLogger)
    → Holds all m
    → Holds (all ++ written cs) (run cs m)
unfolding run call
run_from [] all m h = rw (append-nil all) h
run_from (writes p ∷ cs) all m h =
    rw (← append_assoc all p (written cs))
      (run_from cs (all ++ p) (write_log p m) (write_log-Holds p all m h))
run_from (subscribes ch ∷ cs) all m h =
    run_from cs all (call (subscribes ch) m)
      (record { tail = h.tail; bounded = h.bounded; roomy = (omega arith, h.roomy) })
run_from (cancels ch ∷ cs) all m h =
    run_from cs all (call (cancels ch) m)
      (record { tail = h.tail; bounded = h.bounded; roomy = delete-Roomy ch m.listeners h.roomy })
run_from (receives ch ∷ cs) all m h =
    run_from cs all (call (receives ch) m) (record {
      tail = h.tail;
      bounded = h.bounded;
      roomy = take_first-Roomy ch m.listeners h.roomy;
    })

-- After any calls, the buffer is the end of all that was written, at most `max_mem_log_size` long; it
-- is the whole text unless it is at least `truncate_size` long; and no channel of a listener holds
-- more messages than `listener_chan_buf_size`.
pub run-Holds : (cs : List Call) → Holds (written cs) (run cs new_mem_logger)
unfolding new_mem_logger
run-Holds cs = run_from cs [] new_mem_logger (record {
  tail = record { older = []; split_up = refl; enough = inr refl };
  bounded = omega arith;
  roomy = tt;
})
