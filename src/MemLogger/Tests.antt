-- ===== src/MemLogger/Tests.antt =====
-- Witness for the theorem on the log in memory.
use godoxy.Prelude.{List, [], ◌∷◌}
use godoxy.Prelude.Bytes.{codes}
use godoxy.MemLogger.{Call, writes, subscribes, receives, cancels, run, new_mem_logger}
use godoxy.MemLogger.Recent.{Holds, run-Holds}

abbrev calls : List Call
calls =
    writes (codes "one")
    ∷ subscribes 7
    ∷ writes (codes "two")
    ∷ receives 7
    ∷ cancels 7
    ∷ writes []
    ∷ []

run-Holds_example : Holds (codes "onetwo") (run calls new_mem_logger)
run-Holds_example = run-Holds calls
