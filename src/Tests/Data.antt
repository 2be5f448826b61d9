-- ===== src/Tests/Data.antt =====
-- Examples of the theorems on the bytes that a call moves.
use litrace.Prelude.{[], ◌∷◌, arith, refl, none, true, replicate}
use litrace.Types.{SyscallData}
use litrace.Tracer.Exit.Event.{exit_event}
use litrace.Reader.Data.{Shows, write, bytes, exit_event-Shows}
use litrace.Tests.{call, call-IsHelper, headers, returned, opened}

-- A write of 300 bytes at address 8192.
abbrev writing : SyscallData
writing = record opened { syscall_id = 1; args = 1 ∷ 8192 ∷ 300 ∷ 0 ∷ 0 ∷ 0 ∷ [] }

exit_event-Shows_example :
    Shows (exit_event headers (call true) returned writing none) 1 300 (replicate 256 0)
exit_event-Shows_example =
    exit_event-Shows headers (call true) returned writing none (replicate 256 0)
      (call-IsHelper true) (write refl) (omega arith) (bytes (omega arith) refl)
