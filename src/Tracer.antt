-- ===== src/Tracer.antt =====
-- The state of internal/bpf/tracer.c and its three tracepoint programs. A program always returns 0,
-- so each is a function from the state before it to the state after it. The programs of one thread
-- run one after another; a program is one step, and its map accesses take effect in program order.
pub mod State
pub mod Enter
pub mod Exit
pub mod Steps
pub mod Invariant
pub mod Range
pub mod Pairing
pub mod Cleanup
pub mod Filter
use litrace.Prelude.{ℕ, ◌/◌, ◌%◌, ◌^◌, none, some, ◌==◌, if◌then◌else◌}
use litrace.User.{Call}
use State.{Env, Tracer, tgid_of, tid_of, cleanup_tid_state}

-- trace_sched_process_exit
unfoldable pub trace_sched_process_exit : Env → Call → Tracer → Tracer
trace_sched_process_exit env c s = elim (s.target_pids (tgid_of c)) [
  | none ↦ s
  | some _ ↦
      let s' = cleanup_tid_state env (tid_of c) s in
      if tid_of c == tgid_of c
      then record s' { target_pids = env.pids.delete (tgid_of c) s'.target_pids }
      else s'
]
