-- ===== src/Tracer/State.antt =====
-- The maps and constants of internal/bpf/tracer.c, and the helpers on them.
use litrace.Prelude.{ℕ, ◌/◌, ◌^◌, List, ◌==◌, if◌then◌else◌}
use litrace.Types.{Event, ExecveSnapshot, SyscallData, is_positive, u32}
use litrace.User.{Call, KernelHeaders}
use litrace.Maps.{Map, MapOps}
use litrace.Clone.{is_process_clone}

-- The constants set before the programs are loaded, the filter map, which no program writes, and
-- what belongs to the kernel.
pub record Env : Type 0 where
  pub follow_forks : ℕ
  pub trace_filter_enabled : ℕ
  pub trace_syscall_filter : Map ℕ
  pub headers : KernelHeaders
  pub pids : MapOps ℕ
  pub inflight : MapOps SyscallData
  pub snapshots : MapOps ExecveSnapshot
  pub sequences : MapOps ℕ

-- The maps that the programs write, and the events submitted to the ring buffer, last one first.
pub record Tracer : Type 0 where
  pub target_pids : Map ℕ
  pub inflight_syscalls : Map SyscallData
  pub execve_snapshots : Map ExecveSnapshot
  pub tid_sequences : Map ℕ
  pub events : List Event

-- `pid_tgid >> 32` and `(__u32) pid_tgid`
abbrev pub tgid_of : Call → ℕ
tgid_of c = u32 (c.pid_tgid / 2 ^ 32)

abbrev pub tid_of : Call → ℕ
tid_of c = u32 c.pid_tgid

-- The run as track_child_process sees it: with its own read of the clone3 arguments.
abbrev pub first_read : Call → Call
first_read c = record c { read_user = c.read_user_first }

unfoldable pub track_child_process : Env → Call → SyscallData → ℕ → Tracer → Tracer
track_child_process env c state ret s =
    if is_positive ret
    then (if is_process_clone env.headers (first_read c) state == 0
        then s
        else if env.follow_forks == 0
        then s
        else record s { target_pids = env.pids.update (u32 ret) 1 s.target_pids })
    else s

unfoldable pub cleanup_tid_state : Env → ℕ → Tracer → Tracer
cleanup_tid_state env tid s = record s {
  inflight_syscalls = env.inflight.delete tid s.inflight_syscalls;
  execve_snapshots = env.snapshots.delete tid s.execve_snapshots;
  tid_sequences = env.sequences.delete tid s.tid_sequences;
}
