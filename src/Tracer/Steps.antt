-- ===== src/Tracer/Steps.antt =====
-- The runs of the three programs of internal/bpf/tracer.c, in any order and on any threads.
use litrace.Prelude.{ℕ, ◌≡◌, ◌≢◌, [], none, some, true}
use litrace.Types.{SyscallData, SysEnterArgs, SysExitArgs, is_positive, u32}
use litrace.User.{Call, IsHelper}
use litrace.Maps.{Map, IsMap}
use litrace.Clone.{is_process_clone}
use litrace.Tracer.{trace_sched_process_exit}
use litrace.Tracer.State.{Env, Tracer, first_read, tgid_of, tid_of}
use litrace.Tracer.Enter.{trace_sys_enter}
use litrace.Tracer.Exit.Emit.{trace_sys_exit}
use litrace.Tracer.Exit.WellFormed.{IsHeaders}

-- What is relied on of the kernel: its maps behave as documented, its structures are not empty.
pub record IsKernel (env : Env) : Type 0 where
  pub pids : IsMap env.pids
  pub inflight : IsMap env.inflight
  pub snapshots : IsMap env.snapshots
  pub sequences : IsMap env.sequences
  pub headers : IsHeaders env.headers

-- The state after internal/bpf/handle.go has put the target processes into their map.
abbrev pub init : Map ℕ → Tracer
init targets = record {
  target_pids = targets;
  inflight_syscalls = λ _. none;
  execve_snapshots = λ _. none;
  tid_sequences = λ _. none;
  events = [];
}

module _ (env : Env) (Taken : ℕ → ℕ → Type 0) where
  -- Under follow_forks, `Taken` has the positive result of every exit at which a call that creates
  -- a process is in flight. It is the pid of a child if the call in flight is the one that exits. If
  -- the exit of the call in flight could not be reported, it may be the result of any later call.
  abbrev pub Records : Call → SysExitArgs → Tracer → Type 0
  Records c ctx s =
      env.follow_forks ≢ 0
      → (state : SyscallData) → s.inflight_syscalls (tid_of c) ≡ some state
      → is_process_clone env.headers (first_read c) state ≢ 0
      → is_positive ctx.ret ≡ true
      → Taken (tgid_of c) (u32 ctx.ret)

  pub data Step (s : Tracer) : Tracer → Type 0 where
    enter : (c : Call) (ctx : SysEnterArgs) → IsHelper c → Step s (trace_sys_enter env c ctx s)
    exit :
        (c : Call) (ctx : SysExitArgs)
        → IsHelper c
        → Records c ctx s
        → Step s (trace_sys_exit env c ctx s)
    sched_exit : (c : Call) → Step s (trace_sched_process_exit env c s)

  pub data Reach (targets : Map ℕ) : Tracer → Type 0 where
    start : Reach targets (init targets)
    next : {s t : Tracer} → Reach targets s → Step s t → Reach targets t

-- A target process, or one that was reached from a target by results that were taken for a child's.
pub data Follows (targets : Map ℕ) (Taken : ℕ → ℕ → Type 0) : ℕ → Type 0 where
  target : {p v : ℕ} → targets p ≡ some v → Follows targets Taken p
  taken : {p q : ℕ} → Follows targets Taken p → Taken p q → Follows targets Taken q
