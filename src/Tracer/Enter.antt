-- ===== src/Tracer/Enter.antt =====
-- trace_sys_enter of internal/bpf/tracer.c.
use litrace.Prelude.{ℕ, ◌+◌, Option, none, some, ◌==◌, if◌then◌else◌, get_or}
use litrace.Types.{SyscallData, SysEnterArgs, u32}
use litrace.Syscalls.{nr_execve}
use litrace.User.{Call}
use litrace.Maps.{write_through}
use litrace.Execve.{zero_snapshot, take_snapshot}
use litrace.Clone.{should_track_unselected_syscall}
use litrace.Tracer.State.{Env, Tracer, tgid_of, tid_of}

-- `selected`, or no value where the program returns because of the filter.
unfoldable pub selection : Env → Call → ℕ → Option ℕ
selection env c id =
    if env.trace_filter_enabled == 0 then some 1 else elim (env.trace_syscall_filter (u32 id)) [
      | some _ ↦ some 1
      | none ↦
          if should_track_unselected_syscall env.headers c env.follow_forks id == 0
          then none
          else some 0
    ]

-- `next_seq = *prev_seq + 1`, or 1
unfoldable pub next_seq : Option ℕ → ℕ
next_seq none = 1
next_seq (some prev_seq) = u32 (prev_seq + 1)

-- The `struct syscall_data` of the call that is entered.
unfoldable pub entered : Call → SysEnterArgs → ℕ → ℕ → SyscallData
entered c ctx seq selected = record {
  ts = c.now;
  syscall_id = ctx.id;
  args = ctx.args;
  seq = seq;
  selected = selected;
}

-- `if (ctx->id == __NR_execve) { … }`: a zeroed snapshot is stored, looked up and filled in place.
unfoldable pub enter_execve : Env → Call → SysEnterArgs → Tracer → Tracer
enter_execve env c ctx s =
    let stored = env.snapshots.update (tid_of c) zero_snapshot s.execve_snapshots in
    if ctx.id == nr_execve
    then record s {
      execve_snapshots = elim (stored (tid_of c)) [
        | none ↦ stored
        | some snapshot ↦
            write_through (tid_of c)
              (take_snapshot c (get_or ctx.args 0 0) (get_or ctx.args 1 0) snapshot) stored
      ];
    }
    else s

-- From the update of `tid_sequences` to the end.
unfoldable pub enter_selected : Env → Call → SysEnterArgs → ℕ → Tracer → Tracer
enter_selected env c ctx selected s =
    let seq = next_seq (s.tid_sequences (tid_of c)) in
    let s1 = record s { tid_sequences = env.sequences.update (tid_of c) seq s.tid_sequences } in
    let s2 = enter_execve env c ctx s1 in
    record s2 {
      inflight_syscalls =
          env.inflight.update (tid_of c) (entered c ctx seq selected) s2.inflight_syscalls;
    }

unfoldable pub trace_sys_enter : Env → Call → SysEnterArgs → Tracer → Tracer
trace_sys_enter env c ctx s = elim (s.target_pids (tgid_of c)) [
  | none ↦ s
  | some _ ↦ elim (selection env c ctx.id) [
    | none ↦ s
    | some selected ↦ enter_selected env c ctx selected s
  ]
]
