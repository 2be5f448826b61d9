-- ===== src/Tracer/Exit/Emit.antt =====
-- The rest of trace_sys_exit: when an event is submitted, and what is cleaned up.
use litrace.Prelude.{◌∷◌, none, some, ◌==◌, ◌||◌, if◌then◌else◌}
use litrace.Types.{SyscallData, SysExitArgs}
use litrace.Syscalls.{nr_execve, nr_exit, nr_exit_group}
use litrace.User.{Call}
use litrace.Tracer.State.{Env, Tracer, tgid_of, tid_of, track_child_process, cleanup_tid_state}
use litrace.Tracer.Exit.Event.{exit_event}

-- The end of a thread or of a process: the tests on __NR_exit and __NR_exit_group.
unfoldable pub exit_cleanup : Env → Call → SyscallData → Tracer → Tracer
exit_cleanup env c state s =
    let s' = cleanup_tid_state env (tid_of c) s in
    if state.syscall_id == nr_exit || state.syscall_id == nr_exit_group
    then (if state.syscall_id == nr_exit_group
        then record s' { target_pids = env.pids.delete (tgid_of c) s'.target_pids }
        else s')
    else s

-- From the event's first field to the end.
unfoldable pub exit_emit : Env → Call → SysExitArgs → SyscallData → Tracer → Tracer
exit_emit env c ctx state s =
    let e = exit_event env.headers c ctx state (s.execve_snapshots (tid_of c)) in
    let s1 =
      if state.syscall_id == nr_execve
      then record s { execve_snapshots = env.snapshots.delete (tid_of c) s.execve_snapshots }
      else s in
    exit_cleanup env c state (record s1 {
      events = e ∷ s1.events;
      inflight_syscalls = env.inflight.delete (tid_of c) s1.inflight_syscalls;
    })

-- From track_child_process on, for a call that is in flight.
unfoldable pub exit_traced : Env → Call → SysExitArgs → SyscallData → Tracer → Tracer
exit_traced env c ctx state s =
    let s1 = track_child_process env c state ctx.ret s in
    if state.selected == 0
    then record s1 { inflight_syscalls = env.inflight.delete (tid_of c) s1.inflight_syscalls }
    else if c.ring_has_room
    then exit_emit env c ctx state s1
    else s1

unfoldable pub trace_sys_exit : Env → Call → SysExitArgs → Tracer → Tracer
trace_sys_exit env c ctx s = elim (s.target_pids (tgid_of c)) [
  | none ↦ s
  | some _ ↦ elim (s.inflight_syscalls (tid_of c)) [
    | none ↦ s
    | some state ↦ exit_traced env c ctx state s
  ]
]
