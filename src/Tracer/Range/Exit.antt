-- ===== src/Tracer/Range/Exit.antt =====
-- The exit program keeps the ranges.
use litrace.Prelude.{◌<◌, ◌≡◌, ◌^◌, refl, sym, arith, ◌==◌, ◌||◌, if-intro, Option-intro}
use mathlib.Core.Path.{subst}
use litrace.Types.{SyscallData, SysExitArgs}
use litrace.Syscalls.{nr_execve, nr_exit, nr_exit_group}
use litrace.User.{Call, IsHelper}
use litrace.Maps.{delete-MapOk}
use litrace.Decode.Reads.{All}
use litrace.Tracer.State.{Env, Tracer, tgid_of, tid_of, track_child_process}
use litrace.Tracer.Exit.Event.{exit_event}
use litrace.Tracer.Exit.Parts.{AllSnapshots}
use litrace.Tracer.Exit.WellFormed.{exit_event-IsWellFormed}
use litrace.Tracer.Exit.Emit.{exit_cleanup, exit_emit, exit_traced, trace_sys_exit}
use litrace.Tracer.Steps.{IsKernel}
use litrace.Tracer.Range.{IsMachine}
use litrace.Tracer.Range.Event.{StateInRange, exit_event-InRange}
use litrace.Tracer.Range.Sized.{Sized, same-Sized, cleanup_tid_state-Sized}

module _ (env : Env) (k : IsKernel env) (c : Call) where
  drop_inflight-Sized :
      (s : Tracer)
      → Sized s
      → Sized (record s { inflight_syscalls = env.inflight.delete (tid_of c) s.inflight_syscalls })
  drop_inflight-Sized s z = record {
    inflight = delete-MapOk _ _ z.inflight k.inflight (tid_of c);
    snapshots = z.snapshots;
    events = z.events;
  }

  drop_snapshot-Sized :
      (s : Tracer)
      → Sized s
      → Sized (record s { execve_snapshots = env.snapshots.delete (tid_of c) s.execve_snapshots })
  drop_snapshot-Sized s z = record {
    inflight = z.inflight;
    snapshots = delete-MapOk _ _ z.snapshots k.snapshots (tid_of c);
    events = z.events;
  }

  exit_cleanup-Sized :
      (state : SyscallData) (s : Tracer) → Sized s → Sized (exit_cleanup env c state s)
  unfolding exit_cleanup
  exit_cleanup-Sized state s z =
      let cleaned = cleanup_tid_state-Sized env k c (tid_of c) s z in
      if-intro Sized (state.syscall_id == nr_exit || state.syscall_id == nr_exit_group)
        (λ ends.
          if-intro Sized (state.syscall_id == nr_exit_group)
            (λ group. same-Sized env k c _ _ refl refl refl cleaned) (λ thread. cleaned))
        (λ other. z)

  module _ (ctx : SysExitArgs) (state : SyscallData) (h : IsHelper c) (m : IsMachine c)
      (ret : ctx.ret < 2 ^ 64) (sized : StateInRange state) where
    exit_emit-Sized :
        (s : Tracer)
        → AllSnapshots (s.execve_snapshots (tid_of c))
        → Sized s
        → Sized (exit_emit env c ctx state s)
    unfolding exit_emit All
    exit_emit-Sized s ok z =
        let snapshot = s.execve_snapshots (tid_of c) in
        let e = exit_event env.headers c ctx state snapshot in
        let e_ =
          exit_event-InRange env.headers c ctx state snapshot m ret sized (z.snapshots (tid_of c))
            (exit_event-IsWellFormed env.headers c ctx state snapshot h k.headers ok) in
        let dropped =
          if-intro Sized (state.syscall_id == nr_execve) (λ execve. drop_snapshot-Sized s z)
            (λ other. z) in
        let cleared = drop_inflight-Sized _ dropped in
        exit_cleanup-Sized state _ (record {
          inflight = cleared.inflight;
          snapshots = cleared.snapshots;
          events = (e_, cleared.events);
        })

    track_child_process-snapshots :
        (s : Tracer)
        → (track_child_process env c state ctx.ret s).execve_snapshots ≡ s.execve_snapshots
    unfolding track_child_process
    track_child_process-snapshots s = ground arith

    track_child_process-Sized :
        (s : Tracer) → Sized s → Sized (track_child_process env c state ctx.ret s)
    unfolding track_child_process
    track_child_process-Sized s z =
        same-Sized env k c s _ (ground arith) (ground arith) (ground arith) z

    exit_traced-Sized :
        (s : Tracer)
        → AllSnapshots (s.execve_snapshots (tid_of c))
        → Sized s
        → Sized (exit_traced env c ctx state s)
    unfolding exit_traced
    exit_traced-Sized s ok z =
        let tracked = track_child_process-Sized s z in
        if-intro Sized (state.selected == 0) (λ unselected. drop_inflight-Sized _ tracked)
          λ selected.
            if-intro Sized c.ring_has_room
              (λ room.
                exit_emit-Sized _
                  (subst (λ snaps. AllSnapshots (snaps (tid_of c)))
                    (sym (track_child_process-snapshots s)) ok)
                  tracked)
              (λ full. tracked)

  pub trace_sys_exit-Sized :
      (ctx : SysExitArgs) (s : Tracer)
      → IsHelper c
      → IsMachine c
      → ctx.ret < 2 ^ 64
      → AllSnapshots (s.execve_snapshots (tid_of c))
      → Sized s
      → Sized (trace_sys_exit env c ctx s)
  unfolding trace_sys_exit
  trace_sys_exit-Sized ctx s h m ret ok z =
      Option-intro Sized (s.target_pids (tgid_of c)) (λ untraced. z)
        λ v traced.
          Option-intro Sized (s.inflight_syscalls (tid_of c)) (λ absent. z)
            λ state found.
              exit_traced-Sized ctx state h m ret (z.inflight (tid_of c) state found) s ok z
