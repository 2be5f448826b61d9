-- ===== src/Tracer/Pairing/Report.antt =====
-- The event of a system call: entered, exited, and reported once.
use litrace.Prelude.{
  ℕ, ◌≡◌, ◌≢◌, sym, ◌∙◌, ap, arith, ◌∷◌, true, none, some, ◌==◌, if_true, if_false, Option-some,
}
use mathlib.Core.Path.{subst}
use litrace.Types.{Event, SyscallData, SysEnterArgs, SysExitArgs}
use litrace.User.{Call}
use litrace.Tracer.State.{Env, Tracer, tgid_of, tid_of, track_child_process, cleanup_tid_state}
use litrace.Tracer.Enter.{selection, next_seq, entered, enter_selected, trace_sys_enter}
use litrace.Tracer.Exit.Event.{exit_event}
use litrace.Tracer.Exit.Emit.{exit_cleanup, exit_emit, exit_traced, trace_sys_exit}
use litrace.Tracer.Exit.Head.{Reports, exit_event-Reports}
use litrace.Tracer.Pairing.{HasRoom, update-here, delete-here}

module _ (env : Env) (room : HasRoom env) where
  -- A traced process's selected call is in flight after trace_sys_enter.
  pub trace_sys_enter-inflight :
      (c : Call) (ctx : SysEnterArgs) (s : Tracer) (v selected : ℕ)
      → s.target_pids (tgid_of c) ≡ some v
      → selection env c ctx.id ≡ some selected
      → (trace_sys_enter env c ctx s).inflight_syscalls (tid_of c)
        ≡ some (entered c ctx (next_seq (s.tid_sequences (tid_of c))) selected)
  unfolding trace_sys_enter enter_selected
  trace_sys_enter-inflight c ctx s v selected traced chosen =
      let P = λ (t : Tracer).
        t.inflight_syscalls (tid_of c)
        ≡ some (entered c ctx (next_seq (s.tid_sequences (tid_of c))) selected) in
      Option-some P _ v _ _ traced (
        Option-some P _ selected _ _ chosen (update-here env.inflight room.inflight _ (tid_of c) _))

  -- An event was added, it reports the call, and nothing of the call is left in flight.
  pub record Submitted (c : Call) (ctx : SysExitArgs) (state : SyscallData) (s t : Tracer)
      : Type 0 where
    pub event : Event
    pub reports : Reports env.headers c ctx state event
    pub added : t.events ≡ event ∷ s.events
    pub finished : t.inflight_syscalls (tid_of c) ≡ none

  exit_cleanup-events :
      (c : Call) (state : SyscallData) (s : Tracer) → (exit_cleanup env c state s).events ≡ s.events
  unfolding exit_cleanup cleanup_tid_state
  exit_cleanup-events c state s = ground arith

  exit_cleanup-finished :
      (c : Call) (state : SyscallData) (s : Tracer)
      → s.inflight_syscalls (tid_of c) ≡ none
      → (exit_cleanup env c state s).inflight_syscalls (tid_of c) ≡ none
  unfolding exit_cleanup cleanup_tid_state
  exit_cleanup-finished c state s done =
      ground (arith, delete-here env.inflight room.inflight s.inflight_syscalls (tid_of c))

  exit_emit-Submitted :
      (c : Call) (ctx : SysExitArgs) (state : SyscallData) (s : Tracer)
      → Submitted c ctx state s (exit_emit env c ctx state s)
  unfolding exit_emit
  exit_emit-Submitted c ctx state s = record {
    event = exit_event env.headers c ctx state (s.execve_snapshots (tid_of c));
    reports = exit_event-Reports env.headers c ctx state (s.execve_snapshots (tid_of c));
    added = exit_cleanup-events c state _ ∙ ground arith;
    finished =
        exit_cleanup-finished c state _ (delete-here env.inflight room.inflight _ (tid_of c));
  }

  track_child_process-events :
      (c : Call) (state : SyscallData) (ret : ℕ) (s : Tracer)
      → (track_child_process env c state ret s).events ≡ s.events
  unfolding track_child_process
  track_child_process-events c state ret s = ground arith

  -- The exit of a selected call in flight, with room in the ring buffer, adds one event.
  pub trace_sys_exit-Submitted :
      (c : Call) (ctx : SysExitArgs) (state : SyscallData) (s : Tracer) (v : ℕ)
      → s.target_pids (tgid_of c) ≡ some v
      → s.inflight_syscalls (tid_of c) ≡ some state
      → state.selected ≢ 0
      → c.ring_has_room ≡ true
      → Submitted c ctx state s (trace_sys_exit env c ctx s)
  unfolding trace_sys_exit exit_traced
  trace_sys_exit-Submitted c ctx state s v traced flying selected ring =
      let P = Submitted c ctx state s in
      let s1 = track_child_process env c state ctx.ret s in
      Option-some P _ v _ _ traced (
        Option-some P _ state _ _ flying (
          subst P
            (sym (
              if_false (state.selected == 0) _ _ (ground arith)
              ∙ if_true c.ring_has_room (exit_emit env c ctx state s1) s1 ring))
            (record {
              event = emitted.event;
              reports = emitted.reports;
              added =
                  emitted.added
                  ∙ ap (λ es. emitted.event ∷ es) (track_child_process-events c state ctx.ret s);
              finished = emitted.finished;
            })))
    where
      emitted :
          Submitted c ctx state
            (track_child_process env c state ctx.ret s)
            (exit_emit env c ctx state (track_child_process env c state ctx.ret s))
      emitted = exit_emit-Submitted c ctx state (track_child_process env c state ctx.ret s)
