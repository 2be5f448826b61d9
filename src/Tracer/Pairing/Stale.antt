-- ===== src/Tracer/Pairing/Stale.antt =====
-- What is left in flight when the ring buffer is full, and the call that it is taken for.
use litrace.Prelude.{
  ℕ, ◌≡◌, ◌≢◌, ◌∙◌, ap, arith, true, false, none, some, ◌==◌, if_false, Option-some,
}
use litrace.Types.{SyscallData, SysEnterArgs, SysExitArgs, u32}
use litrace.User.{Call}
use litrace.Tracer.State.{Env, Tracer, tgid_of, tid_of, track_child_process}
use litrace.Tracer.Enter.{selection, trace_sys_enter}
use litrace.Tracer.Exit.Emit.{exit_emit, exit_traced, trace_sys_exit}
use litrace.Tracer.Pairing.{HasRoom}
use litrace.Tracer.Pairing.Report.{Submitted, trace_sys_exit-Submitted}

module _ (env : Env) where
  -- Without room in the ring buffer the program returns before it deletes the call in flight.
  lost_inflight :
      (c : Call) (ctx : SysExitArgs) (state : SyscallData) (s : Tracer) (v : ℕ)
      → s.target_pids (tgid_of c) ≡ some v
      → s.inflight_syscalls (tid_of c) ≡ some state
      → state.selected ≢ 0
      → c.ring_has_room ≡ false
      → trace_sys_exit env c ctx s ≡ track_child_process env c state ctx.ret s
  unfolding trace_sys_exit exit_traced
  lost_inflight c ctx state s v traced flying on full =
      let t = track_child_process env c state ctx.ret s in
      let P = λ (x : Tracer). x ≡ t in
      Option-some P _ v _ _ traced (
        Option-some P _ state _ _ flying (
          if_false (state.selected == 0) _ _ (ground arith)
          ∙ if_false c.ring_has_room (exit_emit env c ctx state t) t full))

  track_child_process-inflight :
      (c : Call) (state : SyscallData) (ret : ℕ) (s : Tracer)
      → (track_child_process env c state ret s).inflight_syscalls ≡ s.inflight_syscalls
  unfolding track_child_process
  track_child_process-inflight c state ret s = ground arith

  -- A call that the filter rejects leaves no trace of its entry.
  rejected :
      (c : Call) (ctx : SysEnterArgs) (s : Tracer)
      → selection env c ctx.id ≡ none
      → trace_sys_enter env c ctx s ≡ s
  unfolding trace_sys_enter
  rejected c ctx s out = ground arith

  -- If no map is full, the event of a traced process's selected call is lost because the ring buffer
  -- is full, and the thread's next call is one that the filter rejects, then at the exit of this
  -- rejected call, if the process is still traced and there is room in the ring buffer, an event is
  -- submitted after all: it carries the system call, the arguments, the
  -- entry time and the sequence number of the lost call, and the result of the rejected one.
  pub trace_sys_exit-stale :
      (room : HasRoom env) (c c' d : Call) (ctx out : SysExitArgs) (next : SysEnterArgs)
      (state : SyscallData) (s : Tracer) (v w : ℕ)
      → s.target_pids (tgid_of c) ≡ some v
      → s.inflight_syscalls (tid_of c) ≡ some state
      → state.selected ≢ 0
      → c.ring_has_room ≡ false
      → selection env c' next.id ≡ none
      → d.pid_tgid ≡ c.pid_tgid
      → (trace_sys_exit env c ctx s).target_pids (tgid_of d) ≡ some w
      → d.ring_has_room ≡ true
      → Submitted env room d out state
          (trace_sys_enter env c' next (trace_sys_exit env c ctx s))
          (trace_sys_exit env d out (trace_sys_enter env c' next (trace_sys_exit env c ctx s)))
  trace_sys_exit-stale room c c' d ctx out next state s v w traced flying on full skipped same still
        ring =
      let lost = trace_sys_exit env c ctx s in
      let entered_ = trace_sys_enter env c' next lost in
      let quiet : entered_ ≡ lost = rejected c' next lost skipped in
      let kept =
        ap (λ (x : Tracer). x.inflight_syscalls (tid_of d))
          (quiet ∙ lost_inflight c ctx state s v traced flying on full)
        ∙ ap (λ m. m (tid_of d)) (track_child_process-inflight c state ctx.ret s)
        ∙ ap (λ p. s.inflight_syscalls (u32 p)) same
        ∙ flying in
      trace_sys_exit-Submitted env room d out state entered_ w
        (ap (λ (x : Tracer). x.target_pids (tgid_of d)) quiet ∙ still) kept on ring
