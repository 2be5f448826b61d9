-- ===== src/Tracer/Invariant/Exit.antt =====
-- The exit program keeps the invariant, and what follows for every reachable state.
use litrace.Prelude.{
  ℕ, ◌≡◌, ◌≢◌, inl, inr, arith, ◌∷◌, true, ◌==◌, ◌||◌, if-intro, Option-intro, Option-cases, sym,
}
use litrace.Types.{Event, SyscallData, SysExitArgs, is_positive, u32}
use litrace.Syscalls.{nr_execve, nr_exit, nr_exit_group}
use litrace.User.{Call, IsHelper}
use litrace.Maps.{Map, update-MapOk, delete-MapOk}
use litrace.Clone.{is_process_clone}
use litrace.Tracer.State.{Env, Tracer, first_read, tgid_of, tid_of, track_child_process}
use litrace.Tracer.Exit.Event.{exit_event}
use litrace.Tracer.Exit.Emit.{exit_cleanup, exit_emit, exit_traced, trace_sys_exit}
use mathlib.Core.Path.{subst}
use litrace.Tracer.Exit.Head.{exit_event-Reports}
use litrace.Tracer.Exit.Parts.{AllSnapshots}
use litrace.Tracer.Exit.WellFormed.{exit_event-IsWellFormed}
use litrace.Tracer.Steps.{IsKernel, Records, Follows, taken}
use litrace.Tracer.Invariant.{Chosen, EventOk, Inv, cleanup_tid_state-Inv, drop_pid-Inv}

module _ (env : Env) (targets : Map ℕ) (Taken : ℕ → ℕ → Type 0) (k : IsKernel env) (c : Call) where
  track_child_process-Inv :
      (state : SyscallData) (ret : ℕ) (s : Tracer)
      → Follows targets Taken (tgid_of c)
      → (env.follow_forks ≢ 0
          → is_process_clone env.headers (first_read c) state ≢ 0
          → is_positive ret ≡ true
          → Taken (tgid_of c) (u32 ret))
      → Inv env targets Taken s
      → Inv env targets Taken (track_child_process env c state ret s)
  unfolding track_child_process
  track_child_process-Inv state ret s from records inv =
      if-intro (Inv env targets Taken) (is_positive ret)
        (λ positive.
          if-intro (Inv env targets Taken) (is_process_clone env.headers (first_read c) state == 0)
            (λ same. inv)
            λ process.
              if-intro (Inv env targets Taken) (env.follow_forks == 0) (λ off. inv)
                λ follow. record {
                  pids =
                      update-MapOk _ _ inv.pids k.pids (u32 ret) 1
                        (taken from (records (ground arith) (ground arith) positive));
                  inflight = inv.inflight;
                  snapshots = inv.snapshots;
                  events = inv.events;
                })
        (λ failed. inv)

  drop_inflight-Inv :
      (s : Tracer)
      → Inv env targets Taken s
      → Inv env targets Taken
          (record s { inflight_syscalls = env.inflight.delete (tid_of c) s.inflight_syscalls })
  drop_inflight-Inv s inv = record {
    pids = inv.pids;
    inflight = delete-MapOk _ _ inv.inflight k.inflight (tid_of c);
    snapshots = inv.snapshots;
    events = inv.events;
  }

  drop_snapshot-Inv :
      (s : Tracer)
      → Inv env targets Taken s
      → Inv env targets Taken
          (record s { execve_snapshots = env.snapshots.delete (tid_of c) s.execve_snapshots })
  drop_snapshot-Inv s inv = record {
    pids = inv.pids;
    inflight = inv.inflight;
    snapshots = delete-MapOk _ _ inv.snapshots k.snapshots (tid_of c);
    events = inv.events;
  }

  submit-Inv :
      (e : Event) (s : Tracer)
      → EventOk env targets Taken e
      → Inv env targets Taken s
      → Inv env targets Taken (record s { events = e ∷ s.events })
  submit-Inv e s ok inv = record {
    pids = inv.pids;
    inflight = inv.inflight;
    snapshots = inv.snapshots;
    events = (ok, inv.events);
  }

  module _ (ctx : SysExitArgs) (state : SyscallData) (s : Tracer)
      (inv : Inv env targets Taken s) where
    exit_cleanup-Inv : Inv env targets Taken (exit_cleanup env c state s)
    unfolding exit_cleanup
    exit_cleanup-Inv =
        let cleaned = cleanup_tid_state-Inv env targets Taken k c (tid_of c) s inv in
        if-intro (Inv env targets Taken)
          (state.syscall_id == nr_exit || state.syscall_id == nr_exit_group)
          (λ ends.
            if-intro (Inv env targets Taken) (state.syscall_id == nr_exit_group)
              (λ group. drop_pid-Inv env targets Taken k c (tgid_of c) _ cleaned)
              (λ thread. cleaned))
          (λ other. inv)

  pub snapshot-ok :
      (s : Tracer) → Inv env targets Taken s → AllSnapshots (s.execve_snapshots (tid_of c))
  snapshot-ok s inv = elim (Option-cases (s.execve_snapshots (tid_of c))) [
    | inl absent ↦ subst AllSnapshots (sym absent) tt
    | inr (snap, present) ↦
        subst AllSnapshots (sym present) (inv.snapshots (tid_of c) snap present).shape
  ]

  module _ (ctx : SysExitArgs) (state : SyscallData) (h : IsHelper c)
      (from : Follows targets Taken (tgid_of c)) where
    exit_event-EventOk :
        (s : Tracer)
        → Chosen env state.syscall_id
        → Inv env targets Taken s
        → EventOk env targets Taken
            (exit_event env.headers c ctx state (s.execve_snapshots (tid_of c)))
    exit_event-EventOk s chosen inv =
        let snap = s.execve_snapshots (tid_of c) in
        let report = exit_event-Reports env.headers c ctx state snap in
        record {
          well_formed =
              exit_event-IsWellFormed env.headers c ctx state snap h k.headers (snapshot-ok s inv);
          chosen = subst (Chosen env) (sym report.syscall_id) chosen;
          from = subst (Follows targets Taken) (sym report.pid) from;
        }

    exit_emit-Inv :
        (s : Tracer)
        → Chosen env state.syscall_id
        → Inv env targets Taken s
        → Inv env targets Taken (exit_emit env c ctx state s)
    unfolding exit_emit
    exit_emit-Inv s chosen inv =
        let e = exit_event env.headers c ctx state (s.execve_snapshots (tid_of c)) in
        let dropped =
          if-intro (Inv env targets Taken) (state.syscall_id == nr_execve)
            (λ execve. drop_snapshot-Inv s inv) (λ other. inv) in
        exit_cleanup-Inv ctx state _
          (submit-Inv e _ (exit_event-EventOk s chosen inv) (drop_inflight-Inv _ dropped))

    exit_traced-Inv :
        (s : Tracer)
        → (state.selected ≢ 0 → Chosen env state.syscall_id)
        → (env.follow_forks ≢ 0
            → is_process_clone env.headers (first_read c) state ≢ 0
            → is_positive ctx.ret ≡ true
            → Taken (tgid_of c) (u32 ctx.ret))
        → Inv env targets Taken s
        → Inv env targets Taken (exit_traced env c ctx state s)
    unfolding exit_traced
    exit_traced-Inv s chosen records inv =
        let tracked = track_child_process-Inv state ctx.ret s from records inv in
        if-intro (Inv env targets Taken) (state.selected == 0)
          (λ unselected. drop_inflight-Inv _ tracked)
          λ selected.
            if-intro (Inv env targets Taken) c.ring_has_room
              (λ room. exit_emit-Inv _ (chosen (ground arith)) tracked) (λ full. tracked)

  pub trace_sys_exit-Inv :
      (ctx : SysExitArgs) (s : Tracer)
      → IsHelper c
      → Records env Taken c ctx s
      → Inv env targets Taken s
      → Inv env targets Taken (trace_sys_exit env c ctx s)
  unfolding trace_sys_exit
  trace_sys_exit-Inv ctx s h records inv =
      Option-intro (Inv env targets Taken) (s.target_pids (tgid_of c)) (λ untraced. inv)
        λ v traced.
          Option-intro (Inv env targets Taken) (s.inflight_syscalls (tid_of c)) (λ absent. inv)
            λ state found.
              exit_traced-Inv ctx state h (inv.pids (tgid_of c) v traced) s
                (inv.inflight (tid_of c) state found)
                (λ follow clone positive. records follow state found clone positive) inv
