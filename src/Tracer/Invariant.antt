-- ===== src/Tracer/Invariant.antt =====
-- What holds in every state that the programs of internal/bpf/tracer.c can reach.
pub mod Exit
pub mod Reachable
use litrace.Prelude.{
  ℕ, ◌/◌, ◌%◌, ◌^◌, ◌≡◌, ◌≢◌, ◌⊎◌, inl, inr, refl, arith, List, [], ◌∷◌, Bool, true, false, Option,
  none, some, ◌==◌, ◌||◌, if◌then◌else◌, if-intro, Option-intro, get_or, ==_iff, Option-cases,
}
use litrace.Types.{Event, SyscallData, ExecveSnapshot, SysEnterArgs, SysExitArgs, is_positive, u32}
use litrace.Syscalls.{nr_execve}
use litrace.User.{Call, IsHelper}
use litrace.Maps.{Map, MapOk, update-MapOk, delete-MapOk, write_through-MapOk}
use litrace.Capture.Bounds.{IsWellFormed}
use litrace.Execve.{zero_snapshot, take_snapshot}
use litrace.Execve.Bounds.{IsWhole, zero_snapshot-IsWhole, take_snapshot-IsWhole}
use litrace.Clone.{is_process_clone}
use litrace.Tracer.{trace_sched_process_exit}
use litrace.Tracer.State.{Env, Tracer, tgid_of, tid_of, track_child_process, cleanup_tid_state}
use litrace.Tracer.Enter.{selection, entered, enter_execve, enter_selected, trace_sys_enter}
use litrace.Tracer.Exit.Parts.{AllSnapshots}
use litrace.Tracer.Exit.WellFormed.{exit_event-IsWellFormed}
use litrace.Tracer.Steps.{
  IsKernel, init, Records, Step, enter, exit, sched_exit, Reach, start, next, Follows, target,
  taken,
}

abbrev All {ℓ} : {A : Type ℓ} → (A → Type 0) → List A → Type 0
All P [] = Unit
All P (x ∷ xs) = P x × All P xs

-- The filter lets the system call through.
abbrev pub Chosen : Env → ℕ → Type 0
Chosen env id =
    (env.trace_filter_enabled ≡ 0) ⊎ ((v : ℕ) × (env.trace_syscall_filter (u32 id) ≡ some v))

module _ (env : Env) (targets : Map ℕ) (Taken : ℕ → ℕ → Type 0) where
  -- A submitted event can be taken apart, passed the filter, and comes from a traced process.
  pub record EventOk (e : Event) : Type 0 where
    pub well_formed : IsWellFormed e
    pub chosen : Chosen env e.syscall_id
    pub from : Follows targets Taken e.pid

  pub record Inv (s : Tracer) : Type 0 where
    pub pids : MapOk (λ pid v. Follows targets Taken pid) s.target_pids
    pub inflight :
        MapOk (λ tid state. state.selected ≢ 0 → Chosen env state.syscall_id) s.inflight_syscalls
    pub snapshots : MapOk (λ tid snap. IsWhole snap) s.execve_snapshots
    pub events : All EventOk s.events

  init-Inv : Inv (init targets)
  init-Inv = record {
    pids = λ pid v found. target found;
    inflight = λ tid state found. absurd (cc);
    snapshots = λ tid snap found. absurd (cc);
    events = tt;
  }

  module _ (k : IsKernel env) (c : Call) where
    selection-Chosen :
        (id selected : ℕ) → selection env c id ≡ some selected → selected ≢ 0 → Chosen env id
    unfolding selection
    selection-Chosen id selected found on =
        elim (Option-cases (env.trace_syscall_filter (u32 id))) [
          | inl absent ↦ inl (ground arith)
          | inr present ↦ inr present
        ]

    enter_execve-Inv : (ctx : SysEnterArgs) (s : Tracer) → Inv s → Inv (enter_execve env c ctx s)
    unfolding enter_execve
    enter_execve-Inv ctx s inv =
        let path = get_or ctx.args 0 0 in
        let argv = get_or ctx.args 1 0 in
        let P = λ (tid : ℕ) (snap : ExecveSnapshot). IsWhole snap in
        let stored =
          update-MapOk P s.execve_snapshots inv.snapshots k.snapshots (tid_of c) zero_snapshot
            zero_snapshot-IsWhole in
        if-intro Inv (ctx.id == nr_execve)
          (λ execve. record {
            pids = inv.pids;
            inflight = inv.inflight;
            snapshots =
                Option-intro (MapOk P) _ (λ lost. stored)
                  (λ snap found.
                    write_through-MapOk P _ stored (tid_of c) _
                      (take_snapshot-IsWhole c path argv snap (stored (tid_of c) snap found)).0);
            events = inv.events;
          })
          (λ other. inv)

    enter_selected-Inv :
        (ctx : SysEnterArgs) (selected : ℕ) (s : Tracer)
        → (selected ≢ 0 → Chosen env ctx.id)
        → Inv s
        → Inv (enter_selected env c ctx selected s)
    unfolding enter_selected entered
    enter_selected-Inv ctx selected s on inv =
        let inv' = enter_execve-Inv ctx _ (record {
          pids = inv.pids;
          inflight = inv.inflight;
          snapshots = inv.snapshots;
          events = inv.events;
        }) in
        record {
          pids = inv'.pids;
          inflight = update-MapOk _ _ inv'.inflight k.inflight (tid_of c) _ on;
          snapshots = inv'.snapshots;
          events = inv'.events;
        }

    trace_sys_enter-Inv :
        (ctx : SysEnterArgs) (s : Tracer) → Inv s → Inv (trace_sys_enter env c ctx s)
    unfolding trace_sys_enter
    trace_sys_enter-Inv ctx s inv =
        Option-intro Inv (s.target_pids (tgid_of c)) (λ untraced. inv)
          λ v traced.
            Option-intro Inv (selection env c ctx.id) (λ filtered. inv)
              λ selected found.
                enter_selected-Inv ctx selected s (selection-Chosen ctx.id selected found) inv

    cleanup_tid_state-Inv : (tid : ℕ) (s : Tracer) → Inv s → Inv (cleanup_tid_state env tid s)
    unfolding cleanup_tid_state
    cleanup_tid_state-Inv tid s inv = record {
      pids = inv.pids;
      inflight = delete-MapOk _ _ inv.inflight k.inflight tid;
      snapshots = delete-MapOk _ _ inv.snapshots k.snapshots tid;
      events = inv.events;
    }

    drop_pid-Inv :
        (pid : ℕ) (s : Tracer)
        → Inv s
        → Inv (record s { target_pids = env.pids.delete pid s.target_pids })
    drop_pid-Inv pid s inv = record {
      pids = delete-MapOk _ _ inv.pids k.pids pid;
      inflight = inv.inflight;
      snapshots = inv.snapshots;
      events = inv.events;
    }

    trace_sched_process_exit-Inv : (s : Tracer) → Inv s → Inv (trace_sched_process_exit env c s)
    unfolding trace_sched_process_exit
    trace_sched_process_exit-Inv s inv =
        let cleaned = cleanup_tid_state-Inv (tid_of c) s inv in
        Option-intro Inv (s.target_pids (tgid_of c)) (λ untraced. inv)
          λ v traced.
            if-intro Inv (tid_of c == tgid_of c) (λ leader. drop_pid-Inv (tgid_of c) _ cleaned)
              (λ other. cleaned)
