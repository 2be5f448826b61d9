-- ===== src/Tracer/Range/Sized.antt =====
-- The entry program and the end of a thread keep the ranges.
use litrace.Prelude.{
  ℕ, ◌<◌, ◌≡◌, ◌^◌, refl, sym, arith, Option, none, some, ◌==◌, length, if-intro, Option-intro,
  get_or,
}
use mathlib.Core.Path.{subst}
use litrace.Types.{ExecveSnapshot, SysEnterArgs}
use litrace.Syscalls.{nr_execve}
use litrace.User.{Call}
use litrace.Maps.{Map, MapOk, update-MapOk, delete-MapOk, write_through-MapOk}
use litrace.Execve.{zero_snapshot}
use litrace.Decode.Reads.{All}
use litrace.Decode.Roundtrip.{InRange}
use litrace.Tracer.{trace_sched_process_exit}
use litrace.Tracer.State.{Env, Tracer, tgid_of, tid_of, cleanup_tid_state}
use litrace.Tracer.Enter.{
  next_seq, entered, selection, enter_execve, enter_selected, trace_sys_enter,
}
use litrace.Tracer.Steps.{IsKernel, init}
use litrace.Tracer.Range.{IsMachine}
use litrace.Tracer.Range.Snapshot.{SnapshotInRange, zero_snapshot-InRange, take_snapshot-InRange}
use litrace.Tracer.Range.Event.{StateInRange}

-- The kernel hands the programs words: of the clock, of the memory and of the call.
abbrev pub EnterWords : Call → SysEnterArgs → Type 0
EnterWords c ctx =
    IsMachine c
    × (c.now < 2 ^ 64)
    × (ctx.id < 2 ^ 64)
    × All (λ x. x < 2 ^ 64) ctx.args
    × (length ctx.args ≡ 6)

-- What the maps hold and what was submitted is in the ranges of its types.
pub record Sized (s : Tracer) : Type 0 where
  pub inflight : MapOk (λ tid state. StateInRange state) s.inflight_syscalls
  pub snapshots : MapOk (λ tid snap. SnapshotInRange snap) s.execve_snapshots
  pub events : All InRange s.events

pub init-Sized : (targets : Map ℕ) → Sized (init targets)
unfolding All
init-Sized targets = record {
  inflight = λ tid state found. absurd (cc);
  snapshots = λ tid snap found. absurd (cc);
  events = tt;
}

module _ (env : Env) (k : IsKernel env) (c : Call) where
  enter_execve-Sized :
      (ctx : SysEnterArgs) (s : Tracer) → IsMachine c → Sized s → Sized (enter_execve env c ctx s)
  unfolding enter_execve
  enter_execve-Sized ctx s m z =
      let path = get_or ctx.args 0 0 in
      let argv = get_or ctx.args 1 0 in
      let P = λ (tid : ℕ) (snap : ExecveSnapshot). SnapshotInRange snap in
      let stored =
        update-MapOk P s.execve_snapshots z.snapshots k.snapshots (tid_of c) zero_snapshot
          zero_snapshot-InRange in
      if-intro Sized (ctx.id == nr_execve)
        (λ execve. record {
          inflight = z.inflight;
          snapshots =
              Option-intro (MapOk P) _ (λ lost. stored)
                (λ snap found.
                  write_through-MapOk P _ stored (tid_of c) _
                    (take_snapshot-InRange c path argv snap m (stored (tid_of c) snap found)));
          events = z.events;
        })
        (λ other. z)

  next_seq-InRange : (prev : Option ℕ) → next_seq prev < 2 ^ 32
  unfolding next_seq
  next_seq-InRange none = omega arith
  next_seq-InRange (some prev) = omega arith

  enter_selected-Sized :
      (ctx : SysEnterArgs) (selected : ℕ) (s : Tracer)
      → EnterWords c ctx
      → Sized s
      → Sized (enter_selected env c ctx selected s)
  unfolding enter_selected entered
  enter_selected-Sized ctx selected s (m, now, id, args, size) z =
      let z' =
        enter_execve-Sized ctx _ m
          (record { inflight = z.inflight; snapshots = z.snapshots; events = z.events }) in
      record {
        inflight = update-MapOk _ _ z'.inflight k.inflight (tid_of c) _ (record {
          ts = now;
          syscall_id = id;
          args = args;
          args_size = size;
          seq = next_seq-InRange _;
        });
        snapshots = z'.snapshots;
        events = z'.events;
      }

  pub trace_sys_enter-Sized :
      (ctx : SysEnterArgs) (s : Tracer)
      → EnterWords c ctx
      → Sized s
      → Sized (trace_sys_enter env c ctx s)
  unfolding trace_sys_enter
  trace_sys_enter-Sized ctx s words z =
      Option-intro Sized (s.target_pids (tgid_of c)) (λ untraced. z)
        λ v traced.
          Option-intro Sized (selection env c ctx.id) (λ filtered. z)
            λ selected found. enter_selected-Sized ctx selected s words z

  -- Only what stands in these three parts matters.
  pub same-Sized :
      (s t : Tracer)
      → t.inflight_syscalls ≡ s.inflight_syscalls
      → t.execve_snapshots ≡ s.execve_snapshots
      → t.events ≡ s.events
      → Sized s
      → Sized t
  same-Sized s t i p e z = record {
    inflight = subst (MapOk _) (sym i) z.inflight;
    snapshots = subst (MapOk _) (sym p) z.snapshots;
    events = subst (All InRange) (sym e) z.events;
  }

  pub cleanup_tid_state-Sized :
      (tid : ℕ) (s : Tracer) → Sized s → Sized (cleanup_tid_state env tid s)
  unfolding cleanup_tid_state
  cleanup_tid_state-Sized tid s z = record {
    inflight = delete-MapOk _ _ z.inflight k.inflight tid;
    snapshots = delete-MapOk _ _ z.snapshots k.snapshots tid;
    events = z.events;
  }

  pub trace_sched_process_exit-Sized :
      (s : Tracer) → Sized s → Sized (trace_sched_process_exit env c s)
  unfolding trace_sched_process_exit
  trace_sched_process_exit-Sized s z =
      let cleaned = cleanup_tid_state-Sized (tid_of c) s z in
      Option-intro Sized (s.target_pids (tgid_of c)) (λ untraced. z)
        λ v traced.
          if-intro Sized (tid_of c == tgid_of c) (λ leader. same-Sized _ _ refl refl refl cleaned)
            (λ other. cleaned)
