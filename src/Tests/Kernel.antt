-- ===== src/Tests/Kernel.antt =====
-- Examples of the theorems on the tracer's programs.
use litrace.Prelude.{ℕ, ◌⊎◌, ◌≡◌, ◌≢◌, ◌↔◌, refl, [], true, none}
use litrace.Clone.{is_process_clone}
use litrace.Clone.Spec.{CreatesProcess, is_process_clone-CreatesProcess}
use litrace.Tracer.{trace_sched_process_exit}
use litrace.Tracer.State.{Tracer}
use litrace.Tracer.Enter.{selection, trace_sys_enter}
use litrace.Tracer.Exit.Emit.{trace_sys_exit}
use litrace.Tracer.Exit.Event.{exit_event}
use litrace.Tracer.Exit.Head.{Reports, exit_event-Reports}
use litrace.Tracer.Exit.WellFormed.{exit_event-IsWellFormed}
use litrace.Capture.Bounds.{IsWellFormed}
use litrace.Execve.{zero_snapshot, take_snapshot}
use litrace.Execve.Bounds.{IsWhole, DescribesBoth, zero_snapshot-IsWhole, take_snapshot-IsWhole}
use litrace.Tracer.Steps.{init, Records, Reach, start, next, enter, exit}
use litrace.Tracer.Invariant.{Inv}
use litrace.Tracer.Invariant.Reachable.{Reach-Inv}
use litrace.Tracer.Filter.{Decision, selection-Decision}
use litrace.Tracer.Cleanup.{Cleaned, trace_sched_process_exit-Cleaned}
use litrace.Tests.{
  call, call-IsHelper, headers, headers-IsHeaders, env, env-HasRoom, env-IsKernel, targets,
  fork_enter, opened, forked, returned, fork_exit, in_openat,
}

-- The only child of process 7 is process 8.
abbrev Born : ℕ → ℕ → Type 0
Born p q = (p ≡ 7) × (q ≡ 8)

abbrev forking : Tracer
forking = trace_sys_enter env (call true) fork_enter (init targets)

forking-Records : Records env Born (call true) fork_exit forking
forking-Records follow state found made positive = (refl, refl)

forking-Reach : Reach env Born targets (trace_sys_exit env (call true) fork_exit forking)
forking-Reach =
    next (next start (enter (call true) fork_enter (call-IsHelper true)))
      (exit (call true) fork_exit (call-IsHelper true) forking-Records)

Reach-Inv_example : Inv env targets Born (trace_sys_exit env (call true) fork_exit forking)
Reach-Inv_example = Reach-Inv env targets Born env-IsKernel forking-Reach

exit_event-IsWellFormed_example : IsWellFormed (exit_event headers (call true) returned opened none)
exit_event-IsWellFormed_example =
    exit_event-IsWellFormed headers (call true) returned opened none (call-IsHelper true)
      headers-IsHeaders tt

exit_event-Reports_example :
    Reports headers
      (call true)
      returned
      opened
      (exit_event headers (call true) returned opened none)
exit_event-Reports_example = exit_event-Reports headers (call true) returned opened none

trace_sched_process_exit-Cleaned_example :
    Cleaned 7 7 in_openat (trace_sched_process_exit env (call true) in_openat)
trace_sched_process_exit-Cleaned_example =
    trace_sched_process_exit-Cleaned env env-HasRoom (call true) in_openat 1 refl

take_snapshot-IsWhole_example :
    IsWhole (take_snapshot (call true) 4096 8192 zero_snapshot)
    × (DescribesBoth (take_snapshot (call true) 4096 8192 zero_snapshot)
        × ((zero_snapshot.var_count ≡ 0)
            ⊎ (take_snapshot (call true) 4096 8192 zero_snapshot ≡ zero_snapshot)))
take_snapshot-IsWhole_example =
    take_snapshot-IsWhole (call true) 4096 8192 zero_snapshot zero_snapshot-IsWhole

selection-Decision_example : Decision env 57 (selection env (call true) 57)
selection-Decision_example = selection-Decision env (call true) 57 [] refl

is_process_clone-CreatesProcess_example :
    (is_process_clone headers (call true) forked ≢ 0) ↔ CreatesProcess headers (call true) forked
is_process_clone-CreatesProcess_example = is_process_clone-CreatesProcess headers (call true) forked
