-- ===== src/Tests/Pairing.antt =====
-- Examples of the theorems on the entry and the exit of one system call.
use litrace.Prelude.{◌+◌, ◌*◌, ◌^◌, ◌≡◌, refl, arith, true, false, none, some}
use litrace.User.{Call}
use litrace.Clone.{is_process_clone, should_track_unselected_syscall}
use litrace.Tracer.State.{Tracer, track_child_process}
use litrace.Tracer.Enter.{selection, trace_sys_enter}
use litrace.Tracer.Exit.Emit.{exit_traced, trace_sys_exit}
use litrace.Tracer.Steps.{init}
use litrace.Tracer.Pairing.Report.{Submitted}
use litrace.Tracer.Pairing.Stale.{trace_sys_exit-stale}
use litrace.Tests.{call, env, env-HasRoom, targets, openat, getpid, opened, returned, in_openat}

-- A call of thread 9 of the same process.
abbrev second : Call
second = record (call true) { pid_tgid = 7 * 2 ^ 32 + 9 }

abbrev first_entered : Tracer
first_entered = trace_sys_enter env (call true) openat (init targets)

abbrev both_entered : Tracer
both_entered = trace_sys_enter env second openat first_entered

getpid_ignored : selection env (call true) 39 ≡ none
unfolding selection should_track_unselected_syscall is_process_clone
getpid_ignored = refl

lost_traced : (trace_sys_exit env (call false) returned in_openat).target_pids 7 ≡ some 1
unfolding trace_sys_exit exit_traced track_child_process is_process_clone
lost_traced = refl

trace_sys_exit-stale_example :
    Submitted env env-HasRoom
      (call true)
      returned
      opened
      (trace_sys_enter env (call true) getpid (trace_sys_exit env (call false) returned in_openat))
      (trace_sys_exit env (call true) returned (
        trace_sys_enter env
          (call true)
          getpid
          (trace_sys_exit env (call false) returned in_openat)))
trace_sys_exit-stale_example =
    trace_sys_exit-stale env env-HasRoom (call false) (call true) (call true) returned returned
      getpid opened in_openat 1 1 refl refl (omega arith) refl getpid_ignored refl lost_traced refl
