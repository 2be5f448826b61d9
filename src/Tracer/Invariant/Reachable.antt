-- ===== src/Tracer/Invariant/Reachable.antt =====
-- The invariant in every reachable state.
use litrace.Prelude.{ℕ}
use litrace.Maps.{Map}
use litrace.Tracer.State.{Env, Tracer}
use litrace.Tracer.Steps.{IsKernel, Step, enter, exit, sched_exit, Reach, start, next}
use litrace.Tracer.Invariant.{Inv, init-Inv, trace_sys_enter-Inv, trace_sched_process_exit-Inv}
use litrace.Tracer.Invariant.Exit.{trace_sys_exit-Inv}

module _ (env : Env) (targets : Map ℕ) (Taken : ℕ → ℕ → Type 0) (k : IsKernel env) where
  Step-Inv : {s t : Tracer} → Step env Taken s t → Inv env targets Taken s → Inv env targets Taken t
  Step-Inv {s} (enter c ctx h) inv = trace_sys_enter-Inv env targets Taken k c ctx s inv
  Step-Inv {s} (exit c ctx h records) inv =
      trace_sys_exit-Inv env targets Taken k c ctx s h records inv
  Step-Inv {s} (sched_exit c) inv = trace_sched_process_exit-Inv env targets Taken k c s inv

  -- However the three programs are interleaved, and whatever the kernel's helpers and maps do within
  -- their documentation: in every reachable state every selected call in flight passed the filter,
  -- every stored snapshot is whole and well formed, every submitted event is well formed and of a
  -- system call that passed the filter, and every tracked process, and the process of every event, is
  -- a target or was reached from one by a chain of `Taken` pairs. `Taken` is any relation that has, if
  -- forks are followed, the process and the positive result of each exit at which a call that creates
  -- a process is in flight in the thread. Nothing is assumed of that result: it is a child's pid if
  -- the call in flight is the one that exits, but where an earlier call could not be reported and is
  -- still in flight it may be the result of another call.
  pub Reach-Inv : {s : Tracer} → Reach env Taken targets s → Inv env targets Taken s
  Reach-Inv start = init-Inv env targets Taken
  Reach-Inv (next r st) = Step-Inv st (Reach-Inv r)
