-- ===== src/Tracer/Range/Reach.antt =====
-- Every event that the programs of internal/bpf/tracer.c submit is in the ranges of its types.
use litrace.Prelude.{ℕ, ◌<◌, ◌^◌}
use litrace.Maps.{Map}
use litrace.Tracer.State.{Env, Tracer}
use litrace.Tracer.Steps.{IsKernel, Step, enter, exit, sched_exit, Reach, start, next}
use litrace.Tracer.Invariant.Exit.{snapshot-ok}
use litrace.Tracer.Invariant.Reachable.{Reach-Inv}
use litrace.Tracer.Range.{IsMachine}
use litrace.Tracer.Range.Sized.{
  EnterWords, Sized, init-Sized, trace_sys_enter-Sized, trace_sched_process_exit-Sized,
}
use litrace.Tracer.Range.Exit.{trace_sys_exit-Sized}

module _ (env : Env) (targets : Map ℕ) (Taken : ℕ → ℕ → Type 0) where
  abbrev Words : {s t : Tracer} → Step env Taken s t → Type 0
  Words (enter c ctx h) = EnterWords c ctx
  Words (exit c ctx h records) = IsMachine c × (ctx.ret < 2 ^ 64)
  Words (sched_exit c) = Unit

  abbrev pub AllWords : {s : Tracer} → Reach env Taken targets s → Type 0
  AllWords start = Unit
  AllWords (next r st) = AllWords r × Words st

module _ (env : Env) (targets : Map ℕ) (Taken : ℕ → ℕ → Type 0) (k : IsKernel env) where
  -- If the clock, the read helpers and the calls' contexts hold what their types hold, in every
  -- reachable state the calls in flight, the stored snapshots and all submitted events do too.
  pub Reach-Sized :
      {s : Tracer} (r : Reach env Taken targets s) → AllWords env targets Taken r → Sized s
  Reach-Sized start words = init-Sized targets
  Reach-Sized (next {s} r (enter c ctx h)) (before, words) =
      trace_sys_enter-Sized env k c ctx s words (Reach-Sized r before)
  Reach-Sized (next {s} r (exit c ctx h records)) (before, (m, ret)) =
      trace_sys_exit-Sized env k c ctx s h m ret
        (snapshot-ok env targets Taken k c s (Reach-Inv env targets Taken k r))
        (Reach-Sized r before)
  Reach-Sized (next {s} r (sched_exit c)) (before, words) =
      trace_sched_process_exit-Sized env k c s (Reach-Sized r before)
