-- ===== src/Tests/Traced.antt =====
-- Examples of the theorems that join the programs and the loop.
use litrace.Prelude.{
  ℕ, ◌≡◌, ◌&&◌, ◌==◌, ◌^◌, ◌<◌, refl, arith, [], ◌∷◌, true, false, none, List, Option, leb,
  if-intro,
}
use litrace.Types.{Event}
use litrace.Decode.Reads.{All}
use litrace.Tracer.State.{Tracer, track_child_process}
use litrace.Clone.{is_process_clone}
use litrace.Tracer.Enter.{
  selection, entered, next_seq, enter_selected, enter_execve, trace_sys_enter,
}
use litrace.Tracer.Exit.Event.{exit_event}
use litrace.Tracer.Exit.Emit.{exit_cleanup, exit_emit, exit_traced, trace_sys_exit}
use litrace.Tracer.Steps.{init, Records, Reach, start, next, enter, exit}
use litrace.Tracer.Range.{ReadsBytes, IsMachine, replicate-All}
use litrace.Tracer.Range.Sized.{EnterWords, Sized}
use litrace.Tracer.Range.Reach.{AllWords, Reach-Sized}
use litrace.PathFilter.Config.{Config, new_path_filter}
use litrace.Run.{Loop, run_loop}
use litrace.Run.Shown.{Step, Outcome, records}
use litrace.Run.Traced.{events_in, in_order, Reach-Outcome}
use litrace.Tests.{call, call-IsHelper, headers, env, env-IsKernel, targets, openat, returned}

call-IsMachine : IsMachine (call true)
unfolding All
call-IsMachine = record {
  read_user = λ size ptr.
      if-intro ReadsBytes (ptr == 0) (λ null. tt)
        (λ mapped. replicate-All (λ b. b < 2 ^ 8) size 0 (omega arith));
  read_user_str = λ size ptr.
      if-intro ReadsBytes (leb 3 size && (ptr == 4096))
        (λ fits. (omega arith, (omega arith, (omega arith, tt)))) (λ lost. tt);
}

abbrev opening : Tracer
opening = trace_sys_enter env (call true) openat (init targets)

abbrev opened_once : Tracer
opened_once = trace_sys_exit env (call true) returned opening

-- Whatever process 7 creates is its child.
abbrev Born : ℕ → ℕ → Type 0
Born p q = p ≡ 7

opening-Records : Records env Born (call true) returned opening
opening-Records follow state found made positive = refl

abbrev opened_once-Reach : Reach env Born targets opened_once
opened_once-Reach =
    next (next start (enter (call true) openat (call-IsHelper true)))
      (exit (call true) returned (call-IsHelper true) opening-Records)

openat-Words : EnterWords (call true) openat
unfolding All
openat-Words = (
  call-IsMachine,
  omega arith,
  omega arith,
  (omega arith, (omega arith, (omega arith, (omega arith, (omega arith, (omega arith, tt)))))),
  refl,
)

opened_once-AllWords : AllWords env targets Born opened_once-Reach
opened_once-AllWords = ((tt, openat-Words), (call-IsMachine, omega arith))

abbrev the_event : Event
the_event = exit_event headers (call true) returned (entered (call true) openat 1 1) none

opened_once_events : opened_once.events ≡ the_event ∷ []
unfolding trace_sys_enter selection enter_selected enter_execve trace_sys_exit exit_traced exit_emit
    exit_cleanup track_child_process is_process_clone entered next_seq
opened_once_events = refl

abbrev everything : Config
everything = record { trace_paths = []; trace_syscall_ids = []; follow_forks = false }

abbrev begun : Loop
begun = record { filter = new_path_filter everything; summary = []; printed = [] }

abbrev unknown : ℕ → Option (List ℕ)
unknown pid = none

abbrev steps : List Step
steps = (unknown, the_event) ∷ []

steps_complete : events_in steps ≡ in_order opened_once.events
steps_complete = rw opened_once_events refl

Reach-Outcome_example : Outcome false begun (run_loop false (records steps) begun) steps
Reach-Outcome_example =
    Reach-Outcome env targets Born opened_once opened_once-Reach false steps begun env-IsKernel
      opened_once-AllWords steps_complete

Reach-Sized_example : Sized opened_once
Reach-Sized_example =
    Reach-Sized env targets Born env-IsKernel opened_once-Reach opened_once-AllWords
