-- ===== src/Run/Traced.antt =====
-- The programs of internal/bpf/tracer.c and the loop of Run in internal/run.go together: what is
-- submitted to the ring buffer is what is shown.
use litrace.Prelude.{ℕ, ◌≡◌, sym, [], ◌∷◌, ◌++◌, List, Bool}
use mathlib.Core.Path.{subst}
use litrace.Types.{Event}
use litrace.Maps.{Map}
use litrace.Decode.Reads.{All}
use litrace.Decode.Roundtrip.{InRange}
use litrace.Tracer.State.{Env, Tracer}
use litrace.Tracer.Steps.{IsKernel, Reach}
use litrace.Tracer.Range.Reach.{AllWords, Reach-Sized}
use litrace.Run.{Loop, run_loop}
use litrace.Run.Shown.{Step, Outcome, records, AllInRange, run_loop-event_bytes}

-- The events of a ring buffer, first one first.
abbrev pub in_order : List Event → List Event
in_order [] = []
in_order (e ∷ es) = in_order es ++ e ∷ []

abbrev pub events_in : List Step → List Event
events_in [] = []
events_in ((proc_cwd, ev) ∷ steps) = ev ∷ events_in steps

append-All : (xs ys : List Event) → All InRange xs → All InRange ys → All InRange (xs ++ ys)
unfolding All
append-All [] ys a b = b
append-All (x ∷ xs) ys (here, later) b = (here, append-All xs ys later b)

in_order-All : (es : List Event) → All InRange es → All InRange (in_order es)
unfolding All
in_order-All [] a = tt
in_order-All (e ∷ es) (here, later) = append-All _ _ (in_order-All es later) (here, tt)

AllInRange-events_in : (steps : List Step) → All InRange (events_in steps) → AllInRange steps
unfolding All
AllInRange-events_in [] a = tt
AllInRange-events_in ((proc_cwd, ev) ∷ steps) (here, later) =
    (here, AllInRange-events_in steps later)

-- However the programs are interleaved, if the clock, the read helpers and the calls' contexts hold
-- what their types hold, and the reader gets the bytes of the submitted events in the order in which
-- they were submitted: the loop decodes each of them, and prints, or counts where only a summary is
-- asked for, exactly those that the path filter lets through, in that order, whatever /proc answers.
pub Reach-Outcome :
    (env : Env) (targets : Map ℕ) (Taken : ℕ → ℕ → Type 0) (s : Tracer)
    (r : Reach env Taken targets s) (summary_only : Bool) (steps : List Step) (l : Loop)
    → IsKernel env
    → AllWords env targets Taken r
    → events_in steps ≡ in_order s.events
    → Outcome summary_only l (run_loop summary_only (records steps) l) steps
Reach-Outcome env targets Taken s r summary_only steps l k words received_all =
    run_loop-event_bytes summary_only steps l (
      AllInRange-events_in steps (
        subst (All InRange) (sym received_all)
          (in_order-All s.events (Reach-Sized env targets Taken k r words).events)))
