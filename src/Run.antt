-- ===== src/Run.antt =====
-- The loop of Run in internal/run.go: each record of the ring buffer is decoded, filtered, and printed
-- or counted. Printing a line is keeping its event; messages to the standard error are left out.
pub mod Shown
pub mod Traced
use litrace.Prelude.{ℕ, List, [], ◌∷◌, ◌++◌, Bool, Option, none, some, if◌then◌else◌}
use litrace.Types.{Event}
use litrace.Decode.{decode_event}
use litrace.Summary.{SyscallSummary, add_summary_event}
use litrace.PathFilter.{PathFilter}
use litrace.PathFilter.Output.{should_output}

-- What ReadEvent returns: an error that does not close the reader, or a record, here with what /proc
-- answers while it is handled.
pub data Reading : Type 0 where
  failed : Reading
  received : (ℕ → Option (List ℕ)) → List ℕ → Reading

-- The variables of the loop, and the events whose lines were printed, in order.
pub record Loop : Type 0 where
  pub filter : PathFilter
  pub summary : List (ℕ × SyscallSummary)
  pub printed : List Event

-- Behind the filter.
unfoldable pub output : Bool → Event → Loop → Loop
output summary_only ev s =
    if summary_only
    then record s { summary = add_summary_event s.summary ev }
    else record s { printed = s.printed ++ ev ∷ [] }

unfoldable pub filtered : Bool → Event → Bool × PathFilter → Loop → Loop
filtered summary_only ev (pass, f) s =
    let next = record s { filter = f } in if pass then output summary_only ev next else next

unfoldable pub decoded : Bool → (ℕ → Option (List ℕ)) → Option Event → Loop → Loop
decoded summary_only proc_cwd none s = s
decoded summary_only proc_cwd (some ev) s =
    filtered summary_only ev (should_output proc_cwd s.filter ev) s

unfoldable pub handle_reading : Bool → Reading → Loop → Loop
handle_reading summary_only failed s = s
handle_reading summary_only (received proc_cwd raw) s =
    decoded summary_only proc_cwd (decode_event raw) s

unfoldable pub run_loop : Bool → List Reading → Loop → Loop
run_loop summary_only [] s = s
run_loop summary_only (reading ∷ readings) s =
    run_loop summary_only readings (handle_reading summary_only reading s)
