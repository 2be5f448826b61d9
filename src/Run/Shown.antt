-- ===== src/Run/Shown.antt =====
-- What the loop prints or counts, said of the events alone.
use litrace.Prelude.{
  ℕ, ◌≡◌, refl, ◌∙◌, ap, arith, List, [], ◌∷◌, ◌++◌, Bool, Option, none, some, if◌then◌else◌, ◌&&◌,
  not,
}
use mathlib.Core.Path.{subst}
use litrace.Types.{Event}
use litrace.Decode.{decode_event, event_bytes}
use litrace.Decode.Roundtrip.{InRange, decode_event-event_bytes}
use litrace.Summary.{add_summary_event, summarize}
use litrace.PathFilter.{PathFilter}
use litrace.PathFilter.Output.{should_output}
use litrace.PathFilter.Config.Run.{after}
use litrace.Run.{Reading, Loop, output, filtered, decoded, handle_reading, run_loop}
use litrace.Run.Reading.{failed, received}

abbrev pub Step : Type 0
Step = (ℕ → Option (List ℕ)) × Event

unfoldable pub keep_decoded : (ℕ → Option (List ℕ)) → Option Event → List Step → List Step
keep_decoded proc_cwd none steps = steps
keep_decoded proc_cwd (some ev) steps = (proc_cwd, ev) ∷ steps

-- The events of the records that can be decoded.
unfoldable pub events_of : List Reading → List Step
events_of [] = []
events_of (failed ∷ readings) = events_of readings
events_of (received proc_cwd raw ∷ readings) =
    keep_decoded proc_cwd (decode_event raw) (events_of readings)

-- The events that the path filter lets through.
unfoldable pub shown : PathFilter → List Step → List Event
shown f [] = []
shown f ((proc_cwd, ev) ∷ steps) =
    let rest = shown (should_output proc_cwd f ev).1 steps in
    if (should_output proc_cwd f ev).0 then ev ∷ rest else rest

-- What a run leaves, on the events that it decoded.
pub record Outcome (summary_only : Bool) (s t : Loop) (steps : List Step) : Type 0 where
  pub filter : t.filter ≡ after s.filter steps
  pub summary :
      t.summary ≡ (if summary_only then summarize s.summary (shown s.filter steps) else s.summary)
  pub printed : t.printed ≡ (if summary_only then s.printed else s.printed ++ shown s.filter steps)

-- The records of these events, and that their fields are in range.
abbrev pub records : List Step → List Reading
records [] = []
records ((proc_cwd, ev) ∷ steps) = received proc_cwd (event_bytes ev ++ []) ∷ records steps

abbrev pub AllInRange : List Step → Type 0
AllInRange [] = Unit
AllInRange ((proc_cwd, ev) ∷ steps) = InRange ev × AllInRange steps

append_nil : (xs : List Event) → xs ++ [] ≡ xs
append_nil [] = refl
append_nil (x ∷ xs) = ap (λ l. x ∷ l) (append_nil xs)

append_one : (xs ys : List Event) (ev : Event) → (xs ++ ev ∷ []) ++ ys ≡ xs ++ ev ∷ ys
append_one [] ys ev = refl
append_one (x ∷ xs) ys ev = ap (λ l. x ∷ l) (append_one xs ys ev)

filtered-filter :
    (summary_only : Bool) (ev : Event) (r : Bool × PathFilter) (s : Loop)
    → (filtered summary_only ev r s).filter ≡ r.1
unfolding filtered output
filtered-filter summary_only ev r s = ground arith

filtered-summary :
    (summary_only : Bool) (ev : Event) (r : Bool × PathFilter) (s : Loop)
    → (filtered summary_only ev r s).summary
      ≡ (if r.0 && summary_only then add_summary_event s.summary ev else s.summary)
unfolding filtered output
filtered-summary summary_only ev r s = ground arith

filtered-printed :
    (summary_only : Bool) (ev : Event) (r : Bool × PathFilter) (s : Loop)
    → (filtered summary_only ev r s).printed
      ≡ (if r.0 && not summary_only then s.printed ++ ev ∷ [] else s.printed)
unfolding filtered output
filtered-printed summary_only ev r s = ground arith

-- One event, if the rest of the run goes as stated.
filtered-Outcome :
    (summary_only : Bool) (proc_cwd : ℕ → Option (List ℕ)) (ev : Event) (s u : Loop)
    (steps : List Step)
    → Outcome summary_only (filtered summary_only ev (should_output proc_cwd s.filter ev) s) u steps
    → Outcome summary_only s u ((proc_cwd, ev) ∷ steps)
unfolding after shown summarize
filtered-Outcome summary_only proc_cwd ev s u steps o =
    let r = should_output proc_cwd s.filter ev in
    let t = filtered summary_only ev r s in
    let same = filtered-filter summary_only ev r s in
    let seen : shown t.filter steps ≡ shown r.1 steps = ap (λ f. shown f steps) same in
    record {
      filter = o.filter ∙ ap (λ f. after f steps) same;
      summary = ground (arith, o.summary, filtered-summary summary_only ev r s, seen);
      printed = ground (
        arith,
        o.printed,
        filtered-printed summary_only ev r s,
        seen,
        append_one s.printed (shown r.1 steps) ev,
      );
    }

decoded-Outcome :
    (summary_only : Bool) (proc_cwd : ℕ → Option (List ℕ)) (readings : List Reading) (s : Loop)
    (o : Option Event)
    → ((t : Loop) → Outcome summary_only t (run_loop summary_only readings t) (events_of readings))
    → Outcome summary_only s
        (run_loop summary_only readings (decoded summary_only proc_cwd o s))
        (keep_decoded proc_cwd o (events_of readings))
unfolding decoded keep_decoded
decoded-Outcome summary_only proc_cwd readings s none later = later s
decoded-Outcome summary_only proc_cwd readings s (some ev) later =
    filtered-Outcome summary_only proc_cwd ev s _ _ (later _)

-- The loop prints, or counts where only a summary is asked for, exactly the events that the path
-- filter lets through, in the order in which they arrive; failed reads and records that cannot be
-- decoded are passed over, and change neither the filter nor what is shown.
pub run_loop-Outcome :
    (summary_only : Bool) (readings : List Reading) (s : Loop)
    → Outcome summary_only s (run_loop summary_only readings s) (events_of readings)
unfolding run_loop handle_reading events_of after shown summarize
run_loop-Outcome summary_only [] s = record {
  filter = refl;
  summary = ground arith;
  printed = ground (arith, append_nil s.printed);
}
run_loop-Outcome summary_only (failed ∷ readings) s = run_loop-Outcome summary_only readings s
run_loop-Outcome summary_only (received proc_cwd raw ∷ readings) s =
    decoded-Outcome summary_only proc_cwd readings s (decode_event raw)
      (run_loop-Outcome summary_only readings)

events_of-event_bytes : (steps : List Step) → AllInRange steps → events_of (records steps) ≡ steps
unfolding events_of keep_decoded
events_of-event_bytes [] r = refl
events_of-event_bytes ((proc_cwd, ev) ∷ steps) (here, later) =
    ap (λ o. keep_decoded proc_cwd o (events_of (records steps)))
      (decode_event-event_bytes ev [] here)
    ∙ ap (λ rest. (proc_cwd, ev) ∷ rest) (events_of-event_bytes steps later)

-- If every record is the bytes of an event whose fields are in range, the loop prints, or counts,
-- exactly those of these events that the path filter lets through, in their order.
pub run_loop-event_bytes :
    (summary_only : Bool) (steps : List Step) (s : Loop)
    → AllInRange steps
    → Outcome summary_only s (run_loop summary_only (records steps) s) steps
run_loop-event_bytes summary_only steps s r =
    subst (Outcome summary_only s (run_loop summary_only (records steps) s))
      (events_of-event_bytes steps r) (run_loop-Outcome summary_only (records steps) s)
