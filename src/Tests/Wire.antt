-- ===== src/Tests/Wire.antt =====
-- Examples of the theorems on the bytes of an event.
use litrace.Prelude.{
  ℕ, zero, suc, ◌≡◌, ◌<◌, ◌^◌, ◌↔◌, refl, arith, [], ◌∷◌, ◌++◌, none, some, Option, List, false,
  true, replicate, length-replicate,
}
use litrace.PathFilter.Config.{Config, new_path_filter}
use litrace.Run.{Reading, Loop, run_loop}
use litrace.Run.Reading.{failed, received}
use litrace.Run.Shown.{Step, Outcome, events_of, records, run_loop-Outcome, run_loop-event_bytes}
use litrace.Types.{Event, zero_desc}
use litrace.Decode.{event_bytes, decode_event}
use litrace.Decode.Reads.{All, Fits, InDesc}
use litrace.Decode.Takes.{decode_event-short}
use litrace.Decode.Roundtrip.{InRange, decode_event-event_bytes}

abbrev pub sent : Event
sent = record {
  ts = 90;
  dur = 10;
  syscall_id = 57;
  ret = 8;
  args = replicate 6 300;
  var_desc = replicate 6 zero_desc;
  payload = replicate 512 97;
  pid = 70000;
  tid = 70001;
  seq = 1;
  payload_len = 300;
  arg_count = 6;
  var_count = 1;
  arg_types = replicate 6 1;
  event_flags = 1;
}

All-replicate {ℓ} : {A : Type ℓ} (P : A → Type 0) (n : ℕ) (x : A) → P x → All P (replicate n x)
unfolding All replicate
All-replicate P zero x p = tt
All-replicate P (suc n) x p = (p, All-replicate P n x p)

sent-InRange : InRange sent
unfolding Fits
sent-InRange = record {
  ts = omega arith;
  dur = omega arith;
  syscall_id = omega arith;
  ret = omega arith;
  pid = omega arith;
  tid = omega arith;
  seq = omega arith;
  payload_len = omega arith;
  arg_count = omega arith;
  var_count = omega arith;
  event_flags = omega arith;
  args = All-replicate (λ x. x < 2 ^ 64) 6 300 (omega arith);
  var_desc =
      All-replicate InDesc 6 zero_desc
        (record { arg_index = refl; flags = refl; offset = refl; length = refl; reserved = refl });
  payload = All-replicate (λ x. x < 2 ^ 8) 512 97 (omega arith);
  arg_types = All-replicate (λ x. x < 2 ^ 8) 6 1 (omega arith);
  args_size = length-replicate 6 300;
  var_desc_size = length-replicate 6 zero_desc;
  payload_size = length-replicate 512 97;
  arg_types_size = length-replicate 6 1;
}

decode_event-event_bytes_example : decode_event (event_bytes sent ++ 1 ∷ []) ≡ some sent
decode_event-event_bytes_example = decode_event-event_bytes sent (1 ∷ []) sent-InRange

decode_event-short_example : (decode_event (1 ∷ 2 ∷ []) ≡ none) ↔ (2 < 663)
decode_event-short_example = decode_event-short (1 ∷ 2 ∷ [])

-- A run without filters that has seen nothing yet, and one that only counts.
abbrev everything : Config
everything = record { trace_paths = []; trace_syscall_ids = []; follow_forks = false }

abbrev start : Loop
start = record { filter = new_path_filter everything; summary = []; printed = [] }

abbrev unknown : ℕ → Option (List ℕ)
unknown pid = none

abbrev readings : List Reading
readings = failed ∷ received unknown (1 ∷ 2 ∷ []) ∷ received unknown (event_bytes sent) ∷ []

abbrev steps : List Step
steps = (unknown, sent) ∷ (unknown, sent) ∷ []

run_loop-Outcome_example : Outcome false start (run_loop false readings start) (events_of readings)
run_loop-Outcome_example = run_loop-Outcome false readings start

run_loop-event_bytes_example : Outcome true start (run_loop true (records steps) start) steps
run_loop-event_bytes_example =
    run_loop-event_bytes true steps start (sent-InRange, (sent-InRange, tt))
