-- ===== src/Tests/Totals.antt =====
-- Examples of the theorems on the summary: a read that fails and two opens.
use litrace.Prelude.{ℕ, ◌≡◌, ◌^◌, ◌-◌, List, [], ◌∷◌, replicate}
use litrace.Types.{Event, zero_desc}
use litrace.Summary.{zero_summary, summary_at, add_totals, summarize}
use litrace.Summary.Counts.{sum, summarize-counts, add_totals-summarize}

abbrev ended : ℕ → ℕ → ℕ → Event
ended id ret dur = record {
  ts = 90;
  dur = dur;
  syscall_id = id;
  ret = ret;
  args = replicate 6 0;
  var_desc = replicate 6 zero_desc;
  payload = replicate 512 0;
  pid = 7;
  tid = 7;
  seq = 1;
  payload_len = 0;
  arg_count = 0;
  var_count = 0;
  arg_types = replicate 6 0;
  event_flags = 0;
}

abbrev run : List Event
run = ended 2 3 40 ∷ ended 0 (2 ^ 64 - 9) 5 ∷ ended 2 4 50 ∷ []

summarize-counts_example :
    summary_at 2 (summarize [] run) ≡ record { calls = 2; errors = 0; total_ns = 90 }
unfolding sum
summarize-counts_example = summarize-counts 2 run

add_totals-summarize_example :
    add_totals zero_summary (summarize [] run) ≡ record { calls = 3; errors = 1; total_ns = 95 }
unfolding sum
add_totals-summarize_example = add_totals-summarize run
