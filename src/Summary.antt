-- ===== src/Summary.antt =====
-- internal/summary.go, and the sums of internal/format_summary.go. The map from system calls to their
-- counts is a list of pairs; Go's order of iteration over it is the list's.
pub mod Counts
use litrace.Prelude.{ℕ, ◌+◌, ◌/◌, ◌%◌, ◌^◌, List, [], ◌∷◌, Bool, ◌==◌, if◌then◌else◌}
use litrace.Types.{Event, is_negative, u64}

pub record SyscallSummary : Type 0 where
  pub calls : ℕ
  pub errors : ℕ
  pub total_ns : ℕ

abbrev pub zero_summary : SyscallSummary
zero_summary = record { calls = 0; errors = 0; total_ns = 0 }

-- `summary[id]`, zero for a missing key.
unfoldable pub summary_at : ℕ → List (ℕ × SyscallSummary) → SyscallSummary
summary_at id [] = zero_summary
summary_at id ((j, stats) ∷ summary) = if j == id then stats else summary_at id summary

-- `summary[id] = stats`
unfoldable pub put_summary :
    ℕ → SyscallSummary → List (ℕ × SyscallSummary) → List (ℕ × SyscallSummary)
put_summary id stats [] = (id, stats) ∷ []
put_summary id stats ((j, old) ∷ summary) =
    if j == id then (j, stats) ∷ summary else (j, old) ∷ put_summary id stats summary

unfoldable pub count_event : Event → SyscallSummary → SyscallSummary
count_event ev stats = record {
  calls = u64 (stats.calls + 1);
  errors = if is_negative ev.ret then u64 (stats.errors + 1) else stats.errors;
  total_ns = u64 (stats.total_ns + ev.dur);
}

unfoldable pub add_summary_event : List (ℕ × SyscallSummary) → Event → List (ℕ × SyscallSummary)
add_summary_event summary ev =
    put_summary ev.syscall_id (count_event ev (summary_at ev.syscall_id summary)) summary

-- The three sums of FormatSummary, over the entries that are left.
unfoldable pub add_totals : SyscallSummary → List (ℕ × SyscallSummary) → SyscallSummary
add_totals totals [] = totals
add_totals totals ((id, stats) ∷ summary) =
    add_totals
      (record {
        calls = u64 (totals.calls + stats.calls);
        errors = u64 (totals.errors + stats.errors);
        total_ns = u64 (totals.total_ns + stats.total_ns);
      })
      summary

unfoldable pub summary_usecs_per_call : ℕ → ℕ → ℕ
summary_usecs_per_call total_ns calls = if calls == 0 then 0 else total_ns / 1000 / calls

-- The events of a run, one after the other.
unfoldable pub summarize : List (ℕ × SyscallSummary) → List Event → List (ℕ × SyscallSummary)
summarize summary [] = summary
summarize summary (ev ∷ evs) = summarize (add_summary_event summary ev) evs
