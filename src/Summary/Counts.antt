-- ===== src/Summary/Counts.antt =====
-- What the summary of a run's events says.
use litrace.Prelude.{
  ℕ, ◌+◌, ◌≡◌, refl, sym, ◌∙◌, ap, arith, List, [], ◌∷◌, Bool, true, false, ◌==◌, ◌&&◌,
  if◌then◌else◌, length, Bool-cases, inl, inr,
}
use litrace.Types.{Event, is_negative, u64}
use litrace.Summary.{
  SyscallSummary, zero_summary, summary_at, put_summary, count_event, add_summary_event, add_totals,
  summarize,
}

-- The sum of a number over the events.
unfoldable pub sum : (Event → ℕ) → List Event → ℕ
sum f [] = 0
sum f (ev ∷ evs) = f ev + sum f evs

abbrev pub one_if : Bool → ℕ
one_if b = if b then 1 else 0

-- A summary that counts on from `stats`, all modulo 2 ^ 64.
abbrev pub plus : SyscallSummary → ℕ → ℕ → ℕ → SyscallSummary
plus stats calls errors ns = record {
  calls = u64 (stats.calls + calls);
  errors = u64 (stats.errors + errors);
  total_ns = u64 (stats.total_ns + ns);
}

same_summary :
    {s t : SyscallSummary}
    → s.calls ≡ t.calls
    → s.errors ≡ t.errors
    → s.total_ns ≡ t.total_ns
    → s ≡ t
same_summary calls errors ns = λ i. record { calls = calls i; errors = errors i; total_ns = ns i }

-- The counts are below 2 ^ 64.
abbrev InRange : SyscallSummary → Type 0
InRange stats = stats ≡ plus stats 0 0 0

plus-InRange : (stats : SyscallSummary) (calls errors ns : ℕ) → InRange (plus stats calls errors ns)
plus-InRange stats calls errors ns = same_summary (omega arith) (omega arith) (omega arith)

summary_at-put_summary :
    (id j : ℕ) (stats : SyscallSummary) (summary : List (ℕ × SyscallSummary))
    → summary_at j (put_summary id stats summary)
      ≡ (if id == j then stats else summary_at j summary)
unfolding summary_at put_summary
summary_at-put_summary id j stats [] = refl
summary_at-put_summary id j stats ((k, old) ∷ summary) =
    ground (arith, summary_at-put_summary id j stats summary)

plus-count_event :
    (ev : Event) (stats : SyscallSummary) (calls errors ns : ℕ)
    → plus (count_event ev stats) calls errors ns
      ≡ plus stats (1 + calls) (one_if (is_negative ev.ret) + errors) (ev.dur + ns)
unfolding count_event
plus-count_event ev stats calls errors ns = same_summary (omega arith) (ground arith) (omega arith)

count_event-plus :
    (ev : Event) (stats : SyscallSummary) → InRange stats → InRange (count_event ev stats)
unfolding count_event
count_event-plus ev stats small =
    same_summary (omega arith) (ground (arith, ap (λ (t : SyscallSummary). t.errors) small))
      (omega arith)

summarize-plus :
    (id : ℕ) (summary : List (ℕ × SyscallSummary)) (evs : List Event)
    → InRange (summary_at id summary)
    → summary_at id (summarize summary evs)
      ≡ plus
          (summary_at id summary)
          (sum (λ ev. one_if (ev.syscall_id == id)) evs)
          (sum (λ ev. one_if ((ev.syscall_id == id) && is_negative ev.ret)) evs)
          (sum (λ ev. if ev.syscall_id == id then ev.dur else 0) evs)
unfolding summarize sum add_summary_event
summarize-plus id summary [] small = small
summarize-plus id summary (ev ∷ evs) small =
    let s = add_summary_event summary ev in
    let at =
      summary_at-put_summary ev.syscall_id id (count_event ev (summary_at ev.syscall_id summary))
        summary in
    let a = sum (λ ev. one_if (ev.syscall_id == id)) evs in
    let b = sum (λ ev. one_if ((ev.syscall_id == id) && is_negative ev.ret)) evs in
    let c = sum (λ ev. if ev.syscall_id == id then ev.dur else 0) evs in
    elim (Bool-cases (ev.syscall_id == id)) [
      | inl here ↦
          let new : summary_at id s ≡ count_event ev (summary_at id summary) = ground arith in
          let later =
            summarize-plus id s evs
              (new ∙ count_event-plus ev _ small ∙ ap (λ t. plus t 0 0 0) (sym new)) in
          later
          ∙ ap (λ t. plus t a b c) new
          ∙ plus-count_event ev (summary_at id summary) a b c
          ∙ same_summary (ground arith) (ground arith) (ground arith)
      | inr other ↦
          let old : summary_at id s ≡ summary_at id summary = ground arith in
          let later = summarize-plus id s evs (old ∙ small ∙ ap (λ t. plus t 0 0 0) (sym old)) in
          later
          ∙ ap (λ t. plus t a b c) old
          ∙ same_summary (ground arith) (ground arith) (ground arith)
    ]

-- After a run, the entry of a system call counts its events, those of them with a negative result,
-- and their time, each modulo 2 ^ 64.
pub summarize-counts :
    (id : ℕ) (evs : List Event)
    → summary_at id (summarize [] evs)
      ≡ plus zero_summary
          (sum (λ ev. one_if (ev.syscall_id == id)) evs)
          (sum (λ ev. one_if ((ev.syscall_id == id) && is_negative ev.ret)) evs)
          (sum (λ ev. if ev.syscall_id == id then ev.dur else 0) evs)
unfolding summary_at
summarize-counts id evs = summarize-plus id [] evs refl

add_totals-plus :
    (totals : SyscallSummary) (calls errors ns : ℕ) (summary : List (ℕ × SyscallSummary))
    → add_totals (plus totals calls errors ns) summary
      ≡ plus (add_totals totals summary) calls errors ns
unfolding add_totals
add_totals-plus totals calls errors ns [] = refl
add_totals-plus totals calls errors ns ((id, stats) ∷ summary) =
    let next = plus totals stats.calls stats.errors stats.total_ns in
    ap (λ t. add_totals t summary) (same_summary (omega arith) (omega arith) (omega arith))
    ∙ add_totals-plus next calls errors ns summary

add_summary_event-head :
    (ev : Event) (id : ℕ) (stats : SyscallSummary) (summary : List (ℕ × SyscallSummary))
    → (id == ev.syscall_id) ≡ true
    → add_summary_event ((id, stats) ∷ summary) ev ≡ (id, count_event ev stats) ∷ summary
unfolding add_summary_event put_summary summary_at
add_summary_event-head ev id stats summary same = ground arith

add_summary_event-tail :
    (ev : Event) (id : ℕ) (stats : SyscallSummary) (summary : List (ℕ × SyscallSummary))
    → (id == ev.syscall_id) ≡ false
    → add_summary_event ((id, stats) ∷ summary) ev ≡ (id, stats) ∷ add_summary_event summary ev
unfolding add_summary_event put_summary summary_at
add_summary_event-tail ev id stats summary other = ground arith

add_totals-put_summary :
    (totals : SyscallSummary) (ev : Event) (summary : List (ℕ × SyscallSummary))
    → add_totals totals (add_summary_event summary ev)
      ≡ plus (add_totals totals summary) 1 (one_if (is_negative ev.ret)) ev.dur
unfolding add_totals add_summary_event put_summary summary_at count_event
add_totals-put_summary totals ev [] = same_summary (omega arith) (ground arith) (omega arith)
add_totals-put_summary totals ev ((id, stats) ∷ summary) =
    let next = plus totals stats.calls stats.errors stats.total_ns in
    let e = one_if (is_negative ev.ret) in
    let rest = add_totals-put_summary next ev summary in
    let counted = count_event ev stats in
    let added : plus totals counted.calls counted.errors counted.total_ns ≡ plus next 1 e ev.dur =
      same_summary (omega arith) (ground arith) (omega arith) in
    let here = ap (λ t. add_totals t summary) added ∙ add_totals-plus next 1 e ev.dur summary in
    elim (Bool-cases (id == ev.syscall_id)) [
      | inl same ↦ ap (add_totals totals) (add_summary_event-head ev id stats summary same) ∙ here
      | inr other ↦ ap (add_totals totals) (add_summary_event-tail ev id stats summary other) ∙ rest
    ]

add_totals-from :
    (summary : List (ℕ × SyscallSummary)) (evs : List Event)
    → InRange (add_totals zero_summary summary)
    → add_totals zero_summary (summarize summary evs)
      ≡ plus
          (add_totals zero_summary summary)
          (length evs)
          (sum (λ ev. one_if (is_negative ev.ret)) evs)
          (sum (λ ev. ev.dur) evs)
unfolding summarize sum
add_totals-from summary [] small = small
add_totals-from summary (ev ∷ evs) small =
    let next = add_totals-put_summary zero_summary ev summary in
    let e = one_if (is_negative ev.ret) in
    let a = length evs in
    let b = sum (λ ev. one_if (is_negative ev.ret)) evs in
    let c = sum (λ ev. ev.dur) evs in
    let now = add_totals zero_summary summary in
    add_totals-from (add_summary_event summary ev) evs
      (next ∙ plus-InRange now 1 e ev.dur ∙ ap (λ t. plus t 0 0 0) (sym next))
    ∙ ap (λ t. plus t a b c) next
    ∙ same_summary (omega arith) (omega arith) (omega arith)

-- The total line of the summary counts every event of the run, every negative result, and all the
-- time, each modulo 2 ^ 64.
pub add_totals-summarize :
    (evs : List Event)
    → add_totals zero_summary (summarize [] evs)
      ≡ plus zero_summary
          (length evs)
          (sum (λ ev. one_if (is_negative ev.ret)) evs)
          (sum (λ ev. ev.dur) evs)
unfolding add_totals
add_totals-summarize evs = add_totals-from [] evs refl
