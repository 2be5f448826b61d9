-- ===== src/Tracer/Cleanup.antt =====
-- trace_sched_process_exit leaves nothing of a thread behind, and nothing else is touched.
use litrace.Prelude.{ℕ, ◌≡◌, ◌≢◌, refl, arith, none, some, ◌==◌, if-intro, Option-some}
use litrace.User.{Call}
use litrace.Tracer.{trace_sched_process_exit}
use litrace.Tracer.State.{Env, Tracer, tgid_of, tid_of, cleanup_tid_state}
use litrace.Tracer.Pairing.{HasRoom, delete-here, delete-elsewhere}

-- The thread `tid` of process `tgid` is gone, with the process if it is its leader; all other
-- threads and processes, and the events, are as before.
pub record Cleaned (tid tgid : ℕ) (s t : Tracer) : Type 0 where
  pub inflight_gone : t.inflight_syscalls tid ≡ none
  pub snapshot_gone : t.execve_snapshots tid ≡ none
  pub sequence_gone : t.tid_sequences tid ≡ none
  pub leader_gone : tid ≡ tgid → t.target_pids tgid ≡ none
  pub pids_kept : (p : ℕ) → (tid ≢ tgid) → t.target_pids p ≡ s.target_pids p
  pub others_traced : (p : ℕ) → tgid ≢ p → t.target_pids p ≡ s.target_pids p
  pub others_inflight : (j : ℕ) → tid ≢ j → t.inflight_syscalls j ≡ s.inflight_syscalls j
  pub others_snapshot : (j : ℕ) → tid ≢ j → t.execve_snapshots j ≡ s.execve_snapshots j
  pub others_sequence : (j : ℕ) → tid ≢ j → t.tid_sequences j ≡ s.tid_sequences j
  pub events_kept : t.events ≡ s.events

-- If no map is full, the exit of a thread of a traced process removes its call in flight, its
-- execve snapshot and its sequence number, removes the process from the targets exactly when the
-- thread is the process's leader, and changes nothing of other threads, processes and the events.
pub trace_sched_process_exit-Cleaned :
    (env : Env) (room : HasRoom env) (c : Call) (s : Tracer) (v : ℕ)
    → s.target_pids (tgid_of c) ≡ some v
    → Cleaned (tid_of c) (tgid_of c) s (trace_sched_process_exit env c s)
unfolding trace_sched_process_exit cleanup_tid_state
trace_sched_process_exit-Cleaned env room c s v traced =
    let tid = tid_of c in
    let tgid = tgid_of c in
    let inflight = delete-elsewhere env.inflight room.inflight s.inflight_syscalls tid in
    let snapshots = delete-elsewhere env.snapshots room.snapshots s.execve_snapshots tid in
    let sequences = delete-elsewhere env.sequences room.sequences s.tid_sequences tid in
    Option-some (Cleaned tid tgid s) _ v _ _ traced (
      if-intro (Cleaned tid tgid s) (tid == tgid)
        (λ leader. record {
          inflight_gone = delete-here env.inflight room.inflight _ tid;
          snapshot_gone = delete-here env.snapshots room.snapshots _ tid;
          sequence_gone = delete-here env.sequences room.sequences _ tid;
          leader_gone = λ e. delete-here env.pids room.pids _ tgid;
          pids_kept = λ p other. absurd (ground arith);
          others_traced = λ p other. delete-elsewhere env.pids room.pids _ tgid p other;
          others_inflight = inflight;
          others_snapshot = snapshots;
          others_sequence = sequences;
          events_kept = refl;
        })
        (λ member. record {
          inflight_gone = delete-here env.inflight room.inflight _ tid;
          snapshot_gone = delete-here env.snapshots room.snapshots _ tid;
          sequence_gone = delete-here env.sequences room.sequences _ tid;
          leader_gone = λ e. absurd (ground arith);
          pids_kept = λ p other. refl;
          others_traced = λ p other. refl;
          others_inflight = inflight;
          others_snapshot = snapshots;
          others_sequence = sequences;
          events_kept = refl;
        }))
