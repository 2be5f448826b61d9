-- ===== src/Tracer/Pairing.antt =====
-- Entry and exit of one system call belong together, whatever other threads do in between.
pub mod Report
pub mod Stale
use litrace.Prelude.{
  ℕ, ◌/◌, ◌%◌, ◌^◌, ◌+◌, ◌-◌, ◌≡◌, ◌≢◌, ◌↔◌, refl, sym, ◌∙◌, ap, arith, List, [], ◌∷◌, Bool, true,
  false, Option, none, some, ◌==◌, ◌||◌, if◌then◌else◌, if-intro, if_true, if_false, Option-intro,
  Option-cases, ==_refl, inl, inr, get_or,
}
use mathlib.Core.Path.{subst}
use litrace.Types.{Event, SyscallData, SysEnterArgs, SysExitArgs, is_positive, u32, u64}
use litrace.Syscalls.{nr_execve, nr_exit, nr_exit_group}
use litrace.User.{Call}
use litrace.Maps.{MapOps, IsRoomy}
use litrace.Clone.{is_process_clone}
use litrace.Tracer.{trace_sched_process_exit}
use litrace.Tracer.State.{Env, Tracer, tgid_of, tid_of, track_child_process, cleanup_tid_state}
use litrace.Tracer.Enter.{
  selection, next_seq, entered, enter_execve, enter_selected, trace_sys_enter,
}
use litrace.Tracer.Exit.Event.{exit_event}
use litrace.Tracer.Exit.Emit.{exit_cleanup, exit_emit, exit_traced, trace_sys_exit}
use litrace.Tracer.Exit.Head.{Reports, exit_event-Reports}

-- No map is full, so no update fails and no pair is evicted.
pub record HasRoom (env : Env) : Type 0 where
  pub pids : IsRoomy env.pids
  pub inflight : IsRoomy env.inflight
  pub snapshots : IsRoomy env.snapshots
  pub sequences : IsRoomy env.sequences

module _ {V : Type 0} (ops : MapOps V) (room : IsRoomy ops) (m : ℕ → Option V) where
  pub update-elsewhere : (k j : ℕ) (v : V) → k ≢ j → ops.update k v m j ≡ m j
  update-elsewhere k j v other = ground (arith, room.lookup-update k j v m)

  pub delete-elsewhere : (k j : ℕ) → k ≢ j → ops.delete k m j ≡ m j
  delete-elsewhere k j other = ground (arith, room.lookup-delete k j m)

  pub update-here : (k : ℕ) (v : V) → ops.update k v m k ≡ some v
  update-here k v = ground (arith, room.lookup-update k k v m)

  pub delete-here : (k : ℕ) → ops.delete k m k ≡ none
  delete-here k = ground (arith, room.lookup-delete k k m)

module _ (env : Env) where
  -- One program on a thread other than `tid`.
  pub data Elsewhere (tid : ℕ) (s : Tracer) : Tracer → Type 0 where
    enter :
        (c : Call) (ctx : SysEnterArgs)
        → tid_of c ≢ tid
        → Elsewhere tid s (trace_sys_enter env c ctx s)
    exit :
        (c : Call) (ctx : SysExitArgs)
        → tid_of c ≢ tid
        → Elsewhere tid s (trace_sys_exit env c ctx s)
    sched_exit : (c : Call) → tid_of c ≢ tid → Elsewhere tid s (trace_sched_process_exit env c s)

  pub data Interlude (tid : ℕ) (s : Tracer) : Tracer → Type 0 where
    here : Interlude tid s s
    next : {t u : Tracer} → Interlude tid s t → Elsewhere tid t u → Interlude tid s u

  module _ (room : HasRoom env) (tid : ℕ) (s : Tracer) where
    -- The thread's call in flight is what it was in `s`.
    abbrev Kept : Tracer → Type 0
    Kept t = t.inflight_syscalls tid ≡ s.inflight_syscalls tid

    enter_execve-Kept :
        (c : Call) (ctx : SysEnterArgs) (t : Tracer) → Kept t → Kept (enter_execve env c ctx t)
    unfolding enter_execve
    enter_execve-Kept c ctx t k = if-intro Kept (ctx.id == nr_execve) (λ yes_. k) (λ no_. k)

    enter-Kept :
        (c : Call) (ctx : SysEnterArgs) → tid_of c ≢ tid → Kept (trace_sys_enter env c ctx s)
    unfolding trace_sys_enter enter_selected
    enter-Kept c ctx other =
        Option-intro Kept (s.target_pids (tgid_of c)) (λ _. refl)
          λ v _.
            Option-intro Kept (selection env c ctx.id) (λ _. refl)
              λ selected _.
                update-elsewhere env.inflight room.inflight _ (tid_of c) tid _ other
                ∙ enter_execve-Kept c ctx _ refl

    cleanup_tid_state-Kept :
        (k : ℕ) (t : Tracer) → k ≢ tid → Kept t → Kept (cleanup_tid_state env k t)
    unfolding cleanup_tid_state
    cleanup_tid_state-Kept k t other kept =
        delete-elsewhere env.inflight room.inflight t.inflight_syscalls k tid other ∙ kept

    sched_exit-Kept : (c : Call) → tid_of c ≢ tid → Kept (trace_sched_process_exit env c s)
    unfolding trace_sched_process_exit
    sched_exit-Kept c other =
        let cleaned = cleanup_tid_state-Kept (tid_of c) s other refl in
        Option-intro Kept (s.target_pids (tgid_of c)) (λ _. refl)
          λ v _. if-intro Kept (tid_of c == tgid_of c) (λ _. cleaned) (λ _. cleaned)

    track_child_process-Kept :
        (c : Call) (state : SyscallData) (ret : ℕ) → Kept (track_child_process env c state ret s)
    unfolding track_child_process
    track_child_process-Kept c state ret = ground arith

    exit_cleanup-Kept :
        (c : Call) (state : SyscallData) (t : Tracer)
        → tid_of c ≢ tid
        → Kept t
        → Kept (exit_cleanup env c state t)
    unfolding exit_cleanup
    exit_cleanup-Kept c state t other kept =
        let cleaned = cleanup_tid_state-Kept (tid_of c) t other kept in
        if-intro Kept (state.syscall_id == nr_exit || state.syscall_id == nr_exit_group)
          (λ _. if-intro Kept (state.syscall_id == nr_exit_group) (λ _. cleaned) (λ _. cleaned))
          (λ _. kept)

    exit_emit-Kept :
        (c : Call) (ctx : SysExitArgs) (state : SyscallData) (t : Tracer)
        → tid_of c ≢ tid
        → Kept t
        → Kept (exit_emit env c ctx state t)
    unfolding exit_emit
    exit_emit-Kept c ctx state t other kept =
        let dropped = if-intro Kept (state.syscall_id == nr_execve) (λ _. kept) (λ _. kept) in
        exit_cleanup-Kept c state _ other
          (delete-elsewhere env.inflight room.inflight _ (tid_of c) tid other ∙ dropped)

    exit-Kept : (c : Call) (ctx : SysExitArgs) → tid_of c ≢ tid → Kept (trace_sys_exit env c ctx s)
    unfolding trace_sys_exit exit_traced
    exit-Kept c ctx other =
        Option-intro Kept (s.target_pids (tgid_of c)) (λ _. refl)
          λ v _.
            Option-intro Kept (s.inflight_syscalls (tid_of c)) (λ _. refl)
              λ state _.
                let tracked = track_child_process-Kept c state ctx.ret in
                if-intro Kept (state.selected == 0)
                  (λ _.
                    delete-elsewhere env.inflight room.inflight _ (tid_of c) tid other ∙ tracked)
                  λ _.
                    if-intro Kept c.ring_has_room (λ _. exit_emit-Kept c ctx state _ other tracked)
                      (λ _. tracked)

  Elsewhere-inflight :
      (room : HasRoom env) (tid : ℕ) {s t : Tracer}
      → Elsewhere tid s t
      → t.inflight_syscalls tid ≡ s.inflight_syscalls tid
  Elsewhere-inflight room tid {s} (enter c ctx other) = enter-Kept room tid s c ctx other
  Elsewhere-inflight room tid {s} (exit c ctx other) = exit-Kept room tid s c ctx other
  Elsewhere-inflight room tid {s} (sched_exit c other) = sched_exit-Kept room tid s c other

  -- Programs that run on other threads leave a thread's call in flight alone.
  pub Interlude-inflight :
      (room : HasRoom env) (tid : ℕ) {s t : Tracer}
      → Interlude tid s t
      → t.inflight_syscalls tid ≡ s.inflight_syscalls tid
  Interlude-inflight room tid here = refl
  Interlude-inflight room tid (next r step) =
      Elsewhere-inflight room tid step ∙ Interlude-inflight room tid r
