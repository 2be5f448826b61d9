-- ===== src/Tracer/Filter.antt =====
-- What trace_sys_enter decides about a system call of a traced process.
use litrace.Prelude.{
  ℕ, ◌≡◌, ◌≢◌, inl, inr, arith, Option, none, some, ◌==◌, List, if-intro, Option-intro,
}
use litrace.Types.{u32}
use litrace.User.{Call, fault}
use litrace.Clone.{should_track_unselected_syscall}
use litrace.Clone.Spec.{ForkFamily, should_track_unselected_syscall-ForkFamily}
use litrace.Tracer.State.{Env}
use litrace.Tracer.Enter.{selection}
use litrace.Tracer.Invariant.{Chosen}

-- `some 1` is a call to be reported, `some 0` one that is only followed, `none` one to be ignored.
pub data Decision (env : Env) (id : ℕ) : Option ℕ → Type 0 where
  report : Chosen env id → Decision env id (some 1)
  follow : ¬ Chosen env id → env.follow_forks ≢ 0 → ForkFamily id → Decision env id (some 0)
  ignore : ¬ Chosen env id → ¬ ((env.follow_forks ≢ 0) × ForkFamily id) → Decision env id none

-- If address 0 cannot be read, a system call is reported exactly if no filter is set or the filter
-- holds it; otherwise it is followed exactly if forks are followed and it is fork, vfork, clone or
-- clone3; and every other call is ignored.
pub selection-Decision :
    (env : Env) (c : Call) (id : ℕ) (left : List ℕ)
    → c.read_user 8 0 ≡ fault left
    → Decision env id (selection env c id)
unfolding selection
selection-Decision env c id left unreadable =
    let P = Decision env id in
    let tracked =
      should_track_unselected_syscall-ForkFamily env.headers c env.follow_forks id left
        unreadable in
    if-intro P (env.trace_filter_enabled == 0) (λ off. report (inl (ground arith)))
      λ on.
        Option-intro P (env.trace_syscall_filter (u32 id))
          (λ absent.
            let not_chosen : ¬ Chosen env id = λ chosen. elim chosen [
              | inl off ↦ absurd (ground arith)
              | inr (v, present) ↦ absurd (cc)
            ] in
            if-intro P (should_track_unselected_syscall env.headers c env.follow_forks id == 0)
              (λ zero_. ignore not_chosen (λ both. tracked.1 both (ground arith)))
              (λ one.
                let (follows, family) = tracked.0 (ground arith) in
                follow not_chosen follows family))
          λ v present. report (inr (v, present))
