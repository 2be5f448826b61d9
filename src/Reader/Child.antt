-- ===== src/Reader/Child.antt =====
-- The tracer and the path filter agree on the children that a call creates.
use litrace.Prelude.{
  ℕ, ◌≡◌, ◌≢◌, ◌⊎◌, ◌↔◌, inl, inr, refl, sym, ◌∙◌, ap, arith, Bool, true, false, Option, none, some,
  ◌==◌, ◌&&◌, ◌||◌, not, if◌then◌else◌, Bool-cases, get_or,
}
use mathlib.Core.Bool.{false≢true}
use litrace.Types.{Event, SyscallData, ExecveSnapshot, SysExitArgs, is_positive, u32}
use litrace.Syscalls.{nr_clone3}
use litrace.User.{Call, KernelHeaders, read_word}
use litrace.Clone.{is_process_clone}
use litrace.Tracer.State.{Env, Tracer, first_read, track_child_process}
use litrace.Tracer.Exit.Event.{exit_event}
use litrace.Tracer.Exit.Head.{exit_event-Reports}
use litrace.Reader.{event_creates_process, process_clone_child_pid}

-- What both sides should take for the child.
abbrev child_of : Bool → ℕ → ℕ → Option ℕ
child_of positive clone ret = if positive && not (clone == 0) then some (u32 ret) else none

event_creates_process-flag :
    (e : Event)
    → (e.event_flags ≡ 0) ⊎ (e.event_flags ≡ 1)
    → (event_creates_process e ≡ true) ↔ (e.event_flags ≡ 1)
unfolding event_creates_process
event_creates_process-flag e (inl zero_) = rw zero_ (λ h. cc, λ h. absurd (omega arith))
event_creates_process-flag e (inr one) = rw one (λ h. refl, λ h. refl)

agree :
    (positive made : Bool) (clone ret : ℕ)
    → (made ≡ true → (positive ≡ true) × (clone ≢ 0))
    → ((positive ≡ true) × (clone ≢ 0) → made ≡ true)
    → (if not positive || not made then none else some (u32 ret)) ≡ child_of positive clone ret
agree true true clone ret from to = ground (arith, (from refl).1)
agree true false clone ret from to = elim (Bool-cases (clone == 0)) [
  | inl zero_ ↦ ground arith
  | inr one ↦ absurd (false≢true (to (refl, ground arith)))
]
agree false made clone ret from to = refl

process_clone_child_pid-child_of :
    (env : Env) (c : Call) (ctx : SysExitArgs) (state : SyscallData)
    (snapshot : Option ExecveSnapshot)
    → process_clone_child_pid (exit_event env.headers c ctx state snapshot)
      ≡ child_of (is_positive ctx.ret) (is_process_clone env.headers c state) ctx.ret
unfolding process_clone_child_pid
process_clone_child_pid-child_of env c ctx state snapshot =
    let e = exit_event env.headers c ctx state snapshot in
    let r = exit_event-Reports env.headers c ctx state snapshot in
    let flag = event_creates_process-flag e r.flags in
    ap (λ x. if not (is_positive x) || not (event_creates_process e) then none else some (u32 x))
      r.ret
    ∙ agree (is_positive ctx.ret) (event_creates_process e) (is_process_clone env.headers c state)
        ctx.ret (λ made. r.process_clone.0 (flag.0 made)) (λ both. flag.1 (r.process_clone.1 both))

-- What the tracer does with a child's pid.
unfoldable pub add_target : Env → Option ℕ → Tracer → Tracer
add_target env none s = s
add_target env (some pid) s = record s { target_pids = env.pids.update pid 1 s.target_pids }

add_target-child_of :
    (env : Env) (positive : Bool) (clone ret follow : ℕ) (s : Tracer)
    → follow ≢ 0
    → (if positive
        then (if clone == 0
            then s
            else if follow == 0
            then s
            else record s { target_pids = env.pids.update (u32 ret) 1 s.target_pids })
        else s)
      ≡ add_target env (child_of positive clone ret) s
unfolding add_target
add_target-child_of env positive clone ret follow s on = ground arith

-- The two reads of the arguments of a clone3, for the target and for the event, give the same.
abbrev pub SameReads : Call → SyscallData → Type 0
SameReads c state =
    state.syscall_id ≡ nr_clone3
    → c.read_user_first 8 (get_or state.args 0 0) ≡ c.read_user 8 (get_or state.args 0 0)

is_process_clone-SameReads :
    (headers : KernelHeaders) (c : Call) (state : SyscallData)
    → SameReads c state
    → is_process_clone headers (first_read c) state ≡ is_process_clone headers c state
unfolding is_process_clone read_word
is_process_clone-SameReads headers c state same =
    elim (Bool-cases (state.syscall_id == nr_clone3)) [
      | inl third ↦ ground (arith, same)
      | inr other ↦ ground arith
    ]

-- If forks are followed, and the memory that holds the arguments of a clone3 reads the same at both
-- of the reads that trace_sys_exit makes of it: what the tracer does about children at the exit of a
-- call is what the reader reads from the call's event. It makes exactly the pid that
-- processCloneChildPID finds a target, and changes nothing where that finds none.
pub process_clone_child_pid-track_child_process :
    (env : Env) (c : Call) (ctx : SysExitArgs) (state : SyscallData)
    (snapshot : Option ExecveSnapshot) (s : Tracer)
    → env.follow_forks ≢ 0
    → SameReads c state
    → track_child_process env c state ctx.ret s
      ≡ add_target env (process_clone_child_pid (exit_event env.headers c ctx state snapshot)) s
unfolding track_child_process
process_clone_child_pid-track_child_process env c ctx state snapshot s follow same =
    add_target-child_of env (is_positive ctx.ret)
      (is_process_clone env.headers (first_read c) state) ctx.ret env.follow_forks s follow
    ∙ ap (λ n. add_target env (child_of (is_positive ctx.ret) n ctx.ret) s)
        (is_process_clone-SameReads env.headers c state same)
    ∙ ap (λ p. add_target env p s) (sym (process_clone_child_pid-child_of env c ctx state snapshot))
