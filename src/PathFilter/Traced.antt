-- ===== src/PathFilter/Traced.antt =====
-- From a path in the traced process's memory to a printed event and a tracked descriptor.
use mathlib.Core.Path.{subst}
use litrace.Prelude.{
  ℕ, ◌≡◌, sym, ◌∙◌, ap, inl, inr, refl, arith, List, [], ◌∷◌, true, false, Option, some, none, ◌==◌,
  ◌&&◌, if◌then◌else◌,
}
use litrace.Types.{Event, SyscallData, ExecveSnapshot, SysExitArgs, is_negative}
use litrace.User.{Call, KernelHeaders, IsHelper}
use litrace.Syscalls.{nr_openat}
use litrace.Tracer.Exit.Event.{exit_event}
use litrace.Tracer.Exit.Head.{exit_event-Reports}
use litrace.Tracer.State.{tgid_of}
use litrace.Clone.{is_process_clone}
use litrace.Reader.{event_trace_path_at, event_creates_process, process_clone_child_pid}
use litrace.Reader.Paths.{path_args}
use litrace.Reader.Paths.Found.{IsPath, Listed, exit_event-Gives}
use litrace.FilePath.{is_abs, clean}
use litrace.PathFilter.{PathFilter, fd_path, fd_tracked}
use litrace.PathFilter.Dict.{has_path}
use litrace.PathFilter.Resolve.{resolve_path, resolve_path_at}
use litrace.PathFilter.Observe.{
  learn_fd, with_resolved, observe, observe_process_clone, observe_open, observe_call,
}
use litrace.PathFilter.Output.{user_allows, should_print}
use litrace.PathFilter.Synced.{Synced, traced_path, fd_path-learn_fd, learn_fd-Synced}
use litrace.PathFilter.Decision.{AnyPath, should_print-Concerns}
use litrace.PathFilter.Decision.Concerns.{by_path}

module _ (proc_cwd : ℕ → Option (List ℕ)) where
  Listed-AnyPath :
      (resolved : ℕ → Option (List ℕ)) (paths : List (List ℕ)) (args : List ℕ) (i : ℕ)
      → Listed i args
      → traced_path paths (resolved i) ≡ true
      → AnyPath resolved paths args
  Listed-AnyPath resolved paths [] i at hit = elim at [ ]
  Listed-AnyPath resolved paths (x ∷ xs) i (inl here) hit =
      inl (subst (λ j. traced_path paths (resolved j) ≡ true) here hit)
  Listed-AnyPath resolved paths (x ∷ xs) i (inr later) hit =
      inr (Listed-AnyPath resolved paths xs i later hit)

  -- An absolute path needs no working directory.
  resolve_path_at-absolute :
      (f : PathFilter) (ev : Event) (i : ℕ) (s : List ℕ)
      → event_trace_path_at ev i ≡ some s
      → is_abs s ≡ true
      → resolve_path_at proc_cwd f ev i ≡ (some (clean s), f)
  unfolding resolve_path_at resolve_path is_abs
  resolve_path_at-absolute f ev i [] given rooted = absurd (ground arith)
  resolve_path_at-absolute f ev i (b ∷ s) given rooted = ground arith

  module _ (headers : KernelHeaders) (c : Call) (ctx : SysExitArgs) (state : SyscallData)
      (snapshot : Option ExecveSnapshot) (h : IsHelper c) where
    -- If the process passed, in one of the arguments that matchesPath looks at for this call, an
    -- absolute path that can be read whole, that path cleaned is a traced one, the user asked for the
    -- call, and the filter tracks exactly the descriptors that it knows under a traced path, then the
    -- event that the tracer makes of the call is printed.
    pub exit_event-should_print :
        (f : PathFilter) (i : ℕ) (s : List ℕ)
        → Listed i (path_args state.syscall_id)
        → IsPath c state i s
        → is_abs s ≡ true
        → has_path (clean s) f.paths ≡ true
        → user_allows f state.syscall_id ≡ true
        → Synced f.paths f
        → (should_print proc_cwd f (exit_event headers c ctx state snapshot)).0 ≡ true
    unfolding traced_path
    exit_event-should_print f i s at p rooted hit asked synced =
        let ev = exit_event headers c ctx state snapshot in
        let same = (exit_event-Reports headers c ctx state snapshot).syscall_id in
        let given = exit_event-Gives headers c ctx state snapshot i s h at p in
        let resolved = resolve_path_at-absolute f ev i s given rooted in
        (should_print-Concerns proc_cwd f ev synced).1 (
          ap (user_allows f) same ∙ asked,
          by_path (
              Listed-AnyPath _ f.paths (path_args ev.syscall_id) i
                (subst (λ id. Listed i (path_args id)) (sym same) at)
                (ap (λ (r : Option (List ℕ) × PathFilter). traced_path f.paths r.0) resolved
                  ∙ hit)),
        )

    -- An openat creates no process.
    exit_event-no_child :
        state.syscall_id ≡ nr_openat
        → process_clone_child_pid (exit_event headers c ctx state snapshot) ≡ none
    unfolding process_clone_child_pid event_creates_process
    exit_event-no_child openat =
        let r = exit_event-Reports headers c ctx state snapshot in
        let single : is_process_clone headers c state ≡ 0 =
          unfold is_process_clone in ground arith in
        elim r.flags [
          | inl zero_ ↦ ground arith
          | inr flag ↦ absurd ((r.process_clone.0 flag).1 single)
        ]

    -- If an openat of such a path gave a descriptor, the filter then knows the cleaned path of that
    -- descriptor of the process, tracks it exactly if the path is a traced one, and what it knew of
    -- every other descriptor stays.
    pub exit_event-observe :
        (f : PathFilter) (s : List ℕ)
        → state.syscall_id ≡ nr_openat
        → IsPath c state 1 s
        → is_abs s ≡ true
        → is_negative ctx.ret ≡ false
        → Synced f.paths f
        → (q d : ℕ)
        → let g = observe proc_cwd f (exit_event headers c ctx state snapshot) in
          let opened = (tgid_of c == q) && (ctx.ret == d) in
          (fd_path g q d ≡ (if opened then some (clean s) else fd_path f q d))
          × (fd_tracked g q d ≡ (if opened then has_path (clean s) f.paths else fd_tracked f q d))
    unfolding traced_path
    exit_event-observe f s openat p rooted success synced q d =
        let ev = exit_event headers c ctx state snapshot in
        let r = exit_event-Reports headers c ctx state snapshot in
        let at : Listed 1 (path_args state.syscall_id) = unfold path_args in rw openat (inl refl) in
        let resolved =
          resolve_path_at-absolute f ev 1 s
            (exit_event-Gives headers c ctx state snapshot 1 s h at p) rooted in
        let learned : observe proc_cwd f ev ≡ learn_fd f (tgid_of c) ctx.ret (clean s) =
          unfold observe observe_process_clone observe_call observe_open with_resolved in
          ground (arith, exit_event-no_child openat, resolved, r.pid, r.ret, r.syscall_id) in
        let path = fd_path-learn_fd f.paths f (tgid_of c) ctx.ret (clean s) q d in
        let tracked =
          (learn_fd-Synced f.paths f (tgid_of c) ctx.ret (clean s) synced).tracked q d in
        rw learned (path, ground (arith, path, tracked, synced.tracked q d))
