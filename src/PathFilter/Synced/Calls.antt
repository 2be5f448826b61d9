-- ===== src/PathFilter/Synced/Calls.antt =====
-- Each call that the filter follows keeps the tracked descriptors in step with their paths.
use litrace.Prelude.{
  ℕ, ◌≡◌, sym, ◌∙◌, arith, List, true, Option, none, some, ◌==◌, ◌&&◌, ◌||◌, not, leb, ltb,
  if-intro, Option-intro, get_or,
}
use litrace.Types.{Event, is_negative}
use litrace.Reader.{process_clone_child_pid}
use litrace.PathFilter.{ProcessPathState, PathFilter, put_state, delete_state, fd_tracked, fd_path}
use litrace.PathFilter.Dict.{contains, lookup}
use litrace.PathFilter.Observe.{
  fd_arg, arg_tracked, copy_fd_path, move_fd_path, clone_process_path_state, observe_fork_child,
  observe_process_clone, observe_dup_ret, observe_dup_pair, observe_fcntl, observe_close,
  observe_fchdir,
}
use litrace.PathFilter.View.{fd_path-state, fd_tracked-state, state-put_state, state-delete_state}
use litrace.PathFilter.Synced.{
  traced_path, Synced, fd_path-learn_fd, track_fd-Synced, untrack_fd-Synced, unset_untrack-Synced,
  set_cwd-Synced, copy_fd_path-Synced, copy_fd_path-traced, move_fd_path-Synced,
  move_fd_path-traced,
}

module _ (paths : List (List ℕ)) where
  arg_tracked-traced :
      (f : PathFilter) (ev : Event) (i : ℕ)
      → Synced paths f
      → arg_tracked f ev i ≡ true
      → traced_path paths (fd_path f ev.pid (fd_arg ev i)) ≡ true
  unfolding arg_tracked
  arg_tracked-traced f ev i s on = ground (arith, s.tracked ev.pid (fd_arg ev i))

  pub observe_dup_ret-Synced :
      (f : PathFilter) (ev : Event) (i : ℕ) → Synced paths f → Synced paths (observe_dup_ret f ev i)
  unfolding observe_dup_ret
  observe_dup_ret-Synced f ev i s =
      let src = fd_arg ev i in
      let g = copy_fd_path f ev.pid src ev.ret in
      let copied = copy_fd_path-Synced paths f ev.pid src ev.ret s in
      if-intro (Synced paths) (is_negative ev.ret || leb ev.arg_count i) (λ _. s)
        λ _.
          if-intro (Synced paths) (arg_tracked g ev i)
            (λ on.
              track_fd-Synced paths g ev.pid ev.ret copied (
                copy_fd_path-traced paths f ev.pid src ev.ret
                  (arg_tracked-traced g ev i copied on)))
            (λ off. copied)

  pub observe_dup_pair-Synced :
      (f : PathFilter) (ev : Event) → Synced paths f → Synced paths (observe_dup_pair f ev)
  unfolding observe_dup_pair
  observe_dup_pair-Synced f ev s =
      let old = fd_arg ev 0 in
      let new = fd_arg ev 1 in
      let g = move_fd_path f ev.pid old new in
      let moved = move_fd_path-Synced paths f ev.pid old new s in
      let same = move_fd_path-traced paths f ev.pid old new in
      if-intro (Synced paths) (ltb ev.arg_count 2 || is_negative ev.ret) (λ _. s)
        λ _.
          if-intro (Synced paths) (fd_tracked g ev.pid old)
            (λ on.
              track_fd-Synced paths g ev.pid new moved
                (sym same ∙ sym (moved.tracked ev.pid old) ∙ on))
            (λ off.
              untrack_fd-Synced paths g ev.pid new moved
                (sym same ∙ sym (moved.tracked ev.pid old) ∙ off))

  copy_fd_path-hit :
      (f : PathFilter) (pid old new : ℕ)
      → traced_path paths (fd_path f pid old) ≡ true
      → traced_path paths (fd_path (copy_fd_path f pid old new) pid new) ≡ true
  unfolding copy_fd_path traced_path
  copy_fd_path-hit f pid old new hit =
      Option-intro (λ g. traced_path paths (fd_path g pid new) ≡ true) (fd_path f pid old)
        (λ none_. absurd (ground arith))
        λ path known. ground (arith, fd_path-learn_fd paths f pid new path pid new)

  pub observe_fcntl-Synced :
      (f : PathFilter) (ev : Event) → Synced paths f → Synced paths (observe_fcntl f ev)
  unfolding observe_fcntl
  observe_fcntl-Synced f ev s =
      let src = fd_arg ev 0 in
      let cmd = get_or ev.args 1 0 in
      let g = copy_fd_path f ev.pid src ev.ret in
      if-intro (Synced paths) (ltb ev.arg_count 2 || is_negative ev.ret || not (arg_tracked f ev 0))
        (λ _. s)
        λ go.
          if-intro (Synced paths) (not (cmd == 0) && not (cmd == 1030)) (λ _. s)
            λ dup.
              track_fd-Synced paths g ev.pid ev.ret
                (copy_fd_path-Synced paths f ev.pid src ev.ret s)
                (copy_fd_path-hit f ev.pid src ev.ret (arg_tracked-traced f ev 0 s (ground arith)))

  pub observe_close-Synced :
      (f : PathFilter) (ev : Event) → Synced paths f → Synced paths (observe_close f ev)
  unfolding observe_close
  observe_close-Synced f ev s =
      if-intro (Synced paths) (is_negative ev.ret || ltb ev.arg_count 1) (λ _. s)
        λ _. unset_untrack-Synced paths f ev.pid (fd_arg ev 0) s

  pub observe_fchdir-Synced :
      (f : PathFilter) (ev : Event) → Synced paths f → Synced paths (observe_fchdir f ev)
  unfolding observe_fchdir
  observe_fchdir-Synced f ev s =
      if-intro (Synced paths) (is_negative ev.ret || ltb ev.arg_count 1) (λ _. s)
        λ _.
          Option-intro (Synced paths) (fd_path f ev.pid (fd_arg ev 0)) (λ _. s)
            λ path _. set_cwd-Synced paths f ev.pid path s

  -- A process that is known only by its id, or by the state of another.
  put_state-Synced :
      (f : PathFilter) (child : ℕ) (s : ProcessPathState)
      → Synced paths f
      → ((d : ℕ) → contains d s.tracked_fds ≡ traced_path paths (lookup d s.fd_paths))
      → Synced paths (put_state child s f)
  put_state-Synced f child s synced same = record {
    same_paths = unfold put_state in synced.same_paths;
    tracked = λ q d. ground (
      arith,
      same d,
      synced.tracked q d,
      state-put_state child q s f,
      fd_path-state f q d,
      fd_tracked-state f q d,
      fd_path-state (put_state child s f) q d,
      fd_tracked-state (put_state child s f) q d,
    );
  }

  delete_state-Synced :
      (f : PathFilter) (child : ℕ) → Synced paths f → Synced paths (delete_state child f)
  unfolding traced_path lookup contains
  delete_state-Synced f child s = record {
    same_paths = unfold delete_state in s.same_paths;
    tracked = λ q d. ground (
      arith,
      s.tracked q d,
      state-delete_state child q f,
      fd_path-state f q d,
      fd_tracked-state f q d,
      fd_path-state (delete_state child f) q d,
      fd_tracked-state (delete_state child f) q d,
    );
  }

  clone_process_path_state-some :
      (o : Option ProcessPathState) (s : ProcessPathState)
      → clone_process_path_state o ≡ some s
      → o ≡ some s
  unfolding clone_process_path_state
  clone_process_path_state-some none s e = cc
  clone_process_path_state-some (some t) s e = ground arith

  observe_fork_child-Synced :
      (f : PathFilter) (parent child : ℕ)
      → Synced paths f
      → Synced paths (observe_fork_child f parent child)
  unfolding observe_fork_child fd_path fd_tracked
  observe_fork_child-Synced f parent child synced =
      Option-intro (Synced paths) (clone_process_path_state (f.state_by_pid parent))
        (λ _. delete_state-Synced f child synced)
        λ s found. put_state-Synced f child s synced (λ d.
          ground (
            arith,
            synced.tracked parent d,
            clone_process_path_state-some (f.state_by_pid parent) s,
          ))

  pub observe_process_clone-Synced :
      (f : PathFilter) (ev : Event) → Synced paths f → Synced paths (observe_process_clone f ev)
  unfolding observe_process_clone
  observe_process_clone-Synced f ev s =
      Option-intro (Synced paths) (process_clone_child_pid ev) (λ _. s)
        λ child _. observe_fork_child-Synced f ev.pid child s
