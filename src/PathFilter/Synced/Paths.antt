-- ===== src/PathFilter/Synced/Paths.antt =====
-- So do the loops over a process's descriptors, at a rename and at an unlink.
use litrace.Prelude.{ℕ, ◌≡◌, ◌∙◌, arith, List, [], ◌∷◌, ◌==◌, if◌then◌else◌, if-intro, Option-intro}
use litrace.FilePath.{bytes_eq}
use litrace.PathFilter.{
  PathFilter, is_empty, state_for_pid, put_state, maybe_drop_pid_state, untrack_fd,
}
use litrace.PathFilter.Dict.{erase, lookup-erase}
use litrace.PathFilter.Observe.{
  rewrite_path_prefix, rewrite_loop, rewrite_cwd, rewrite_pid_paths, delete_fd_path, drop_loop,
  drop_pid_paths,
}
use litrace.PathFilter.View.{
  fd_path-state, fd_tracked-state, state-put_state, state-maybe_drop_pid_state, fd_path-untrack_fd,
  fd_tracked-untrack_fd, untrack_fd-paths, maybe_drop_pid_state-paths,
}
use litrace.PathFilter.Synced.{traced_path, Synced, learn_fd-Synced, set_cwd-Synced}

state-delete_fd_path :
    (f : PathFilter) (pid fd q : ℕ)
    → state_for_pid (delete_fd_path f pid fd) q ≡ (
        if pid == q
        then record (state_for_pid f pid) { fd_paths = erase fd (state_for_pid f pid).fd_paths }
        else state_for_pid f q)
unfolding delete_fd_path state_for_pid erase
state-delete_fd_path f pid fd q =
    Option-intro
      (λ g. state_for_pid g q ≡ (
        if pid == q
        then record (state_for_pid f pid) { fd_paths = erase fd (state_for_pid f pid).fd_paths }
        else state_for_pid f q))
      (f.state_by_pid pid) (λ absent. ground arith)
      λ s found. state-put_state pid q _ f ∙ ground arith

delete_fd_path-paths : (f : PathFilter) (pid fd : ℕ) → (delete_fd_path f pid fd).paths ≡ f.paths
unfolding delete_fd_path put_state
delete_fd_path-paths f pid fd = ground arith

module _ (paths : List (List ℕ)) where
  rewrite_loop-Synced :
      (pid : ℕ) (old_path new_path : List ℕ) (entries : List (ℕ × List ℕ)) (f : PathFilter)
      → Synced paths f
      → Synced paths (rewrite_loop pid old_path new_path entries f)
  unfolding rewrite_loop
  rewrite_loop-Synced pid old_path new_path [] f s = s
  rewrite_loop-Synced pid old_path new_path ((fd, path) ∷ entries) f s =
      rewrite_loop-Synced pid old_path new_path entries _ (
        Option-intro (Synced paths) (rewrite_path_prefix path old_path new_path) (λ _. s)
          λ rewritten _. learn_fd-Synced paths f pid fd rewritten s)

  pub rewrite_pid_paths-Synced :
      (f : PathFilter) (pid : ℕ) (old_path new_path : List ℕ)
      → Synced paths f
      → Synced paths (rewrite_pid_paths f pid old_path new_path)
  unfolding rewrite_pid_paths rewrite_cwd
  rewrite_pid_paths-Synced f pid old_path new_path s =
      Option-intro (Synced paths) (f.state_by_pid pid) (λ _. s)
        λ state _. rewrite_loop-Synced pid old_path new_path state.fd_paths _ (
          if-intro (Synced paths) (is_empty state.cwd) (λ _. s)
            λ _.
              Option-intro (Synced paths) (rewrite_path_prefix state.cwd old_path new_path) (λ _. s)
                λ rewritten _. set_cwd-Synced paths f pid rewritten s)

  untrack_delete-Synced :
      (f : PathFilter) (pid fd : ℕ)
      → Synced paths f
      → Synced paths (delete_fd_path (untrack_fd f pid fd) pid fd)
  unfolding traced_path
  untrack_delete-Synced f pid fd s =
      let g = untrack_fd f pid fd in
      let h = delete_fd_path g pid fd in
      record {
        same_paths = delete_fd_path-paths g pid fd ∙ untrack_fd-paths f pid fd ∙ s.same_paths;
        tracked = λ q d. ground (
          arith,
          s.tracked q d,
          fd_tracked-untrack_fd f pid fd q d,
          fd_path-untrack_fd f pid fd q d,
          fd_path-state g q d,
          fd_tracked-state g q d,
          fd_path-state h q d,
          fd_tracked-state h q d,
          state-delete_fd_path g pid fd q,
          lookup-erase d fd (state_for_pid g pid).fd_paths,
        );
      }

  drop_loop-Synced :
      (pid : ℕ) (target : List ℕ) (entries : List (ℕ × List ℕ)) (f : PathFilter)
      → Synced paths f
      → Synced paths (drop_loop pid target entries f)
  unfolding drop_loop
  drop_loop-Synced pid target [] f s = s
  drop_loop-Synced pid target ((fd, path) ∷ entries) f s = drop_loop-Synced pid target entries _ (
      if-intro (Synced paths) (bytes_eq path target) (λ _. untrack_delete-Synced f pid fd s)
        (λ _. s))

  maybe_drop_pid_state-Synced :
      (f : PathFilter) (pid : ℕ) → Synced paths f → Synced paths (maybe_drop_pid_state f pid)
  maybe_drop_pid_state-Synced f pid s = record {
    same_paths = maybe_drop_pid_state-paths f pid ∙ s.same_paths;
    tracked = λ q d. ground (
      arith,
      s.tracked q d,
      state-maybe_drop_pid_state f pid q,
      fd_path-state f q d,
      fd_tracked-state f q d,
      fd_path-state (maybe_drop_pid_state f pid) q d,
      fd_tracked-state (maybe_drop_pid_state f pid) q d,
    );
  }

  pub drop_pid_paths-Synced :
      (f : PathFilter) (pid : ℕ) (target : List ℕ)
      → Synced paths f
      → Synced paths (drop_pid_paths f pid target)
  unfolding drop_pid_paths
  drop_pid_paths-Synced f pid target s =
      Option-intro (Synced paths) (f.state_by_pid pid) (λ _. s)
        λ state _.
          if-intro (Synced paths) (is_empty state.fd_paths) (λ _. s)
            λ _. maybe_drop_pid_state-Synced _ pid (drop_loop-Synced pid target state.fd_paths f s)
