-- ===== src/PathFilter/Synced/Events.antt =====
-- The whole filter, event after event.
use litrace.Prelude.{
  ℕ, List, [], ◌∷◌, Bool, true, false, Option, none, some, ◌==◌, ◌||◌, if◌then◌else◌, if-intro,
  Option-intro, leb, get_or,
}
use litrace.Types.{Event, is_negative, u32}
use litrace.Syscalls.{
  nr_open, nr_close, nr_dup, nr_dup2, nr_dup3, nr_fcntl, nr_chdir, nr_fchdir, nr_rename, nr_unlink,
  nr_openat, nr_unlinkat, nr_renameat, nr_renameat2, nr_openat2,
}
use litrace.Reader.{event_trace_path_at}
use litrace.Reader.Paths.{path_args}
use litrace.FilePath.{is_abs, clean}
use litrace.PathFilter.{PathFilter, is_empty}
use litrace.PathFilter.Resolve.{
  at_fdcwd, path_base_fd_arg_index, read_cwd, cwd_for_pid, resolve_dirfd, resolve_path_base,
  join_base, resolve_path, resolve_path_at,
}
use litrace.PathFilter.Observe.{
  with_resolved, observe_open, observe_chdir, observe_rename, observe_unlink, observe_call, observe,
}
use litrace.PathFilter.Output.{
  user_allows, matched, matches_path_at, matches_any, matches_path, or_tracked, should_print,
  observed, should_output,
}
use litrace.PathFilter.Synced.{Synced, learn_fd-Synced, set_cwd-Synced}
use litrace.PathFilter.Synced.Calls.{
  observe_dup_ret-Synced, observe_dup_pair-Synced, observe_fcntl-Synced, observe_close-Synced,
  observe_fchdir-Synced, observe_process_clone-Synced,
}
use litrace.PathFilter.Synced.Paths.{rewrite_pid_paths-Synced, drop_pid_paths-Synced}

module _ (proc_cwd : ℕ → Option (List ℕ)) (paths : List (List ℕ)) where
  read_cwd-Synced :
      (f : PathFilter) (pid : ℕ) → Synced paths f → Synced paths (read_cwd proc_cwd f pid).1
  unfolding read_cwd
  read_cwd-Synced f pid s =
      Option-intro (λ (r : Option (List ℕ) × PathFilter). Synced paths r.1) (proc_cwd pid) (λ _. s)
        λ link _. set_cwd-Synced paths f pid (clean link) s

  cwd_for_pid-Synced :
      (f : PathFilter) (pid : ℕ) → Synced paths f → Synced paths (cwd_for_pid proc_cwd f pid).1
  unfolding cwd_for_pid
  cwd_for_pid-Synced f pid s =
      let P = λ (r : Option (List ℕ) × PathFilter). Synced paths r.1 in
      Option-intro P (f.state_by_pid pid) (λ _. read_cwd-Synced f pid s)
        λ state _. if-intro P (is_empty state.cwd) (λ _. read_cwd-Synced f pid s) (λ _. s)

  resolve_dirfd-Synced :
      (f : PathFilter) (ev : Event) (i : ℕ)
      → Synced paths f
      → Synced paths (resolve_dirfd proc_cwd f ev i).1
  unfolding resolve_dirfd
  resolve_dirfd-Synced f ev i s =
      let P = λ (r : Option (List ℕ) × PathFilter). Synced paths r.1 in
      if-intro P (leb ev.arg_count i) (λ _. s)
        λ _.
          if-intro P (u32 (get_or ev.args i 0) == at_fdcwd) (λ _. cwd_for_pid-Synced f ev.pid s)
            (λ _. s)

  resolve_path_base-Synced :
      (f : PathFilter) (ev : Event) (i : ℕ)
      → Synced paths f
      → Synced paths (resolve_path_base proc_cwd f ev i).1
  unfolding resolve_path_base
  resolve_path_base-Synced f ev i s =
      let P = λ (r : Option (List ℕ) × PathFilter). Synced paths r.1 in
      let base = path_base_fd_arg_index ev.syscall_id i in
      if-intro P base.1
        (λ _.
          Option-intro P base.0 (λ _. cwd_for_pid-Synced f ev.pid s)
            (λ j _. resolve_dirfd-Synced f ev j s))
        (λ _. cwd_for_pid-Synced f ev.pid s)

  join_base-Synced :
      (path : List ℕ) (r : Option (List ℕ) × PathFilter)
      → Synced paths r.1
      → Synced paths (join_base proc_cwd path r).1
  unfolding join_base
  join_base-Synced path (none, f) s = s
  join_base-Synced path (some base, f) s = s

  resolve_path_at-Synced :
      (f : PathFilter) (ev : Event) (i : ℕ)
      → Synced paths f
      → Synced paths (resolve_path_at proc_cwd f ev i).1
  unfolding resolve_path_at resolve_path
  resolve_path_at-Synced f ev i s =
      let P = λ (r : Option (List ℕ) × PathFilter). Synced paths r.1 in
      Option-intro P (event_trace_path_at ev i) (λ _. s)
        λ path _.
          if-intro P (is_empty path) (λ _. s)
            λ _.
              if-intro P (is_abs path) (λ _. s)
                λ _. join_base-Synced path _ (resolve_path_base-Synced f ev i s)

  with_resolved-Synced :
      (use_path : PathFilter → List ℕ → PathFilter)
      → ((g : PathFilter) (path : List ℕ) → Synced paths g → Synced paths (use_path g path))
      → (r : Option (List ℕ) × PathFilter) → Synced paths r.1
      → Synced paths (with_resolved proc_cwd use_path r)
  unfolding with_resolved
  with_resolved-Synced use_path keeps (none, f) s = s
  with_resolved-Synced use_path keeps (some path, f) s = keeps f path s

  at_path :
      (use_path : PathFilter → List ℕ → PathFilter)
      → ((g : PathFilter) (path : List ℕ) → Synced paths g → Synced paths (use_path g path))
      → (f : PathFilter) (ev : Event) (i : ℕ) → Synced paths f
      → Synced paths (
          if is_negative ev.ret
          then f
          else with_resolved proc_cwd use_path (resolve_path_at proc_cwd f ev i))
  at_path use_path keeps f ev i s =
      if-intro (Synced paths) (is_negative ev.ret) (λ _. s)
        λ _. with_resolved-Synced use_path keeps _ (resolve_path_at-Synced f ev i s)

  observe_rename-Synced :
      (f : PathFilter) (ev : Event) (i j : ℕ)
      → Synced paths f
      → Synced paths (observe_rename proc_cwd f ev i j)
  unfolding observe_rename
  observe_rename-Synced f ev i j s =
      at_path _
        (λ g old t.
          with_resolved-Synced _ (λ h new u. rewrite_pid_paths-Synced paths h ev.pid old new u) _
            (resolve_path_at-Synced g ev j t))
        f ev i s

  observe_open-Synced :
      (f : PathFilter) (ev : Event) (i : ℕ)
      → Synced paths f
      → Synced paths (observe_open proc_cwd f ev i)
  unfolding observe_open
  observe_open-Synced f ev i s =
      at_path _ (λ g path t. learn_fd-Synced paths g ev.pid ev.ret path t) f ev i s

  observe_chdir-Synced :
      (f : PathFilter) (ev : Event) → Synced paths f → Synced paths (observe_chdir proc_cwd f ev)
  unfolding observe_chdir
  observe_chdir-Synced f ev s =
      at_path _ (λ g path t. set_cwd-Synced paths g ev.pid path t) f ev 0 s

  observe_unlink-Synced :
      (f : PathFilter) (ev : Event) (i : ℕ)
      → Synced paths f
      → Synced paths (observe_unlink proc_cwd f ev i)
  unfolding observe_unlink
  observe_unlink-Synced f ev i s =
      at_path _ (λ g path t. drop_pid_paths-Synced paths g ev.pid path t) f ev i s

  observe_call-Synced :
      (f : PathFilter) (ev : Event) → Synced paths f → Synced paths (observe_call proc_cwd f ev)
  unfolding observe_call
  observe_call-Synced f ev s =
      let S = Synced paths in
      let id = ev.syscall_id in
      if-intro S (id == nr_open) (λ _. observe_open-Synced f ev 0 s)
        λ _.
          if-intro S (id == nr_openat || id == nr_openat2) (λ _. observe_open-Synced f ev 1 s)
            λ _.
              if-intro S (id == nr_dup) (λ _. observe_dup_ret-Synced paths f ev 0 s)
                λ _.
                  if-intro S (id == nr_dup2 || id == nr_dup3)
                    (λ _. observe_dup_pair-Synced paths f ev s)
                    λ _.
                      if-intro S (id == nr_fcntl) (λ _. observe_fcntl-Synced paths f ev s)
                        λ _.
                          if-intro S (id == nr_close) (λ _. observe_close-Synced paths f ev s)
                            λ _.
                              if-intro S (id == nr_chdir) (λ _. observe_chdir-Synced f ev s)
                                λ _.
                                  if-intro S (id == nr_fchdir)
                                    (λ _. observe_fchdir-Synced paths f ev s)
                                    λ _.
                                      if-intro S (id == nr_rename)
                                        (λ _. observe_rename-Synced f ev 0 1 s)
                                        λ _.
                                          if-intro S (id == nr_renameat || id == nr_renameat2)
                                            (λ _. observe_rename-Synced f ev 1 3 s)
                                            λ _.
                                              if-intro S (id == nr_unlink)
                                                (λ _. observe_unlink-Synced f ev 0 s)
                                                λ _.
                                                  if-intro S (id == nr_unlinkat)
                                                    (λ _. observe_unlink-Synced f ev 1 s) λ _. s

  pub observe-Synced :
      (f : PathFilter) (ev : Event) → Synced paths f → Synced paths (observe proc_cwd f ev)
  unfolding observe
  observe-Synced f ev s = observe_call-Synced _ ev (observe_process_clone-Synced paths f ev s)

  matched-Synced :
      (r : Option (List ℕ) × PathFilter) → Synced paths r.1 → Synced paths (matched proc_cwd r).1
  unfolding matched
  matched-Synced (none, f) s = s
  matched-Synced (some path, f) s = s

  matches_any-Synced :
      (f : PathFilter) (ev : Event) (args : List ℕ)
      → Synced paths f
      → Synced paths (matches_any proc_cwd f ev args).1
  unfolding matches_any matches_path_at
  matches_any-Synced f ev [] s = s
  matches_any-Synced f ev (i ∷ args) s =
      let t = matched-Synced (resolve_path_at proc_cwd f ev i) (resolve_path_at-Synced f ev i s) in
      let rest = matches_any-Synced (matches_path_at proc_cwd f ev i).1 ev args t in
      elim (matches_path_at proc_cwd f ev i).0
        as (λ b.
          Synced paths
            (elim b as (λ x. Bool × PathFilter) [
              | false ↦ matches_any proc_cwd (matches_path_at proc_cwd f ev i).1 ev args
              | true ↦ (true, (matches_path_at proc_cwd f ev i).1)
            ]).1) [ true ↦ t | false ↦ rest ]

  pub should_print-Synced :
      (f : PathFilter) (ev : Event) → Synced paths f → Synced paths (should_print proc_cwd f ev).1
  unfolding should_print matches_path or_tracked
  should_print-Synced f ev s =
      if-intro (λ (r : Bool × PathFilter). Synced paths r.1) (user_allows f ev.syscall_id)
        (λ _.
          or_tracked-Synced (matches_any proc_cwd f ev (path_args ev.syscall_id))
            (matches_any-Synced f ev (path_args ev.syscall_id) s))
        (λ _. s)
    where
      or_tracked-Synced :
          (r : Bool × PathFilter) → Synced paths r.1 → Synced paths (or_tracked proc_cwd ev r).1
      or_tracked-Synced (true, g) t = t
      or_tracked-Synced (false, g) t = t

  -- Whatever event comes next, and whatever /proc answers, shouldOutput keeps the tracked
  -- descriptors in step: they are exactly the descriptors whose known path is a traced one.
  pub should_output-Synced :
      (f : PathFilter) (ev : Event) → Synced paths f → Synced paths (should_output proc_cwd f ev).1
  unfolding should_output observed
  should_output-Synced f ev s =
      if-intro (λ (r : Bool × PathFilter). Synced paths r.1) f.path_filter_mode
        (λ _. observe-Synced (should_print proc_cwd f ev).1 ev (should_print-Synced f ev s))
        (λ _. s)
