-- ===== src/PathFilter/Observe.antt =====
-- observe: what the filter learns from an event, call by call.
use litrace.Prelude.{
  ℕ, List, [], ◌∷◌, ◌++◌, Bool, false, Option, none, some, ◌==◌, ◌&&◌, ◌||◌, not, leb, ltb,
  if◌then◌else◌, get_or, length, take, drop,
}
use litrace.Types.{Event, arg_fd, is_negative}
use litrace.Syscalls.{
  nr_open, nr_close, nr_dup, nr_dup2, nr_dup3, nr_fcntl, nr_chdir, nr_fchdir, nr_rename, nr_unlink,
  nr_openat, nr_unlinkat, nr_renameat, nr_renameat2, nr_openat2,
}
use litrace.Reader.{process_clone_child_pid}
use litrace.FilePath.{slash, bytes_eq, clean, join}
use litrace.PathFilter.{
  ProcessPathState, PathFilter, is_empty, put_state, delete_state, maybe_drop_pid_state, track_fd,
  untrack_fd, fd_tracked, set_fd_path, sync_tracked_fd, unset_fd_path, fd_path, set_cwd,
}
use litrace.PathFilter.Dict.{erase}
use litrace.PathFilter.Resolve.{normalize_tracked_fd, resolve_path_at}

abbrev pub f_dupfd : ℕ
f_dupfd = 0

abbrev pub f_dupfd_cloexec : ℕ
f_dupfd_cloexec = 1030

abbrev pub fd_arg : Event → ℕ → ℕ
fd_arg ev i = normalize_tracked_fd (get_or ev.args i 0)

unfoldable pub arg_tracked : PathFilter → Event → ℕ → Bool
arg_tracked f ev idx =
    if leb ev.arg_count idx || leb (length ev.arg_types) idx
    then false
    else if not (get_or ev.arg_types idx 0 == arg_fd)
    then false
    else fd_tracked f ev.pid (fd_arg ev idx)

-- `f.setFDPath(pid, fd, path); f.syncTrackedFD(pid, fd, path)`
unfoldable pub learn_fd : PathFilter → ℕ → ℕ → List ℕ → PathFilter
learn_fd f pid fd path = sync_tracked_fd (set_fd_path f pid fd path) pid fd path

-- `if path, ok := f.fdPath(pid, old); ok { … }`: what is known of `old` is learned of `new`.
unfoldable pub copy_fd_path : PathFilter → ℕ → ℕ → ℕ → PathFilter
copy_fd_path f pid old new = elim (fd_path f pid old) [
  | none ↦ f
  | some path ↦ learn_fd f pid new path
]

-- The same with the other branch of observeDupPair: `new` is forgotten if nothing is known.
unfoldable pub move_fd_path : PathFilter → ℕ → ℕ → ℕ → PathFilter
move_fd_path f pid old new = elim (fd_path f pid old) [
  | none ↦ untrack_fd (unset_fd_path f pid new) pid new
  | some path ↦ learn_fd f pid new path
]

-- The copy of a process's state: of the working directory and both maps.
unfoldable pub clone_process_path_state : Option ProcessPathState → Option ProcessPathState
clone_process_path_state none = none
clone_process_path_state (some src) =
    if is_empty src.cwd && is_empty src.tracked_fds && is_empty src.fd_paths then none else some src

unfoldable pub observe_fork_child : PathFilter → ℕ → ℕ → PathFilter
observe_fork_child f parent_pid child_pid =
    elim (clone_process_path_state (f.state_by_pid parent_pid)) [
      | none ↦ delete_state child_pid f
      | some state ↦ put_state child_pid state f
    ]

unfoldable pub observe_process_clone : PathFilter → Event → PathFilter
observe_process_clone f ev = elim (process_clone_child_pid ev) [
  | none ↦ f
  | some child_pid ↦ observe_fork_child f ev.pid child_pid
]

unfoldable pub observe_dup_ret : PathFilter → Event → ℕ → PathFilter
observe_dup_ret f ev src_index =
    let f' = copy_fd_path f ev.pid (fd_arg ev src_index) ev.ret in
    if is_negative ev.ret || leb ev.arg_count src_index
    then f
    else if arg_tracked f' ev src_index
    then track_fd f' ev.pid ev.ret
    else f'

unfoldable pub observe_dup_pair : PathFilter → Event → PathFilter
observe_dup_pair f ev =
    let oldfd = fd_arg ev 0 in
    let newfd = fd_arg ev 1 in
    let f' = move_fd_path f ev.pid oldfd newfd in
    if ltb ev.arg_count 2 || is_negative ev.ret
    then f
    else if fd_tracked f' ev.pid oldfd
    then track_fd f' ev.pid newfd
    else untrack_fd f' ev.pid newfd

unfoldable pub observe_fcntl : PathFilter → Event → PathFilter
observe_fcntl f ev =
    let cmd = get_or ev.args 1 0 in
    let f' = copy_fd_path f ev.pid (fd_arg ev 0) ev.ret in
    if ltb ev.arg_count 2 || is_negative ev.ret || not (arg_tracked f ev 0)
    then f
    else if not (cmd == f_dupfd) && not (cmd == f_dupfd_cloexec)
    then f
    else track_fd f' ev.pid ev.ret

unfoldable pub observe_close : PathFilter → Event → PathFilter
observe_close f ev =
    let fd = fd_arg ev 0 in
    if is_negative ev.ret || ltb ev.arg_count 1
    then f
    else unset_fd_path (untrack_fd f ev.pid fd) ev.pid fd

unfoldable pub observe_fchdir : PathFilter → Event → PathFilter
observe_fchdir f ev =
    if is_negative ev.ret || ltb ev.arg_count 1
    then f
    else elim (fd_path f ev.pid (fd_arg ev 0)) [ none ↦ f | some path ↦ set_cwd f ev.pid path ]

-- rewritePathPrefix, for a changed path.
unfoldable pub rewrite_path_prefix : List ℕ → List ℕ → List ℕ → Option (List ℕ)
rewrite_path_prefix path old_base new_base =
    let path' = clean path in
    let prefix = clean old_base ++ slash ∷ [] in
    if bytes_eq path' (clean old_base)
    then some (clean new_base)
    else if leb (length path') (length prefix) || not (bytes_eq (take (length prefix) path') prefix)
    then none
    else some (join (clean new_base) (drop (length prefix) path'))

-- The loop of rewritePIDPaths over the entries of `state.fdPaths`.
unfoldable pub rewrite_loop : ℕ → List ℕ → List ℕ → List (ℕ × List ℕ) → PathFilter → PathFilter
rewrite_loop pid old_path new_path [] f = f
rewrite_loop pid old_path new_path ((fd, path) ∷ entries) f =
    rewrite_loop pid old_path new_path entries (elim (rewrite_path_prefix path old_path new_path) [
      | none ↦ f
      | some rewritten ↦ learn_fd f pid fd rewritten
    ])

unfoldable pub rewrite_cwd : PathFilter → ℕ → ProcessPathState → List ℕ → List ℕ → PathFilter
rewrite_cwd f pid state old_path new_path =
    if is_empty state.cwd then f else elim (rewrite_path_prefix state.cwd old_path new_path) [
      | none ↦ f
      | some rewritten ↦ set_cwd f pid rewritten
    ]

unfoldable pub rewrite_pid_paths : PathFilter → ℕ → List ℕ → List ℕ → PathFilter
rewrite_pid_paths f pid old_path new_path = elim (f.state_by_pid pid) [
  | none ↦ f
  | some state ↦
      rewrite_loop pid old_path new_path state.fd_paths (rewrite_cwd f pid state old_path new_path)
]

-- `delete(state.fdPaths, fd)`, in the process's state.
unfoldable pub delete_fd_path : PathFilter → ℕ → ℕ → PathFilter
delete_fd_path f pid fd = elim (f.state_by_pid pid) [
  | none ↦ f
  | some state ↦ put_state pid (record state { fd_paths = erase fd state.fd_paths }) f
]

-- The loop of dropPIDPaths over the entries of `state.fdPaths`.
unfoldable pub drop_loop : ℕ → List ℕ → List (ℕ × List ℕ) → PathFilter → PathFilter
drop_loop pid target [] f = f
drop_loop pid target ((fd, path) ∷ entries) f =
    drop_loop pid target entries
      (if bytes_eq path target then delete_fd_path (untrack_fd f pid fd) pid fd else f)

unfoldable pub drop_pid_paths : PathFilter → ℕ → List ℕ → PathFilter
drop_pid_paths f pid target = elim (f.state_by_pid pid) [
  | none ↦ f
  | some state ↦
      if is_empty state.fd_paths
      then f
      else maybe_drop_pid_state (drop_loop pid target state.fd_paths f) pid
]

module _ (proc_cwd : ℕ → Option (List ℕ)) where
  abbrev pub resolve : PathFilter → Event → ℕ → Option (List ℕ) × PathFilter
  resolve = resolve_path_at proc_cwd

  -- What observeOpen, observeChdir and observeUnlink do with the path, if there is one.
  unfoldable pub with_resolved :
      (PathFilter → List ℕ → PathFilter) → Option (List ℕ) × PathFilter → PathFilter
  with_resolved use_path (none, f) = f
  with_resolved use_path (some path, f) = use_path f path

  unfoldable pub observe_open : PathFilter → Event → ℕ → PathFilter
  observe_open f ev path_arg_index =
      if is_negative ev.ret
      then f
      else with_resolved (λ g path. learn_fd g ev.pid ev.ret path) (resolve f ev path_arg_index)

  unfoldable pub observe_chdir : PathFilter → Event → PathFilter
  observe_chdir f ev =
      if is_negative ev.ret
      then f
      else with_resolved (λ g path. set_cwd g ev.pid path) (resolve f ev 0)

  unfoldable pub observe_rename : PathFilter → Event → ℕ → ℕ → PathFilter
  observe_rename f ev old_index new_index =
      if is_negative ev.ret
      then f
      else with_resolved
          (λ g old_path.
            with_resolved (λ h new_path. rewrite_pid_paths h ev.pid old_path new_path)
              (resolve g ev new_index))
          (resolve f ev old_index)

  unfoldable pub observe_unlink : PathFilter → Event → ℕ → PathFilter
  observe_unlink f ev path_index =
      if is_negative ev.ret
      then f
      else with_resolved (λ g path. drop_pid_paths g ev.pid path) (resolve f ev path_index)

  -- The switch of observe.
  unfoldable pub observe_call : PathFilter → Event → PathFilter
  observe_call f ev =
      let id = ev.syscall_id in
      if id == nr_open
      then observe_open f ev 0
      else if id == nr_openat || id == nr_openat2
      then observe_open f ev 1
      else if id == nr_dup
      then observe_dup_ret f ev 0
      else if id == nr_dup2 || id == nr_dup3
      then observe_dup_pair f ev
      else if id == nr_fcntl
      then observe_fcntl f ev
      else if id == nr_close
      then observe_close f ev
      else if id == nr_chdir
      then observe_chdir f ev
      else if id == nr_fchdir
      then observe_fchdir f ev
      else if id == nr_rename
      then observe_rename f ev 0 1
      else if id == nr_renameat || id == nr_renameat2
      then observe_rename f ev 1 3
      else if id == nr_unlink
      then observe_unlink f ev 0
      else if id == nr_unlinkat
      then observe_unlink f ev 1
      else f

  unfoldable pub observe : PathFilter → Event → PathFilter
  observe f ev = observe_call (observe_process_clone f ev) ev
