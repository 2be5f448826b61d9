-- ===== src/PathFilter/Resolve.antt =====
-- The path that an argument of an event names: resolvePathAt and what it calls. `proc_cwd` is
-- os.Readlink of /proc/<pid>/cwd at the time of the call; the first answer is kept.
use litrace.Prelude.{
  ℕ, ◌-◌, ◌^◌, List, Bool, true, false, Option, none, some, ◌==◌, ◌||◌, leb, if◌then◌else◌, get_or,
}
use litrace.Types.{Event, u32}
use litrace.Syscalls.{
  nr_open, nr_newstat, nr_newlstat, nr_access, nr_chdir, nr_rename, nr_unlink, nr_openat,
  nr_newfstatat, nr_unlinkat, nr_renameat, nr_faccessat, nr_renameat2, nr_statx, nr_openat2,
  nr_faccessat2,
}
use litrace.Reader.{event_trace_path_at}
use litrace.FilePath.{is_abs, clean, join}
use litrace.PathFilter.{PathFilter, is_empty, set_cwd, fd_path}

-- unix.AT_FDCWD, -100, as an int32.
abbrev pub at_fdcwd : ℕ
at_fdcwd = 2 ^ 32 - 100

abbrev pub normalize_tracked_fd : ℕ → ℕ
normalize_tracked_fd raw = u32 raw

-- pathBaseFDArgIndex: the index, none for -1, and whether the argument is known.
unfoldable pub path_base_fd_arg_index : ℕ → ℕ → Option ℕ × Bool
path_base_fd_arg_index id arg_index =
    if id == nr_openat
      || id == nr_openat2
      || id == nr_unlinkat
      || id == nr_newfstatat
      || id == nr_faccessat
      || id == nr_statx
      || id == nr_faccessat2
    then (if arg_index == 1 then (some 0, true) else (none, false))
    else if id == nr_renameat || id == nr_renameat2
    then (if arg_index == 1
        then (some 0, true)
        else if arg_index == 3
        then (some 2, true)
        else (none, false))
    else if id == nr_open
        || id == nr_access
        || id == nr_newstat
        || id == nr_newlstat
        || id == nr_chdir
        || id == nr_unlink
        || id == nr_rename
    then (none, true)
    else (none, false)

module _ (proc_cwd : ℕ → Option (List ℕ)) where
  -- The part of cwdForPID behind its first test.
  unfoldable pub read_cwd : PathFilter → ℕ → Option (List ℕ) × PathFilter
  read_cwd f pid = elim (proc_cwd pid) [
    | none ↦ (none, f)
    | some link ↦ (some (clean link), set_cwd f pid (clean link))
  ]

  unfoldable pub cwd_for_pid : PathFilter → ℕ → Option (List ℕ) × PathFilter
  cwd_for_pid f pid = elim (f.state_by_pid pid) [
    | none ↦ read_cwd f pid
    | some state ↦ if is_empty state.cwd then read_cwd f pid else (some state.cwd, f)
  ]

  unfoldable pub resolve_dirfd : PathFilter → Event → ℕ → Option (List ℕ) × PathFilter
  resolve_dirfd f ev index =
      if leb ev.arg_count index
      then (none, f)
      else if u32 (get_or ev.args index 0) == at_fdcwd
      then cwd_for_pid f ev.pid
      else (fd_path f ev.pid (normalize_tracked_fd (get_or ev.args index 0)), f)

  unfoldable pub resolve_path_base : PathFilter → Event → ℕ → Option (List ℕ) × PathFilter
  resolve_path_base f ev arg_index =
      let (dirfd_arg_index, ok) = path_base_fd_arg_index ev.syscall_id arg_index in
      if ok
      then elim dirfd_arg_index [
        | none ↦ cwd_for_pid f ev.pid
        | some index ↦ resolve_dirfd f ev index
      ]
      else cwd_for_pid f ev.pid

  -- The end of resolvePath, with the base.
  unfoldable pub join_base : List ℕ → Option (List ℕ) × PathFilter → Option (List ℕ) × PathFilter
  join_base path (none, f) = (none, f)
  join_base path (some base, f) = (some (clean (join base path)), f)

  unfoldable pub resolve_path : PathFilter → Event → ℕ → List ℕ → Option (List ℕ) × PathFilter
  resolve_path f ev arg_index path =
      if is_empty path
      then (none, f)
      else if is_abs path
      then (some (clean path), f)
      else join_base path (resolve_path_base f ev arg_index)

  unfoldable pub resolve_path_at : PathFilter → Event → ℕ → Option (List ℕ) × PathFilter
  resolve_path_at f ev arg_index = elim (event_trace_path_at ev arg_index) [
    | none ↦ (none, f)
    | some path ↦ resolve_path f ev arg_index path
  ]
