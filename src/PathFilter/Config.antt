-- ===== src/PathFilter/Config.antt =====
-- newPathFilter and handleTraceSyscallIDs of internal/path_filter.go: what the filter and the
-- loaded programs are given of the options.
pub mod Complete
pub mod Run
use litrace.Prelude.{ℕ, List, [], ◌∷◌, Bool, none, not, ◌||◌, if◌then◌else◌}
use litrace.Syscalls.{
  nr_open, nr_openat, nr_close, nr_dup, nr_dup2, nr_dup3, nr_fcntl, nr_chdir, nr_fchdir, nr_rename,
  nr_renameat, nr_renameat2, nr_unlink, nr_unlinkat, nr_access, nr_newstat, nr_newlstat,
  nr_newfstatat, nr_faccessat, nr_statx, nr_openat2, nr_faccessat2, nr_fork, nr_vfork, nr_clone,
  nr_clone3,
}
use litrace.PathFilter.{PathFilter, is_empty}
use litrace.PathFilter.Dict.{add}

-- The options of Config that concern the filters.
pub record Config : Type 0 where
  pub trace_paths : List (List ℕ)
  pub trace_syscall_ids : List ℕ
  pub follow_forks : Bool

unfoldable pub new_path_filter : Config → PathFilter
new_path_filter cfg = record {
  paths = cfg.trace_paths;
  state_by_pid = λ _. none;
  user_trace_ids = cfg.trace_syscall_ids;
  user_trace_all = is_empty cfg.trace_syscall_ids;
  path_filter_mode = not (is_empty cfg.trace_paths);
}

abbrev pub path_filter_support_syscall_ids : List ℕ
path_filter_support_syscall_ids =
    nr_open ∷ nr_openat ∷ nr_close ∷ nr_dup ∷ nr_dup2 ∷ nr_dup3 ∷ nr_fcntl ∷ nr_chdir ∷ nr_fchdir
    ∷ nr_rename ∷ nr_renameat ∷ nr_renameat2 ∷ nr_unlink ∷ nr_unlinkat ∷ nr_access ∷ nr_newstat
    ∷ nr_newlstat ∷ nr_newfstatat ∷ nr_faccessat ∷ nr_statx ∷ nr_openat2 ∷ nr_faccessat2 ∷ []

abbrev pub path_filter_fork_support_syscall_ids : List ℕ
path_filter_fork_support_syscall_ids = nr_fork ∷ nr_vfork ∷ nr_clone ∷ nr_clone3 ∷ []

-- `for _, id := range list { ids[id] = struct{}{} }`
unfoldable pub add_all : List ℕ → List ℕ → List ℕ
add_all [] ids = ids
add_all (id ∷ rest) ids = add_all rest (add id ids)

unfoldable pub handle_trace_syscall_ids : Config → List ℕ
handle_trace_syscall_ids cfg =
    let ids = add_all path_filter_support_syscall_ids (add_all cfg.trace_syscall_ids []) in
    if is_empty cfg.trace_paths || is_empty cfg.trace_syscall_ids
    then cfg.trace_syscall_ids
    else if cfg.follow_forks
    then add_all path_filter_fork_support_syscall_ids ids
    else ids
