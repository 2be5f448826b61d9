-- ===== src/Schema/Part9.antt =====
-- internal/bpf/syscalls/x86_64.h: the schemas of __NR_openat to __NR_timerfd_settime.
use litrace.Prelude.{List, [], ◌∷◌}
use litrace.Types.{
  SyscallArgSchema, arg_fd, arg_flags, arg_int, arg_mode, arg_none, arg_off, arg_ptr, arg_uint,
  var_arg_string,
}
use litrace.Syscalls.{
  nr_openat, nr_mkdirat, nr_mknodat, nr_fchownat, nr_futimesat, nr_newfstatat, nr_unlinkat,
  nr_renameat, nr_linkat, nr_symlinkat, nr_readlinkat, nr_fchmodat, nr_faccessat, nr_pselect6,
  nr_ppoll, nr_unshare, nr_set_robust_list, nr_get_robust_list, nr_splice, nr_tee,
  nr_sync_file_range, nr_vmsplice, nr_move_pages, nr_utimensat, nr_epoll_pwait, nr_signalfd,
  nr_timerfd_create, nr_eventfd, nr_fallocate, nr_timerfd_settime,
}
use litrace.Schema.Entry.{entry}

unfoldable pub schemas_9 : List SyscallArgSchema
schemas_9 =
    entry nr_openat 4 (arg_fd ∷ var_arg_string ∷ arg_flags ∷ arg_mode ∷ arg_none ∷ arg_none ∷ [])
    ∷ entry nr_mkdirat 3 (arg_fd ∷ var_arg_string ∷ arg_mode ∷ arg_none ∷ arg_none ∷ arg_none ∷ [])
    ∷ entry nr_mknodat 4 (arg_fd ∷ var_arg_string ∷ arg_mode ∷ arg_uint ∷ arg_none ∷ arg_none ∷ [])
    ∷ entry nr_fchownat 5 (arg_fd ∷ var_arg_string ∷ arg_int ∷ arg_int ∷ arg_int ∷ arg_none ∷ [])
    ∷ entry nr_futimesat 3 (arg_fd ∷ var_arg_string ∷ arg_ptr ∷ arg_none ∷ arg_none ∷ arg_none ∷ [])
    ∷ entry nr_newfstatat 4 (arg_fd ∷ var_arg_string ∷ arg_ptr ∷ arg_int ∷ arg_none ∷ arg_none ∷ [])
    ∷ entry nr_unlinkat 3 (arg_fd ∷ var_arg_string ∷ arg_int ∷ arg_none ∷ arg_none ∷ arg_none ∷ [])
    ∷ entry nr_renameat 4
        (arg_fd ∷ var_arg_string ∷ arg_fd ∷ var_arg_string ∷ arg_none ∷ arg_none ∷ [])
    ∷ entry nr_linkat 5
        (arg_fd ∷ var_arg_string ∷ arg_fd ∷ var_arg_string ∷ arg_int ∷ arg_none ∷ [])
    ∷ entry nr_symlinkat 3
        (var_arg_string ∷ arg_fd ∷ var_arg_string ∷ arg_none ∷ arg_none ∷ arg_none ∷ [])
    ∷ entry nr_readlinkat 4
        (arg_fd ∷ var_arg_string ∷ var_arg_string ∷ arg_int ∷ arg_none ∷ arg_none ∷ [])
    ∷ entry nr_fchmodat 3 (arg_fd ∷ var_arg_string ∷ arg_mode ∷ arg_none ∷ arg_none ∷ arg_none ∷ [])
    ∷ entry nr_faccessat 3
        (arg_fd ∷ var_arg_string ∷ arg_mode ∷ arg_none ∷ arg_none ∷ arg_none ∷ [])
    ∷ entry nr_pselect6 6 (arg_int ∷ arg_ptr ∷ arg_ptr ∷ arg_ptr ∷ arg_ptr ∷ arg_ptr ∷ [])
    ∷ entry nr_ppoll 5 (arg_fd ∷ arg_fd ∷ arg_ptr ∷ arg_ptr ∷ arg_uint ∷ arg_none ∷ [])
    ∷ entry nr_unshare 1 (arg_uint ∷ arg_none ∷ arg_none ∷ arg_none ∷ arg_none ∷ arg_none ∷ [])
    ∷ entry nr_set_robust_list 2
        (arg_ptr ∷ arg_uint ∷ arg_none ∷ arg_none ∷ arg_none ∷ arg_none ∷ [])
    ∷ entry nr_get_robust_list 3 (arg_int ∷ arg_ptr ∷ arg_ptr ∷ arg_none ∷ arg_none ∷ arg_none ∷ [])
    ∷ entry nr_splice 6 (arg_fd ∷ arg_off ∷ arg_fd ∷ arg_off ∷ arg_uint ∷ arg_uint ∷ [])
    ∷ entry nr_tee 4 (arg_fd ∷ arg_fd ∷ arg_uint ∷ arg_uint ∷ arg_none ∷ arg_none ∷ [])
    ∷ entry nr_sync_file_range 4 (arg_fd ∷ arg_off ∷ arg_off ∷ arg_uint ∷ arg_none ∷ arg_none ∷ [])
    ∷ entry nr_vmsplice 4 (arg_fd ∷ arg_ptr ∷ arg_uint ∷ arg_uint ∷ arg_none ∷ arg_none ∷ [])
    ∷ entry nr_move_pages 6 (arg_int ∷ arg_uint ∷ arg_ptr ∷ arg_ptr ∷ arg_ptr ∷ arg_int ∷ [])
    ∷ entry nr_utimensat 4 (arg_fd ∷ var_arg_string ∷ arg_ptr ∷ arg_int ∷ arg_none ∷ arg_none ∷ [])
    ∷ entry nr_epoll_pwait 6 (arg_fd ∷ arg_ptr ∷ arg_int ∷ arg_int ∷ arg_ptr ∷ arg_uint ∷ [])
    ∷ entry nr_signalfd 3 (arg_fd ∷ arg_ptr ∷ arg_uint ∷ arg_none ∷ arg_none ∷ arg_none ∷ [])
    ∷ entry nr_timerfd_create 2 (arg_int ∷ arg_int ∷ arg_none ∷ arg_none ∷ arg_none ∷ arg_none ∷ [])
    ∷ entry nr_eventfd 1 (arg_uint ∷ arg_none ∷ arg_none ∷ arg_none ∷ arg_none ∷ arg_none ∷ [])
    ∷ entry nr_fallocate 4 (arg_fd ∷ arg_mode ∷ arg_off ∷ arg_off ∷ arg_none ∷ arg_none ∷ [])
    ∷ entry nr_timerfd_settime 4 (arg_fd ∷ arg_int ∷ arg_ptr ∷ arg_ptr ∷ arg_none ∷ arg_none ∷ [])
    ∷ []
