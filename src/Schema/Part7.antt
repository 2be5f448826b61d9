-- ===== src/Schema/Part7.antt =====
-- internal/bpf/syscalls/x86_64.h: the schemas of __NR_getxattr to __NR_timer_getoverrun.
use litrace.Prelude.{List, [], ◌∷◌}
use litrace.Types.{
  SyscallArgSchema, arg_fd, arg_int, arg_none, arg_off, arg_ptr, arg_uint, var_arg_string,
}
use litrace.Syscalls.{
  nr_getxattr, nr_lgetxattr, nr_fgetxattr, nr_listxattr, nr_llistxattr, nr_flistxattr,
  nr_removexattr, nr_lremovexattr, nr_fremovexattr, nr_tkill, nr_time, nr_futex,
  nr_sched_setaffinity, nr_sched_getaffinity, nr_io_setup, nr_io_destroy, nr_io_getevents,
  nr_io_submit, nr_io_cancel, nr_epoll_create, nr_remap_file_pages, nr_getdents64,
  nr_set_tid_address, nr_restart_syscall, nr_semtimedop, nr_fadvise64, nr_timer_create,
  nr_timer_settime, nr_timer_gettime, nr_timer_getoverrun,
}
use litrace.Schema.Entry.{entry}

unfoldable pub schemas_7 : List SyscallArgSchema
schemas_7 =
    entry nr_getxattr 4
      (var_arg_string ∷ var_arg_string ∷ arg_ptr ∷ arg_uint ∷ arg_none ∷ arg_none ∷ [])
    ∷ entry nr_lgetxattr 4
        (var_arg_string ∷ var_arg_string ∷ arg_ptr ∷ arg_uint ∷ arg_none ∷ arg_none ∷ [])
    ∷ entry nr_fgetxattr 4 (arg_fd ∷ var_arg_string ∷ arg_ptr ∷ arg_uint ∷ arg_none ∷ arg_none ∷ [])
    ∷ entry nr_listxattr 3
        (var_arg_string ∷ var_arg_string ∷ arg_uint ∷ arg_none ∷ arg_none ∷ arg_none ∷ [])
    ∷ entry nr_llistxattr 3
        (var_arg_string ∷ var_arg_string ∷ arg_uint ∷ arg_none ∷ arg_none ∷ arg_none ∷ [])
    ∷ entry nr_flistxattr 3
        (arg_fd ∷ var_arg_string ∷ arg_uint ∷ arg_none ∷ arg_none ∷ arg_none ∷ [])
    ∷ entry nr_removexattr 2
        (var_arg_string ∷ var_arg_string ∷ arg_none ∷ arg_none ∷ arg_none ∷ arg_none ∷ [])
    ∷ entry nr_lremovexattr 2
        (var_arg_string ∷ var_arg_string ∷ arg_none ∷ arg_none ∷ arg_none ∷ arg_none ∷ [])
    ∷ entry nr_fremovexattr 2
        (arg_fd ∷ var_arg_string ∷ arg_none ∷ arg_none ∷ arg_none ∷ arg_none ∷ [])
    ∷ entry nr_tkill 2 (arg_int ∷ arg_int ∷ arg_none ∷ arg_none ∷ arg_none ∷ arg_none ∷ [])
    ∷ entry nr_time 1 (arg_ptr ∷ arg_none ∷ arg_none ∷ arg_none ∷ arg_none ∷ arg_none ∷ [])
    ∷ entry nr_futex 6 (arg_ptr ∷ arg_int ∷ arg_uint ∷ arg_ptr ∷ arg_ptr ∷ arg_uint ∷ [])
    ∷ entry nr_sched_setaffinity 3
        (arg_int ∷ arg_uint ∷ arg_ptr ∷ arg_none ∷ arg_none ∷ arg_none ∷ [])
    ∷ entry nr_sched_getaffinity 3
        (arg_int ∷ arg_uint ∷ arg_ptr ∷ arg_none ∷ arg_none ∷ arg_none ∷ [])
    ∷ entry nr_io_setup 2 (arg_uint ∷ arg_ptr ∷ arg_none ∷ arg_none ∷ arg_none ∷ arg_none ∷ [])
    ∷ entry nr_io_destroy 1 (arg_int ∷ arg_none ∷ arg_none ∷ arg_none ∷ arg_none ∷ arg_none ∷ [])
    ∷ entry nr_io_getevents 5 (arg_int ∷ arg_uint ∷ arg_uint ∷ arg_ptr ∷ arg_ptr ∷ arg_none ∷ [])
    ∷ entry nr_io_submit 3 (arg_int ∷ arg_uint ∷ arg_ptr ∷ arg_none ∷ arg_none ∷ arg_none ∷ [])
    ∷ entry nr_io_cancel 3 (arg_int ∷ arg_ptr ∷ arg_ptr ∷ arg_none ∷ arg_none ∷ arg_none ∷ [])
    ∷ entry nr_epoll_create 1 (arg_int ∷ arg_none ∷ arg_none ∷ arg_none ∷ arg_none ∷ arg_none ∷ [])
    ∷ entry nr_remap_file_pages 5
        (arg_uint ∷ arg_uint ∷ arg_uint ∷ arg_uint ∷ arg_uint ∷ arg_none ∷ [])
    ∷ entry nr_getdents64 3 (arg_fd ∷ arg_ptr ∷ arg_uint ∷ arg_none ∷ arg_none ∷ arg_none ∷ [])
    ∷ entry nr_set_tid_address 1
        (arg_ptr ∷ arg_none ∷ arg_none ∷ arg_none ∷ arg_none ∷ arg_none ∷ [])
    ∷ entry nr_restart_syscall 0
        (arg_none ∷ arg_none ∷ arg_none ∷ arg_none ∷ arg_none ∷ arg_none ∷ [])
    ∷ entry nr_semtimedop 4 (arg_int ∷ arg_ptr ∷ arg_uint ∷ arg_ptr ∷ arg_none ∷ arg_none ∷ [])
    ∷ entry nr_fadvise64 4 (arg_fd ∷ arg_off ∷ arg_uint ∷ arg_int ∷ arg_none ∷ arg_none ∷ [])
    ∷ entry nr_timer_create 3 (arg_int ∷ arg_ptr ∷ arg_ptr ∷ arg_none ∷ arg_none ∷ arg_none ∷ [])
    ∷ entry nr_timer_settime 4 (arg_int ∷ arg_int ∷ arg_ptr ∷ arg_ptr ∷ arg_none ∷ arg_none ∷ [])
    ∷ entry nr_timer_gettime 2 (arg_int ∷ arg_ptr ∷ arg_none ∷ arg_none ∷ arg_none ∷ arg_none ∷ [])
    ∷ entry nr_timer_getoverrun 1
        (arg_int ∷ arg_none ∷ arg_none ∷ arg_none ∷ arg_none ∷ arg_none ∷ [])
    ∷ []
