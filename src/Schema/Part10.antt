-- ===== src/Schema/Part10.antt =====
-- internal/bpf/syscalls/x86_64.h: the schemas of __NR_timerfd_gettime to __NR_renameat2.
use litrace.Prelude.{List, [], ◌∷◌}
use litrace.Types.{
  SyscallArgSchema, arg_fd, arg_int, arg_mode, arg_none, arg_ptr, arg_uint, var_arg_string,
}
use litrace.Syscalls.{
  nr_timerfd_gettime, nr_accept4, nr_signalfd4, nr_eventfd2, nr_epoll_create1, nr_dup3, nr_pipe2,
  nr_inotify_init1, nr_preadv, nr_pwritev, nr_rt_tgsigqueueinfo, nr_perf_event_open, nr_recvmmsg,
  nr_fanotify_init, nr_fanotify_mark, nr_prlimit64, nr_name_to_handle_at, nr_open_by_handle_at,
  nr_clock_adjtime, nr_syncfs, nr_sendmmsg, nr_setns, nr_getcpu, nr_process_vm_readv,
  nr_process_vm_writev, nr_kcmp, nr_finit_module, nr_sched_setattr, nr_sched_getattr, nr_renameat2,
}
use litrace.Schema.Entry.{entry}

unfoldable pub schemas_10 : List SyscallArgSchema
schemas_10 =
    entry nr_timerfd_gettime 2 (arg_fd ∷ arg_ptr ∷ arg_none ∷ arg_none ∷ arg_none ∷ arg_none ∷ [])
    ∷ entry nr_accept4 4 (arg_fd ∷ arg_ptr ∷ arg_ptr ∷ arg_int ∷ arg_none ∷ arg_none ∷ [])
    ∷ entry nr_signalfd4 4 (arg_fd ∷ arg_ptr ∷ arg_uint ∷ arg_int ∷ arg_none ∷ arg_none ∷ [])
    ∷ entry nr_eventfd2 2 (arg_uint ∷ arg_int ∷ arg_none ∷ arg_none ∷ arg_none ∷ arg_none ∷ [])
    ∷ entry nr_epoll_create1 1 (arg_int ∷ arg_none ∷ arg_none ∷ arg_none ∷ arg_none ∷ arg_none ∷ [])
    ∷ entry nr_dup3 3 (arg_fd ∷ arg_fd ∷ arg_int ∷ arg_none ∷ arg_none ∷ arg_none ∷ [])
    ∷ entry nr_pipe2 2 (arg_fd ∷ arg_int ∷ arg_none ∷ arg_none ∷ arg_none ∷ arg_none ∷ [])
    ∷ entry nr_inotify_init1 1 (arg_int ∷ arg_none ∷ arg_none ∷ arg_none ∷ arg_none ∷ arg_none ∷ [])
    ∷ entry nr_preadv 5 (arg_fd ∷ arg_ptr ∷ arg_uint ∷ arg_uint ∷ arg_uint ∷ arg_none ∷ [])
    ∷ entry nr_pwritev 5 (arg_fd ∷ arg_ptr ∷ arg_uint ∷ arg_uint ∷ arg_uint ∷ arg_none ∷ [])
    ∷ entry nr_rt_tgsigqueueinfo 4
        (arg_int ∷ arg_int ∷ arg_int ∷ arg_ptr ∷ arg_none ∷ arg_none ∷ [])
    ∷ entry nr_perf_event_open 5 (arg_ptr ∷ arg_int ∷ arg_int ∷ arg_fd ∷ arg_uint ∷ arg_none ∷ [])
    ∷ entry nr_recvmmsg 5 (arg_fd ∷ arg_ptr ∷ arg_uint ∷ arg_uint ∷ arg_ptr ∷ arg_none ∷ [])
    ∷ entry nr_fanotify_init 2
        (arg_uint ∷ arg_uint ∷ arg_none ∷ arg_none ∷ arg_none ∷ arg_none ∷ [])
    ∷ entry nr_fanotify_mark 5
        (arg_fd ∷ arg_uint ∷ arg_mode ∷ arg_fd ∷ var_arg_string ∷ arg_none ∷ [])
    ∷ entry nr_prlimit64 4 (arg_int ∷ arg_uint ∷ arg_ptr ∷ arg_ptr ∷ arg_none ∷ arg_none ∷ [])
    ∷ entry nr_name_to_handle_at 5
        (arg_fd ∷ var_arg_string ∷ arg_ptr ∷ arg_ptr ∷ arg_int ∷ arg_none ∷ [])
    ∷ entry nr_open_by_handle_at 3
        (arg_fd ∷ arg_ptr ∷ arg_int ∷ arg_none ∷ arg_none ∷ arg_none ∷ [])
    ∷ entry nr_clock_adjtime 2 (arg_int ∷ arg_ptr ∷ arg_none ∷ arg_none ∷ arg_none ∷ arg_none ∷ [])
    ∷ entry nr_syncfs 1 (arg_fd ∷ arg_none ∷ arg_none ∷ arg_none ∷ arg_none ∷ arg_none ∷ [])
    ∷ entry nr_sendmmsg 4 (arg_fd ∷ arg_ptr ∷ arg_uint ∷ arg_uint ∷ arg_none ∷ arg_none ∷ [])
    ∷ entry nr_setns 2 (arg_fd ∷ arg_int ∷ arg_none ∷ arg_none ∷ arg_none ∷ arg_none ∷ [])
    ∷ entry nr_getcpu 3 (arg_ptr ∷ arg_ptr ∷ arg_ptr ∷ arg_none ∷ arg_none ∷ arg_none ∷ [])
    ∷ entry nr_process_vm_readv 6
        (arg_int ∷ arg_ptr ∷ arg_uint ∷ arg_ptr ∷ arg_uint ∷ arg_uint ∷ [])
    ∷ entry nr_process_vm_writev 6
        (arg_int ∷ arg_ptr ∷ arg_uint ∷ arg_ptr ∷ arg_uint ∷ arg_uint ∷ [])
    ∷ entry nr_kcmp 5 (arg_int ∷ arg_int ∷ arg_int ∷ arg_uint ∷ arg_uint ∷ arg_none ∷ [])
    ∷ entry nr_finit_module 3
        (arg_fd ∷ var_arg_string ∷ arg_int ∷ arg_none ∷ arg_none ∷ arg_none ∷ [])
    ∷ entry nr_sched_setattr 3 (arg_int ∷ arg_ptr ∷ arg_uint ∷ arg_none ∷ arg_none ∷ arg_none ∷ [])
    ∷ entry nr_sched_getattr 4 (arg_int ∷ arg_ptr ∷ arg_uint ∷ arg_uint ∷ arg_none ∷ arg_none ∷ [])
    ∷ entry nr_renameat2 5
        (arg_fd ∷ var_arg_string ∷ arg_fd ∷ var_arg_string ∷ arg_uint ∷ arg_none ∷ [])
    ∷ []
