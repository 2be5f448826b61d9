-- ===== src/Schema/Part8.antt =====
-- internal/bpf/syscalls/x86_64.h: the schemas of __NR_timer_delete to __NR_migrate_pages.
use litrace.Prelude.{List, [], ◌∷◌}
use litrace.Types.{
  SyscallArgSchema, arg_fd, arg_int, arg_mode, arg_none, arg_ptr, arg_raw, arg_uint, var_arg_string,
}
use litrace.Syscalls.{
  nr_timer_delete, nr_clock_settime, nr_clock_gettime, nr_clock_getres, nr_clock_nanosleep,
  nr_exit_group, nr_epoll_wait, nr_epoll_ctl, nr_tgkill, nr_utimes, nr_mbind, nr_set_mempolicy,
  nr_get_mempolicy, nr_mq_open, nr_mq_unlink, nr_mq_timedsend, nr_mq_timedreceive, nr_mq_notify,
  nr_mq_getsetattr, nr_kexec_load, nr_waitid, nr_add_key, nr_request_key, nr_keyctl, nr_ioprio_set,
  nr_ioprio_get, nr_inotify_init, nr_inotify_add_watch, nr_inotify_rm_watch, nr_migrate_pages,
}
use litrace.Schema.Entry.{entry}

unfoldable pub schemas_8 : List SyscallArgSchema
schemas_8 =
    entry nr_timer_delete 1 (arg_int ∷ arg_none ∷ arg_none ∷ arg_none ∷ arg_none ∷ arg_none ∷ [])
    ∷ entry nr_clock_settime 2 (arg_int ∷ arg_ptr ∷ arg_none ∷ arg_none ∷ arg_none ∷ arg_none ∷ [])
    ∷ entry nr_clock_gettime 2 (arg_int ∷ arg_ptr ∷ arg_none ∷ arg_none ∷ arg_none ∷ arg_none ∷ [])
    ∷ entry nr_clock_getres 2 (arg_int ∷ arg_ptr ∷ arg_none ∷ arg_none ∷ arg_none ∷ arg_none ∷ [])
    ∷ entry nr_clock_nanosleep 4 (arg_int ∷ arg_int ∷ arg_ptr ∷ arg_ptr ∷ arg_none ∷ arg_none ∷ [])
    ∷ entry nr_exit_group 1 (arg_int ∷ arg_none ∷ arg_none ∷ arg_none ∷ arg_none ∷ arg_none ∷ [])
    ∷ entry nr_epoll_wait 4 (arg_fd ∷ arg_ptr ∷ arg_int ∷ arg_int ∷ arg_none ∷ arg_none ∷ [])
    ∷ entry nr_epoll_ctl 4 (arg_fd ∷ arg_int ∷ arg_fd ∷ arg_ptr ∷ arg_none ∷ arg_none ∷ [])
    ∷ entry nr_tgkill 3 (arg_int ∷ arg_int ∷ arg_int ∷ arg_none ∷ arg_none ∷ arg_none ∷ [])
    ∷ entry nr_utimes 2 (var_arg_string ∷ arg_ptr ∷ arg_none ∷ arg_none ∷ arg_none ∷ arg_none ∷ [])
    ∷ entry nr_mbind 6 (arg_uint ∷ arg_uint ∷ arg_mode ∷ arg_ptr ∷ arg_uint ∷ arg_uint ∷ [])
    ∷ entry nr_set_mempolicy 3 (arg_mode ∷ arg_ptr ∷ arg_uint ∷ arg_none ∷ arg_none ∷ arg_none ∷ [])
    ∷ entry nr_get_mempolicy 5 (arg_ptr ∷ arg_ptr ∷ arg_uint ∷ arg_uint ∷ arg_uint ∷ arg_none ∷ [])
    ∷ entry nr_mq_open 4 (var_arg_string ∷ arg_int ∷ arg_mode ∷ arg_ptr ∷ arg_none ∷ arg_none ∷ [])
    ∷ entry nr_mq_unlink 1
        (var_arg_string ∷ arg_none ∷ arg_none ∷ arg_none ∷ arg_none ∷ arg_none ∷ [])
    ∷ entry nr_mq_timedsend 5
        (arg_int ∷ var_arg_string ∷ arg_uint ∷ arg_uint ∷ arg_ptr ∷ arg_none ∷ [])
    ∷ entry nr_mq_timedreceive 5
        (arg_int ∷ var_arg_string ∷ arg_uint ∷ arg_ptr ∷ arg_ptr ∷ arg_none ∷ [])
    ∷ entry nr_mq_notify 2 (arg_int ∷ arg_ptr ∷ arg_none ∷ arg_none ∷ arg_none ∷ arg_none ∷ [])
    ∷ entry nr_mq_getsetattr 3 (arg_int ∷ arg_ptr ∷ arg_ptr ∷ arg_none ∷ arg_none ∷ arg_none ∷ [])
    ∷ entry nr_kexec_load 4 (arg_uint ∷ arg_uint ∷ arg_ptr ∷ arg_uint ∷ arg_none ∷ arg_none ∷ [])
    ∷ entry nr_waitid 5 (arg_int ∷ arg_int ∷ arg_ptr ∷ arg_int ∷ arg_ptr ∷ arg_none ∷ [])
    ∷ entry nr_add_key 5
        (var_arg_string ∷ var_arg_string ∷ arg_ptr ∷ arg_uint ∷ arg_raw ∷ arg_none ∷ [])
    ∷ entry nr_request_key 4
        (var_arg_string ∷ var_arg_string ∷ var_arg_string ∷ arg_raw ∷ arg_none ∷ arg_none ∷ [])
    ∷ entry nr_keyctl 5 (arg_int ∷ arg_uint ∷ arg_uint ∷ arg_uint ∷ arg_uint ∷ arg_none ∷ [])
    ∷ entry nr_ioprio_set 3 (arg_int ∷ arg_int ∷ arg_int ∷ arg_none ∷ arg_none ∷ arg_none ∷ [])
    ∷ entry nr_ioprio_get 2 (arg_int ∷ arg_int ∷ arg_none ∷ arg_none ∷ arg_none ∷ arg_none ∷ [])
    ∷ entry nr_inotify_init 0 (arg_none ∷ arg_none ∷ arg_none ∷ arg_none ∷ arg_none ∷ arg_none ∷ [])
    ∷ entry nr_inotify_add_watch 3
        (arg_fd ∷ var_arg_string ∷ arg_mode ∷ arg_none ∷ arg_none ∷ arg_none ∷ [])
    ∷ entry nr_inotify_rm_watch 2
        (arg_fd ∷ arg_int ∷ arg_none ∷ arg_none ∷ arg_none ∷ arg_none ∷ [])
    ∷ entry nr_migrate_pages 4 (arg_int ∷ arg_uint ∷ arg_ptr ∷ arg_ptr ∷ arg_none ∷ arg_none ∷ [])
    ∷ []
