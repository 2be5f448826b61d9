-- ===== src/Schema/Part5.antt =====
-- internal/bpf/syscalls/x86_64.h: the schemas of __NR_getresgid to __NR_munlock.
use litrace.Prelude.{List, [], ◌∷◌}
use litrace.Types.{
  SyscallArgSchema, arg_fd, arg_int, arg_mode, arg_none, arg_ptr, arg_raw, arg_uint, var_arg_string,
}
use litrace.Syscalls.{
  nr_getresgid, nr_getpgid, nr_setfsuid, nr_setfsgid, nr_getsid, nr_capget, nr_capset,
  nr_rt_sigpending, nr_rt_sigtimedwait, nr_rt_sigqueueinfo, nr_rt_sigsuspend, nr_sigaltstack,
  nr_utime, nr_mknod, nr_personality, nr_ustat, nr_statfs, nr_fstatfs, nr_sysfs, nr_getpriority,
  nr_setpriority, nr_sched_setparam, nr_sched_getparam, nr_sched_setscheduler,
  nr_sched_getscheduler, nr_sched_get_priority_max, nr_sched_get_priority_min,
  nr_sched_rr_get_interval, nr_mlock, nr_munlock,
}
use litrace.Schema.Entry.{entry}

unfoldable pub schemas_5 : List SyscallArgSchema
schemas_5 =
    entry nr_getresgid 3 (arg_ptr ∷ arg_ptr ∷ arg_ptr ∷ arg_none ∷ arg_none ∷ arg_none ∷ [])
    ∷ entry nr_getpgid 1 (arg_int ∷ arg_none ∷ arg_none ∷ arg_none ∷ arg_none ∷ arg_none ∷ [])
    ∷ entry nr_setfsuid 1 (arg_int ∷ arg_none ∷ arg_none ∷ arg_none ∷ arg_none ∷ arg_none ∷ [])
    ∷ entry nr_setfsgid 1 (arg_int ∷ arg_none ∷ arg_none ∷ arg_none ∷ arg_none ∷ arg_none ∷ [])
    ∷ entry nr_getsid 1 (arg_int ∷ arg_none ∷ arg_none ∷ arg_none ∷ arg_none ∷ arg_none ∷ [])
    ∷ entry nr_capget 2 (arg_raw ∷ arg_raw ∷ arg_none ∷ arg_none ∷ arg_none ∷ arg_none ∷ [])
    ∷ entry nr_capset 2 (arg_raw ∷ arg_raw ∷ arg_none ∷ arg_none ∷ arg_none ∷ arg_none ∷ [])
    ∷ entry nr_rt_sigpending 2 (arg_ptr ∷ arg_uint ∷ arg_none ∷ arg_none ∷ arg_none ∷ arg_none ∷ [])
    ∷ entry nr_rt_sigtimedwait 4 (arg_ptr ∷ arg_ptr ∷ arg_ptr ∷ arg_uint ∷ arg_none ∷ arg_none ∷ [])
    ∷ entry nr_rt_sigqueueinfo 3 (arg_int ∷ arg_int ∷ arg_ptr ∷ arg_none ∷ arg_none ∷ arg_none ∷ [])
    ∷ entry nr_rt_sigsuspend 2 (arg_ptr ∷ arg_uint ∷ arg_none ∷ arg_none ∷ arg_none ∷ arg_none ∷ [])
    ∷ entry nr_sigaltstack 2 (arg_ptr ∷ arg_ptr ∷ arg_none ∷ arg_none ∷ arg_none ∷ arg_none ∷ [])
    ∷ entry nr_utime 2 (var_arg_string ∷ arg_ptr ∷ arg_none ∷ arg_none ∷ arg_none ∷ arg_none ∷ [])
    ∷ entry nr_mknod 3 (var_arg_string ∷ arg_mode ∷ arg_uint ∷ arg_none ∷ arg_none ∷ arg_none ∷ [])
    ∷ entry nr_personality 1 (arg_uint ∷ arg_none ∷ arg_none ∷ arg_none ∷ arg_none ∷ arg_none ∷ [])
    ∷ entry nr_ustat 2 (arg_uint ∷ arg_ptr ∷ arg_none ∷ arg_none ∷ arg_none ∷ arg_none ∷ [])
    ∷ entry nr_statfs 2 (var_arg_string ∷ arg_ptr ∷ arg_none ∷ arg_none ∷ arg_none ∷ arg_none ∷ [])
    ∷ entry nr_fstatfs 2 (arg_fd ∷ arg_ptr ∷ arg_none ∷ arg_none ∷ arg_none ∷ arg_none ∷ [])
    ∷ entry nr_sysfs 3 (arg_int ∷ arg_uint ∷ arg_uint ∷ arg_none ∷ arg_none ∷ arg_none ∷ [])
    ∷ entry nr_getpriority 2 (arg_int ∷ arg_int ∷ arg_none ∷ arg_none ∷ arg_none ∷ arg_none ∷ [])
    ∷ entry nr_setpriority 3 (arg_int ∷ arg_int ∷ arg_int ∷ arg_none ∷ arg_none ∷ arg_none ∷ [])
    ∷ entry nr_sched_setparam 2 (arg_int ∷ arg_ptr ∷ arg_none ∷ arg_none ∷ arg_none ∷ arg_none ∷ [])
    ∷ entry nr_sched_getparam 2 (arg_int ∷ arg_ptr ∷ arg_none ∷ arg_none ∷ arg_none ∷ arg_none ∷ [])
    ∷ entry nr_sched_setscheduler 3
        (arg_int ∷ arg_int ∷ arg_ptr ∷ arg_none ∷ arg_none ∷ arg_none ∷ [])
    ∷ entry nr_sched_getscheduler 1
        (arg_int ∷ arg_none ∷ arg_none ∷ arg_none ∷ arg_none ∷ arg_none ∷ [])
    ∷ entry nr_sched_get_priority_max 1
        (arg_int ∷ arg_none ∷ arg_none ∷ arg_none ∷ arg_none ∷ arg_none ∷ [])
    ∷ entry nr_sched_get_priority_min 1
        (arg_int ∷ arg_none ∷ arg_none ∷ arg_none ∷ arg_none ∷ arg_none ∷ [])
    ∷ entry nr_sched_rr_get_interval 2
        (arg_int ∷ arg_ptr ∷ arg_none ∷ arg_none ∷ arg_none ∷ arg_none ∷ [])
    ∷ entry nr_mlock 2 (arg_uint ∷ arg_uint ∷ arg_none ∷ arg_none ∷ arg_none ∷ arg_none ∷ [])
    ∷ entry nr_munlock 2 (arg_uint ∷ arg_uint ∷ arg_none ∷ arg_none ∷ arg_none ∷ arg_none ∷ [])
    ∷ []
