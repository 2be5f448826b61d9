-- ===== src/Schema/Part12.antt =====
-- internal/bpf/syscalls/x86_64.h: the schemas of __NR_clone3 to __NR_getxattrat.
use litrace.Prelude.{List, [], ◌∷◌}
use litrace.Types.{
  SyscallArgSchema, arg_fd, arg_int, arg_mode, arg_none, arg_ptr, arg_raw, arg_uint, var_arg_string,
}
use litrace.Syscalls.{
  nr_clone3, nr_close_range, nr_openat2, nr_pidfd_getfd, nr_faccessat2, nr_process_madvise,
  nr_epoll_pwait2, nr_mount_setattr, nr_quotactl_fd, nr_landlock_create_ruleset,
  nr_landlock_add_rule, nr_landlock_restrict_self, nr_memfd_secret, nr_process_mrelease,
  nr_futex_waitv, nr_set_mempolicy_home_node, nr_cachestat, nr_fchmodat2, nr_map_shadow_stack,
  nr_futex_wake, nr_futex_wait, nr_futex_requeue, nr_statmount, nr_listmount, nr_lsm_get_self_attr,
  nr_lsm_set_self_attr, nr_lsm_list_modules, nr_mseal, nr_setxattrat, nr_getxattrat,
}
use litrace.Schema.Entry.{entry}

unfoldable pub schemas_12 : List SyscallArgSchema
schemas_12 =
    entry nr_clone3 2 (arg_ptr ∷ arg_uint ∷ arg_none ∷ arg_none ∷ arg_none ∷ arg_none ∷ [])
    ∷ entry nr_close_range 3 (arg_fd ∷ arg_fd ∷ arg_uint ∷ arg_none ∷ arg_none ∷ arg_none ∷ [])
    ∷ entry nr_openat2 4 (arg_fd ∷ var_arg_string ∷ arg_ptr ∷ arg_uint ∷ arg_none ∷ arg_none ∷ [])
    ∷ entry nr_pidfd_getfd 3 (arg_fd ∷ arg_fd ∷ arg_uint ∷ arg_none ∷ arg_none ∷ arg_none ∷ [])
    ∷ entry nr_faccessat2 4
        (arg_fd ∷ var_arg_string ∷ arg_mode ∷ arg_int ∷ arg_none ∷ arg_none ∷ [])
    ∷ entry nr_process_madvise 5 (arg_fd ∷ arg_ptr ∷ arg_uint ∷ arg_int ∷ arg_uint ∷ arg_none ∷ [])
    ∷ entry nr_epoll_pwait2 6 (arg_fd ∷ arg_ptr ∷ arg_int ∷ arg_ptr ∷ arg_ptr ∷ arg_uint ∷ [])
    ∷ entry nr_mount_setattr 5
        (arg_fd ∷ var_arg_string ∷ arg_uint ∷ arg_ptr ∷ arg_uint ∷ arg_none ∷ [])
    ∷ entry nr_quotactl_fd 4 (arg_fd ∷ arg_uint ∷ arg_int ∷ arg_ptr ∷ arg_none ∷ arg_none ∷ [])
    ∷ entry nr_landlock_create_ruleset 3
        (arg_ptr ∷ arg_uint ∷ arg_uint ∷ arg_none ∷ arg_none ∷ arg_none ∷ [])
    ∷ entry nr_landlock_add_rule 4
        (arg_fd ∷ arg_raw ∷ arg_ptr ∷ arg_uint ∷ arg_none ∷ arg_none ∷ [])
    ∷ entry nr_landlock_restrict_self 2
        (arg_fd ∷ arg_uint ∷ arg_none ∷ arg_none ∷ arg_none ∷ arg_none ∷ [])
    ∷ entry nr_memfd_secret 1 (arg_uint ∷ arg_none ∷ arg_none ∷ arg_none ∷ arg_none ∷ arg_none ∷ [])
    ∷ entry nr_process_mrelease 2
        (arg_fd ∷ arg_uint ∷ arg_none ∷ arg_none ∷ arg_none ∷ arg_none ∷ [])
    ∷ entry nr_futex_waitv 5 (arg_ptr ∷ arg_uint ∷ arg_uint ∷ arg_ptr ∷ arg_int ∷ arg_none ∷ [])
    ∷ entry nr_set_mempolicy_home_node 4
        (arg_uint ∷ arg_uint ∷ arg_uint ∷ arg_uint ∷ arg_none ∷ arg_none ∷ [])
    ∷ entry nr_cachestat 4 (arg_fd ∷ arg_ptr ∷ arg_ptr ∷ arg_uint ∷ arg_none ∷ arg_none ∷ [])
    ∷ entry nr_fchmodat2 4
        (arg_fd ∷ var_arg_string ∷ arg_mode ∷ arg_uint ∷ arg_none ∷ arg_none ∷ [])
    ∷ entry nr_map_shadow_stack 3
        (arg_uint ∷ arg_uint ∷ arg_uint ∷ arg_none ∷ arg_none ∷ arg_none ∷ [])
    ∷ entry nr_futex_wake 4 (arg_ptr ∷ arg_mode ∷ arg_int ∷ arg_uint ∷ arg_none ∷ arg_none ∷ [])
    ∷ entry nr_futex_wait 6 (arg_ptr ∷ arg_uint ∷ arg_mode ∷ arg_uint ∷ arg_ptr ∷ arg_int ∷ [])
    ∷ entry nr_futex_requeue 4 (arg_ptr ∷ arg_uint ∷ arg_int ∷ arg_int ∷ arg_none ∷ arg_none ∷ [])
    ∷ entry nr_statmount 4 (arg_ptr ∷ arg_ptr ∷ arg_uint ∷ arg_uint ∷ arg_none ∷ arg_none ∷ [])
    ∷ entry nr_listmount 4 (arg_ptr ∷ arg_ptr ∷ arg_uint ∷ arg_uint ∷ arg_none ∷ arg_none ∷ [])
    ∷ entry nr_lsm_get_self_attr 4
        (arg_uint ∷ arg_ptr ∷ arg_ptr ∷ arg_uint ∷ arg_none ∷ arg_none ∷ [])
    ∷ entry nr_lsm_set_self_attr 4
        (arg_uint ∷ arg_ptr ∷ arg_uint ∷ arg_uint ∷ arg_none ∷ arg_none ∷ [])
    ∷ entry nr_lsm_list_modules 3
        (arg_ptr ∷ arg_ptr ∷ arg_uint ∷ arg_none ∷ arg_none ∷ arg_none ∷ [])
    ∷ entry nr_mseal 3 (arg_uint ∷ arg_uint ∷ arg_uint ∷ arg_none ∷ arg_none ∷ arg_none ∷ [])
    ∷ entry nr_setxattrat 6
        (arg_fd ∷ var_arg_string ∷ arg_uint ∷ var_arg_string ∷ arg_ptr ∷ arg_uint ∷ [])
    ∷ entry nr_getxattrat 6
        (arg_fd ∷ var_arg_string ∷ arg_uint ∷ var_arg_string ∷ arg_ptr ∷ arg_uint ∷ [])
    ∷ []
