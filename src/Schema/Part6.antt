-- ===== src/Schema/Part6.antt =====
-- internal/bpf/syscalls/x86_64.h: the schemas of __NR_mlockall to __NR_fsetxattr.
use litrace.Prelude.{List, [], ◌∷◌}
use litrace.Types.{
  SyscallArgSchema, arg_fd, arg_int, arg_none, arg_off, arg_ptr, arg_uint, var_arg_string,
}
use litrace.Syscalls.{
  nr_mlockall, nr_munlockall, nr_vhangup, nr_modify_ldt, nr_pivot_root, nr_prctl, nr_arch_prctl,
  nr_adjtimex, nr_setrlimit, nr_chroot, nr_sync, nr_acct, nr_settimeofday, nr_mount, nr_umount,
  nr_swapon, nr_swapoff, nr_reboot, nr_sethostname, nr_setdomainname, nr_iopl, nr_ioperm,
  nr_init_module, nr_delete_module, nr_quotactl, nr_gettid, nr_readahead, nr_setxattr, nr_lsetxattr,
  nr_fsetxattr,
}
use litrace.Schema.Entry.{entry}

unfoldable pub schemas_6 : List SyscallArgSchema
schemas_6 =
    entry nr_mlockall 1 (arg_int ∷ arg_none ∷ arg_none ∷ arg_none ∷ arg_none ∷ arg_none ∷ [])
    ∷ entry nr_munlockall 0 (arg_none ∷ arg_none ∷ arg_none ∷ arg_none ∷ arg_none ∷ arg_none ∷ [])
    ∷ entry nr_vhangup 0 (arg_none ∷ arg_none ∷ arg_none ∷ arg_none ∷ arg_none ∷ arg_none ∷ [])
    ∷ entry nr_modify_ldt 3 (arg_int ∷ arg_ptr ∷ arg_uint ∷ arg_none ∷ arg_none ∷ arg_none ∷ [])
    ∷ entry nr_pivot_root 2
        (var_arg_string ∷ var_arg_string ∷ arg_none ∷ arg_none ∷ arg_none ∷ arg_none ∷ [])
    ∷ entry nr_prctl 5 (arg_int ∷ arg_uint ∷ arg_uint ∷ arg_uint ∷ arg_uint ∷ arg_none ∷ [])
    ∷ entry nr_arch_prctl 2 (arg_int ∷ arg_uint ∷ arg_none ∷ arg_none ∷ arg_none ∷ arg_none ∷ [])
    ∷ entry nr_adjtimex 1 (arg_ptr ∷ arg_none ∷ arg_none ∷ arg_none ∷ arg_none ∷ arg_none ∷ [])
    ∷ entry nr_setrlimit 2 (arg_uint ∷ arg_ptr ∷ arg_none ∷ arg_none ∷ arg_none ∷ arg_none ∷ [])
    ∷ entry nr_chroot 1 (var_arg_string ∷ arg_none ∷ arg_none ∷ arg_none ∷ arg_none ∷ arg_none ∷ [])
    ∷ entry nr_sync 0 (arg_none ∷ arg_none ∷ arg_none ∷ arg_none ∷ arg_none ∷ arg_none ∷ [])
    ∷ entry nr_acct 1 (var_arg_string ∷ arg_none ∷ arg_none ∷ arg_none ∷ arg_none ∷ arg_none ∷ [])
    ∷ entry nr_settimeofday 2 (arg_ptr ∷ arg_ptr ∷ arg_none ∷ arg_none ∷ arg_none ∷ arg_none ∷ [])
    ∷ entry nr_mount 5
        (var_arg_string ∷ var_arg_string ∷ var_arg_string ∷ arg_uint ∷ arg_ptr ∷ arg_none ∷ [])
    ∷ entry nr_umount 2 (var_arg_string ∷ arg_int ∷ arg_none ∷ arg_none ∷ arg_none ∷ arg_none ∷ [])
    ∷ entry nr_swapon 2 (var_arg_string ∷ arg_int ∷ arg_none ∷ arg_none ∷ arg_none ∷ arg_none ∷ [])
    ∷ entry nr_swapoff 1
        (var_arg_string ∷ arg_none ∷ arg_none ∷ arg_none ∷ arg_none ∷ arg_none ∷ [])
    ∷ entry nr_reboot 4 (arg_int ∷ arg_int ∷ arg_uint ∷ arg_ptr ∷ arg_none ∷ arg_none ∷ [])
    ∷ entry nr_sethostname 2
        (var_arg_string ∷ arg_int ∷ arg_none ∷ arg_none ∷ arg_none ∷ arg_none ∷ [])
    ∷ entry nr_setdomainname 2
        (var_arg_string ∷ arg_int ∷ arg_none ∷ arg_none ∷ arg_none ∷ arg_none ∷ [])
    ∷ entry nr_iopl 1 (arg_uint ∷ arg_none ∷ arg_none ∷ arg_none ∷ arg_none ∷ arg_none ∷ [])
    ∷ entry nr_ioperm 3 (arg_uint ∷ arg_uint ∷ arg_int ∷ arg_none ∷ arg_none ∷ arg_none ∷ [])
    ∷ entry nr_init_module 3
        (arg_ptr ∷ arg_uint ∷ var_arg_string ∷ arg_none ∷ arg_none ∷ arg_none ∷ [])
    ∷ entry nr_delete_module 2
        (var_arg_string ∷ arg_uint ∷ arg_none ∷ arg_none ∷ arg_none ∷ arg_none ∷ [])
    ∷ entry nr_quotactl 4 (arg_uint ∷ var_arg_string ∷ arg_int ∷ arg_ptr ∷ arg_none ∷ arg_none ∷ [])
    ∷ entry nr_gettid 0 (arg_none ∷ arg_none ∷ arg_none ∷ arg_none ∷ arg_none ∷ arg_none ∷ [])
    ∷ entry nr_readahead 3 (arg_fd ∷ arg_off ∷ arg_uint ∷ arg_none ∷ arg_none ∷ arg_none ∷ [])
    ∷ entry nr_setxattr 5
        (var_arg_string ∷ var_arg_string ∷ arg_ptr ∷ arg_uint ∷ arg_int ∷ arg_none ∷ [])
    ∷ entry nr_lsetxattr 5
        (var_arg_string ∷ var_arg_string ∷ arg_ptr ∷ arg_uint ∷ arg_int ∷ arg_none ∷ [])
    ∷ entry nr_fsetxattr 5 (arg_fd ∷ var_arg_string ∷ arg_ptr ∷ arg_uint ∷ arg_int ∷ arg_none ∷ [])
    ∷ []
