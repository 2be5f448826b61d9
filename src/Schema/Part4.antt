-- ===== src/Schema/Part4.antt =====
-- internal/bpf/syscalls/x86_64.h: the schemas of __NR_chmod to __NR_setresgid.
use litrace.Prelude.{List, [], ◌∷◌}
use litrace.Types.{
  SyscallArgSchema, arg_fd, arg_int, arg_mode, arg_none, arg_ptr, arg_uint, var_arg_string,
}
use litrace.Syscalls.{
  nr_chmod, nr_fchmod, nr_chown, nr_fchown, nr_lchown, nr_umask, nr_gettimeofday, nr_getrlimit,
  nr_getrusage, nr_sysinfo, nr_times, nr_ptrace, nr_getuid, nr_syslog, nr_getgid, nr_setuid,
  nr_setgid, nr_geteuid, nr_getegid, nr_setpgid, nr_getppid, nr_getpgrp, nr_setsid, nr_setreuid,
  nr_setregid, nr_getgroups, nr_setgroups, nr_setresuid, nr_getresuid, nr_setresgid,
}
use litrace.Schema.Entry.{entry}

unfoldable pub schemas_4 : List SyscallArgSchema
schemas_4 =
    entry nr_chmod 2 (var_arg_string ∷ arg_mode ∷ arg_none ∷ arg_none ∷ arg_none ∷ arg_none ∷ [])
    ∷ entry nr_fchmod 2 (arg_fd ∷ arg_mode ∷ arg_none ∷ arg_none ∷ arg_none ∷ arg_none ∷ [])
    ∷ entry nr_chown 3 (var_arg_string ∷ arg_int ∷ arg_int ∷ arg_none ∷ arg_none ∷ arg_none ∷ [])
    ∷ entry nr_fchown 3 (arg_fd ∷ arg_int ∷ arg_int ∷ arg_none ∷ arg_none ∷ arg_none ∷ [])
    ∷ entry nr_lchown 3 (var_arg_string ∷ arg_int ∷ arg_int ∷ arg_none ∷ arg_none ∷ arg_none ∷ [])
    ∷ entry nr_umask 1 (arg_mode ∷ arg_none ∷ arg_none ∷ arg_none ∷ arg_none ∷ arg_none ∷ [])
    ∷ entry nr_gettimeofday 2 (arg_ptr ∷ arg_ptr ∷ arg_none ∷ arg_none ∷ arg_none ∷ arg_none ∷ [])
    ∷ entry nr_getrlimit 2 (arg_uint ∷ arg_ptr ∷ arg_none ∷ arg_none ∷ arg_none ∷ arg_none ∷ [])
    ∷ entry nr_getrusage 2 (arg_int ∷ arg_ptr ∷ arg_none ∷ arg_none ∷ arg_none ∷ arg_none ∷ [])
    ∷ entry nr_sysinfo 1 (arg_ptr ∷ arg_none ∷ arg_none ∷ arg_none ∷ arg_none ∷ arg_none ∷ [])
    ∷ entry nr_times 1 (arg_ptr ∷ arg_none ∷ arg_none ∷ arg_none ∷ arg_none ∷ arg_none ∷ [])
    ∷ entry nr_ptrace 4 (arg_uint ∷ arg_uint ∷ arg_uint ∷ arg_uint ∷ arg_none ∷ arg_none ∷ [])
    ∷ entry nr_getuid 0 (arg_none ∷ arg_none ∷ arg_none ∷ arg_none ∷ arg_none ∷ arg_none ∷ [])
    ∷ entry nr_syslog 3 (arg_int ∷ var_arg_string ∷ arg_int ∷ arg_none ∷ arg_none ∷ arg_none ∷ [])
    ∷ entry nr_getgid 0 (arg_none ∷ arg_none ∷ arg_none ∷ arg_none ∷ arg_none ∷ arg_none ∷ [])
    ∷ entry nr_setuid 1 (arg_int ∷ arg_none ∷ arg_none ∷ arg_none ∷ arg_none ∷ arg_none ∷ [])
    ∷ entry nr_setgid 1 (arg_int ∷ arg_none ∷ arg_none ∷ arg_none ∷ arg_none ∷ arg_none ∷ [])
    ∷ entry nr_geteuid 0 (arg_none ∷ arg_none ∷ arg_none ∷ arg_none ∷ arg_none ∷ arg_none ∷ [])
    ∷ entry nr_getegid 0 (arg_none ∷ arg_none ∷ arg_none ∷ arg_none ∷ arg_none ∷ arg_none ∷ [])
    ∷ entry nr_setpgid 2 (arg_int ∷ arg_int ∷ arg_none ∷ arg_none ∷ arg_none ∷ arg_none ∷ [])
    ∷ entry nr_getppid 0 (arg_none ∷ arg_none ∷ arg_none ∷ arg_none ∷ arg_none ∷ arg_none ∷ [])
    ∷ entry nr_getpgrp 0 (arg_none ∷ arg_none ∷ arg_none ∷ arg_none ∷ arg_none ∷ arg_none ∷ [])
    ∷ entry nr_setsid 0 (arg_none ∷ arg_none ∷ arg_none ∷ arg_none ∷ arg_none ∷ arg_none ∷ [])
    ∷ entry nr_setreuid 2 (arg_int ∷ arg_int ∷ arg_none ∷ arg_none ∷ arg_none ∷ arg_none ∷ [])
    ∷ entry nr_setregid 2 (arg_int ∷ arg_int ∷ arg_none ∷ arg_none ∷ arg_none ∷ arg_none ∷ [])
    ∷ entry nr_getgroups 2 (arg_int ∷ arg_ptr ∷ arg_none ∷ arg_none ∷ arg_none ∷ arg_none ∷ [])
    ∷ entry nr_setgroups 2 (arg_int ∷ arg_ptr ∷ arg_none ∷ arg_none ∷ arg_none ∷ arg_none ∷ [])
    ∷ entry nr_setresuid 3 (arg_int ∷ arg_int ∷ arg_int ∷ arg_none ∷ arg_none ∷ arg_none ∷ [])
    ∷ entry nr_getresuid 3 (arg_ptr ∷ arg_ptr ∷ arg_ptr ∷ arg_none ∷ arg_none ∷ arg_none ∷ [])
    ∷ entry nr_setresgid 3 (arg_int ∷ arg_int ∷ arg_int ∷ arg_none ∷ arg_none ∷ arg_none ∷ [])
    ∷ []
