-- ===== src/Schema/Part3.antt =====
-- internal/bpf/syscalls/x86_64.h: the schemas of __NR_exit to __NR_readlink.
use litrace.Prelude.{List, [], ◌∷◌}
use litrace.Types.{
  SyscallArgSchema, arg_fd, arg_int, arg_mode, arg_none, arg_off, arg_ptr, arg_uint, var_arg_string,
}
use litrace.Syscalls.{
  nr_exit, nr_wait4, nr_kill, nr_newuname, nr_semget, nr_semop, nr_semctl, nr_shmdt, nr_msgget,
  nr_msgsnd, nr_msgrcv, nr_msgctl, nr_fcntl, nr_flock, nr_fsync, nr_fdatasync, nr_truncate,
  nr_ftruncate, nr_getdents, nr_getcwd, nr_chdir, nr_fchdir, nr_rename, nr_mkdir, nr_rmdir,
  nr_creat, nr_link, nr_unlink, nr_symlink, nr_readlink,
}
use litrace.Schema.Entry.{entry}

unfoldable pub schemas_3 : List SyscallArgSchema
schemas_3 =
    entry nr_exit 1 (arg_int ∷ arg_none ∷ arg_none ∷ arg_none ∷ arg_none ∷ arg_none ∷ [])
    ∷ entry nr_wait4 4 (arg_int ∷ arg_ptr ∷ arg_int ∷ arg_ptr ∷ arg_none ∷ arg_none ∷ [])
    ∷ entry nr_kill 2 (arg_int ∷ arg_int ∷ arg_none ∷ arg_none ∷ arg_none ∷ arg_none ∷ [])
    ∷ entry nr_newuname 1 (arg_ptr ∷ arg_none ∷ arg_none ∷ arg_none ∷ arg_none ∷ arg_none ∷ [])
    ∷ entry nr_semget 3 (arg_int ∷ arg_int ∷ arg_int ∷ arg_none ∷ arg_none ∷ arg_none ∷ [])
    ∷ entry nr_semop 3 (arg_int ∷ arg_ptr ∷ arg_uint ∷ arg_none ∷ arg_none ∷ arg_none ∷ [])
    ∷ entry nr_semctl 4 (arg_int ∷ arg_int ∷ arg_int ∷ arg_uint ∷ arg_none ∷ arg_none ∷ [])
    ∷ entry nr_shmdt 1 (var_arg_string ∷ arg_none ∷ arg_none ∷ arg_none ∷ arg_none ∷ arg_none ∷ [])
    ∷ entry nr_msgget 2 (arg_int ∷ arg_int ∷ arg_none ∷ arg_none ∷ arg_none ∷ arg_none ∷ [])
    ∷ entry nr_msgsnd 4 (arg_int ∷ arg_ptr ∷ arg_uint ∷ arg_int ∷ arg_none ∷ arg_none ∷ [])
    ∷ entry nr_msgrcv 5 (arg_int ∷ arg_ptr ∷ arg_uint ∷ arg_uint ∷ arg_int ∷ arg_none ∷ [])
    ∷ entry nr_msgctl 3 (arg_int ∷ arg_int ∷ arg_ptr ∷ arg_none ∷ arg_none ∷ arg_none ∷ [])
    ∷ entry nr_fcntl 3 (arg_fd ∷ arg_uint ∷ arg_uint ∷ arg_none ∷ arg_none ∷ arg_none ∷ [])
    ∷ entry nr_flock 2 (arg_fd ∷ arg_uint ∷ arg_none ∷ arg_none ∷ arg_none ∷ arg_none ∷ [])
    ∷ entry nr_fsync 1 (arg_fd ∷ arg_none ∷ arg_none ∷ arg_none ∷ arg_none ∷ arg_none ∷ [])
    ∷ entry nr_fdatasync 1 (arg_fd ∷ arg_none ∷ arg_none ∷ arg_none ∷ arg_none ∷ arg_none ∷ [])
    ∷ entry nr_truncate 2
        (var_arg_string ∷ arg_uint ∷ arg_none ∷ arg_none ∷ arg_none ∷ arg_none ∷ [])
    ∷ entry nr_ftruncate 2 (arg_fd ∷ arg_off ∷ arg_none ∷ arg_none ∷ arg_none ∷ arg_none ∷ [])
    ∷ entry nr_getdents 3 (arg_fd ∷ arg_ptr ∷ arg_uint ∷ arg_none ∷ arg_none ∷ arg_none ∷ [])
    ∷ entry nr_getcwd 2 (var_arg_string ∷ arg_uint ∷ arg_none ∷ arg_none ∷ arg_none ∷ arg_none ∷ [])
    ∷ entry nr_chdir 1 (var_arg_string ∷ arg_none ∷ arg_none ∷ arg_none ∷ arg_none ∷ arg_none ∷ [])
    ∷ entry nr_fchdir 1 (arg_fd ∷ arg_none ∷ arg_none ∷ arg_none ∷ arg_none ∷ arg_none ∷ [])
    ∷ entry nr_rename 2
        (var_arg_string ∷ var_arg_string ∷ arg_none ∷ arg_none ∷ arg_none ∷ arg_none ∷ [])
    ∷ entry nr_mkdir 2 (var_arg_string ∷ arg_mode ∷ arg_none ∷ arg_none ∷ arg_none ∷ arg_none ∷ [])
    ∷ entry nr_rmdir 1 (var_arg_string ∷ arg_none ∷ arg_none ∷ arg_none ∷ arg_none ∷ arg_none ∷ [])
    ∷ entry nr_creat 2 (var_arg_string ∷ arg_mode ∷ arg_none ∷ arg_none ∷ arg_none ∷ arg_none ∷ [])
    ∷ entry nr_link 2
        (var_arg_string ∷ var_arg_string ∷ arg_none ∷ arg_none ∷ arg_none ∷ arg_none ∷ [])
    ∷ entry nr_unlink 1 (var_arg_string ∷ arg_none ∷ arg_none ∷ arg_none ∷ arg_none ∷ arg_none ∷ [])
    ∷ entry nr_symlink 2
        (var_arg_string ∷ var_arg_string ∷ arg_none ∷ arg_none ∷ arg_none ∷ arg_none ∷ [])
    ∷ entry nr_readlink 3
        (var_arg_string ∷ var_arg_string ∷ arg_int ∷ arg_none ∷ arg_none ∷ arg_none ∷ [])
    ∷ []
