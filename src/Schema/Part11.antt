-- ===== src/Schema/Part11.antt =====
-- internal/bpf/syscalls/x86_64.h: the schemas of __NR_seccomp to __NR_pidfd_open.
use litrace.Prelude.{List, [], ◌∷◌}
use litrace.Types.{
  SyscallArgSchema, arg_fd, arg_int, arg_mode, arg_none, arg_off, arg_ptr, arg_raw, arg_uint,
  var_arg_argv, var_arg_string,
}
use litrace.Syscalls.{
  nr_seccomp, nr_getrandom, nr_memfd_create, nr_kexec_file_load, nr_bpf, nr_execveat,
  nr_userfaultfd, nr_membarrier, nr_mlock2, nr_copy_file_range, nr_preadv2, nr_pwritev2,
  nr_pkey_mprotect, nr_pkey_alloc, nr_pkey_free, nr_statx, nr_io_pgetevents, nr_rseq, nr_uretprobe,
  nr_pidfd_send_signal, nr_io_uring_setup, nr_io_uring_enter, nr_io_uring_register, nr_open_tree,
  nr_move_mount, nr_fsopen, nr_fsconfig, nr_fsmount, nr_fspick, nr_pidfd_open,
}
use litrace.Schema.Entry.{entry}

unfoldable pub schemas_11 : List SyscallArgSchema
schemas_11 =
    entry nr_seccomp 3 (arg_uint ∷ arg_uint ∷ arg_ptr ∷ arg_none ∷ arg_none ∷ arg_none ∷ [])
    ∷ entry nr_getrandom 3
        (var_arg_string ∷ arg_uint ∷ arg_uint ∷ arg_none ∷ arg_none ∷ arg_none ∷ [])
    ∷ entry nr_memfd_create 2
        (var_arg_string ∷ arg_uint ∷ arg_none ∷ arg_none ∷ arg_none ∷ arg_none ∷ [])
    ∷ entry nr_kexec_file_load 5
        (arg_fd ∷ arg_fd ∷ arg_uint ∷ var_arg_string ∷ arg_uint ∷ arg_none ∷ [])
    ∷ entry nr_bpf 3 (arg_int ∷ arg_ptr ∷ arg_uint ∷ arg_none ∷ arg_none ∷ arg_none ∷ [])
    ∷ entry nr_execveat 5
        (arg_fd ∷ var_arg_string ∷ var_arg_argv ∷ var_arg_argv ∷ arg_int ∷ arg_none ∷ [])
    ∷ entry nr_userfaultfd 1 (arg_int ∷ arg_none ∷ arg_none ∷ arg_none ∷ arg_none ∷ arg_none ∷ [])
    ∷ entry nr_membarrier 3 (arg_int ∷ arg_uint ∷ arg_int ∷ arg_none ∷ arg_none ∷ arg_none ∷ [])
    ∷ entry nr_mlock2 3 (arg_uint ∷ arg_uint ∷ arg_int ∷ arg_none ∷ arg_none ∷ arg_none ∷ [])
    ∷ entry nr_copy_file_range 6 (arg_fd ∷ arg_off ∷ arg_fd ∷ arg_off ∷ arg_uint ∷ arg_uint ∷ [])
    ∷ entry nr_preadv2 6 (arg_fd ∷ arg_ptr ∷ arg_uint ∷ arg_uint ∷ arg_uint ∷ arg_raw ∷ [])
    ∷ entry nr_pwritev2 6 (arg_fd ∷ arg_ptr ∷ arg_uint ∷ arg_uint ∷ arg_uint ∷ arg_raw ∷ [])
    ∷ entry nr_pkey_mprotect 4 (arg_uint ∷ arg_uint ∷ arg_uint ∷ arg_int ∷ arg_none ∷ arg_none ∷ [])
    ∷ entry nr_pkey_alloc 2 (arg_uint ∷ arg_uint ∷ arg_none ∷ arg_none ∷ arg_none ∷ arg_none ∷ [])
    ∷ entry nr_pkey_free 1 (arg_int ∷ arg_none ∷ arg_none ∷ arg_none ∷ arg_none ∷ arg_none ∷ [])
    ∷ entry nr_statx 5 (arg_fd ∷ var_arg_string ∷ arg_uint ∷ arg_mode ∷ arg_ptr ∷ arg_none ∷ [])
    ∷ entry nr_io_pgetevents 6 (arg_int ∷ arg_uint ∷ arg_uint ∷ arg_ptr ∷ arg_ptr ∷ arg_ptr ∷ [])
    ∷ entry nr_rseq 4 (arg_ptr ∷ arg_uint ∷ arg_int ∷ arg_uint ∷ arg_none ∷ arg_none ∷ [])
    ∷ entry nr_uretprobe 0 (arg_none ∷ arg_none ∷ arg_none ∷ arg_none ∷ arg_none ∷ arg_none ∷ [])
    ∷ entry nr_pidfd_send_signal 4
        (arg_fd ∷ arg_int ∷ arg_ptr ∷ arg_uint ∷ arg_none ∷ arg_none ∷ [])
    ∷ entry nr_io_uring_setup 2
        (arg_uint ∷ arg_ptr ∷ arg_none ∷ arg_none ∷ arg_none ∷ arg_none ∷ [])
    ∷ entry nr_io_uring_enter 6 (arg_fd ∷ arg_uint ∷ arg_uint ∷ arg_uint ∷ arg_ptr ∷ arg_uint ∷ [])
    ∷ entry nr_io_uring_register 4
        (arg_fd ∷ arg_uint ∷ arg_ptr ∷ arg_uint ∷ arg_none ∷ arg_none ∷ [])
    ∷ entry nr_open_tree 3
        (arg_fd ∷ var_arg_string ∷ arg_uint ∷ arg_none ∷ arg_none ∷ arg_none ∷ [])
    ∷ entry nr_move_mount 5
        (arg_fd ∷ var_arg_string ∷ arg_fd ∷ var_arg_string ∷ arg_uint ∷ arg_none ∷ [])
    ∷ entry nr_fsopen 2 (var_arg_string ∷ arg_uint ∷ arg_none ∷ arg_none ∷ arg_none ∷ arg_none ∷ [])
    ∷ entry nr_fsconfig 5 (arg_fd ∷ arg_uint ∷ var_arg_string ∷ arg_ptr ∷ arg_int ∷ arg_none ∷ [])
    ∷ entry nr_fsmount 3 (arg_fd ∷ arg_uint ∷ arg_uint ∷ arg_none ∷ arg_none ∷ arg_none ∷ [])
    ∷ entry nr_fspick 3 (arg_fd ∷ var_arg_string ∷ arg_uint ∷ arg_none ∷ arg_none ∷ arg_none ∷ [])
    ∷ entry nr_pidfd_open 2 (arg_int ∷ arg_uint ∷ arg_none ∷ arg_none ∷ arg_none ∷ arg_none ∷ [])
    ∷ []
