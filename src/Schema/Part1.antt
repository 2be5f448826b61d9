-- ===== src/Schema/Part1.antt =====
-- internal/bpf/syscalls/x86_64.h: the schemas of __NR_read to __NR_shmget.
use litrace.Prelude.{List, [], ◌∷◌}
use litrace.Types.{
  SyscallArgSchema, arg_fd, arg_flags, arg_int, arg_mode, arg_none, arg_off, arg_ptr, arg_uint,
  var_arg_bytes, var_arg_string,
}
use litrace.Syscalls.{
  nr_read, nr_write, nr_open, nr_close, nr_newstat, nr_newfstat, nr_newlstat, nr_poll, nr_lseek,
  nr_mmap, nr_mprotect, nr_munmap, nr_brk, nr_rt_sigaction, nr_rt_sigprocmask, nr_rt_sigreturn,
  nr_ioctl, nr_pread64, nr_pwrite64, nr_readv, nr_writev, nr_access, nr_pipe, nr_select,
  nr_sched_yield, nr_mremap, nr_msync, nr_mincore, nr_madvise, nr_shmget,
}
use litrace.Schema.Entry.{entry}

unfoldable pub schemas_1 : List SyscallArgSchema
schemas_1 =
    entry nr_read 3 (arg_fd ∷ var_arg_bytes ∷ arg_uint ∷ arg_none ∷ arg_none ∷ arg_none ∷ [])
    ∷ entry nr_write 3 (arg_fd ∷ var_arg_bytes ∷ arg_uint ∷ arg_none ∷ arg_none ∷ arg_none ∷ [])
    ∷ entry nr_open 3 (var_arg_string ∷ arg_flags ∷ arg_mode ∷ arg_none ∷ arg_none ∷ arg_none ∷ [])
    ∷ entry nr_close 1 (arg_fd ∷ arg_none ∷ arg_none ∷ arg_none ∷ arg_none ∷ arg_none ∷ [])
    ∷ entry nr_newstat 2 (var_arg_string ∷ arg_ptr ∷ arg_none ∷ arg_none ∷ arg_none ∷ arg_none ∷ [])
    ∷ entry nr_newfstat 2 (arg_fd ∷ arg_ptr ∷ arg_none ∷ arg_none ∷ arg_none ∷ arg_none ∷ [])
    ∷ entry nr_newlstat 2
        (var_arg_string ∷ arg_ptr ∷ arg_none ∷ arg_none ∷ arg_none ∷ arg_none ∷ [])
    ∷ entry nr_poll 3 (arg_fd ∷ arg_fd ∷ arg_int ∷ arg_none ∷ arg_none ∷ arg_none ∷ [])
    ∷ entry nr_lseek 3 (arg_fd ∷ arg_off ∷ arg_int ∷ arg_none ∷ arg_none ∷ arg_none ∷ [])
    ∷ entry nr_mmap 6 (arg_uint ∷ arg_uint ∷ arg_uint ∷ arg_uint ∷ arg_fd ∷ arg_uint ∷ [])
    ∷ entry nr_mprotect 3 (arg_uint ∷ arg_uint ∷ arg_uint ∷ arg_none ∷ arg_none ∷ arg_none ∷ [])
    ∷ entry nr_munmap 2 (arg_uint ∷ arg_uint ∷ arg_none ∷ arg_none ∷ arg_none ∷ arg_none ∷ [])
    ∷ entry nr_brk 1 (arg_uint ∷ arg_none ∷ arg_none ∷ arg_none ∷ arg_none ∷ arg_none ∷ [])
    ∷ entry nr_rt_sigaction 4 (arg_int ∷ arg_ptr ∷ arg_ptr ∷ arg_uint ∷ arg_none ∷ arg_none ∷ [])
    ∷ entry nr_rt_sigprocmask 4 (arg_int ∷ arg_ptr ∷ arg_ptr ∷ arg_uint ∷ arg_none ∷ arg_none ∷ [])
    ∷ entry nr_rt_sigreturn 0 (arg_none ∷ arg_none ∷ arg_none ∷ arg_none ∷ arg_none ∷ arg_none ∷ [])
    ∷ entry nr_ioctl 3 (arg_fd ∷ arg_uint ∷ arg_uint ∷ arg_none ∷ arg_none ∷ arg_none ∷ [])
    ∷ entry nr_pread64 4 (arg_fd ∷ var_arg_string ∷ arg_uint ∷ arg_off ∷ arg_none ∷ arg_none ∷ [])
    ∷ entry nr_pwrite64 4 (arg_fd ∷ var_arg_string ∷ arg_uint ∷ arg_off ∷ arg_none ∷ arg_none ∷ [])
    ∷ entry nr_readv 3 (arg_fd ∷ arg_ptr ∷ arg_uint ∷ arg_none ∷ arg_none ∷ arg_none ∷ [])
    ∷ entry nr_writev 3 (arg_fd ∷ arg_ptr ∷ arg_uint ∷ arg_none ∷ arg_none ∷ arg_none ∷ [])
    ∷ entry nr_access 2 (var_arg_string ∷ arg_mode ∷ arg_none ∷ arg_none ∷ arg_none ∷ arg_none ∷ [])
    ∷ entry nr_pipe 1 (arg_fd ∷ arg_none ∷ arg_none ∷ arg_none ∷ arg_none ∷ arg_none ∷ [])
    ∷ entry nr_select 5 (arg_int ∷ arg_ptr ∷ arg_ptr ∷ arg_ptr ∷ arg_ptr ∷ arg_none ∷ [])
    ∷ entry nr_sched_yield 0 (arg_none ∷ arg_none ∷ arg_none ∷ arg_none ∷ arg_none ∷ arg_none ∷ [])
    ∷ entry nr_mremap 5 (arg_uint ∷ arg_uint ∷ arg_uint ∷ arg_uint ∷ arg_uint ∷ arg_none ∷ [])
    ∷ entry nr_msync 3 (arg_uint ∷ arg_uint ∷ arg_int ∷ arg_none ∷ arg_none ∷ arg_none ∷ [])
    ∷ entry nr_mincore 3 (arg_uint ∷ arg_uint ∷ arg_ptr ∷ arg_none ∷ arg_none ∷ arg_none ∷ [])
    ∷ entry nr_madvise 3 (arg_uint ∷ arg_uint ∷ arg_int ∷ arg_none ∷ arg_none ∷ arg_none ∷ [])
    ∷ entry nr_shmget 3 (arg_int ∷ arg_uint ∷ arg_int ∷ arg_none ∷ arg_none ∷ arg_none ∷ [])
    ∷ []
