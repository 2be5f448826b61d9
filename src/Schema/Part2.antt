-- ===== src/Schema/Part2.antt =====
-- internal/bpf/syscalls/x86_64.h: the schemas of __NR_shmat to __NR_execve.
use litrace.Prelude.{List, [], ◌∷◌}
use litrace.Types.{
  SyscallArgSchema, arg_fd, arg_int, arg_none, arg_off, arg_ptr, arg_uint, var_arg_argv,
  var_arg_string,
}
use litrace.Syscalls.{
  nr_shmat, nr_shmctl, nr_dup, nr_dup2, nr_pause, nr_nanosleep, nr_getitimer, nr_alarm,
  nr_setitimer, nr_getpid, nr_sendfile64, nr_socket, nr_connect, nr_accept, nr_sendto, nr_recvfrom,
  nr_sendmsg, nr_recvmsg, nr_shutdown, nr_bind, nr_listen, nr_getsockname, nr_getpeername,
  nr_socketpair, nr_setsockopt, nr_getsockopt, nr_clone, nr_fork, nr_vfork, nr_execve,
}
use litrace.Schema.Entry.{entry}

unfoldable pub schemas_2 : List SyscallArgSchema
schemas_2 =
    entry nr_shmat 3 (arg_int ∷ var_arg_string ∷ arg_int ∷ arg_none ∷ arg_none ∷ arg_none ∷ [])
    ∷ entry nr_shmctl 3 (arg_int ∷ arg_int ∷ arg_ptr ∷ arg_none ∷ arg_none ∷ arg_none ∷ [])
    ∷ entry nr_dup 1 (arg_fd ∷ arg_none ∷ arg_none ∷ arg_none ∷ arg_none ∷ arg_none ∷ [])
    ∷ entry nr_dup2 2 (arg_fd ∷ arg_fd ∷ arg_none ∷ arg_none ∷ arg_none ∷ arg_none ∷ [])
    ∷ entry nr_pause 0 (arg_none ∷ arg_none ∷ arg_none ∷ arg_none ∷ arg_none ∷ arg_none ∷ [])
    ∷ entry nr_nanosleep 2 (arg_ptr ∷ arg_ptr ∷ arg_none ∷ arg_none ∷ arg_none ∷ arg_none ∷ [])
    ∷ entry nr_getitimer 2 (arg_int ∷ arg_ptr ∷ arg_none ∷ arg_none ∷ arg_none ∷ arg_none ∷ [])
    ∷ entry nr_alarm 1 (arg_uint ∷ arg_none ∷ arg_none ∷ arg_none ∷ arg_none ∷ arg_none ∷ [])
    ∷ entry nr_setitimer 3 (arg_int ∷ arg_ptr ∷ arg_ptr ∷ arg_none ∷ arg_none ∷ arg_none ∷ [])
    ∷ entry nr_getpid 0 (arg_none ∷ arg_none ∷ arg_none ∷ arg_none ∷ arg_none ∷ arg_none ∷ [])
    ∷ entry nr_sendfile64 4 (arg_fd ∷ arg_fd ∷ arg_off ∷ arg_uint ∷ arg_none ∷ arg_none ∷ [])
    ∷ entry nr_socket 3 (arg_int ∷ arg_int ∷ arg_int ∷ arg_none ∷ arg_none ∷ arg_none ∷ [])
    ∷ entry nr_connect 3 (arg_fd ∷ arg_ptr ∷ arg_int ∷ arg_none ∷ arg_none ∷ arg_none ∷ [])
    ∷ entry nr_accept 3 (arg_fd ∷ arg_ptr ∷ arg_ptr ∷ arg_none ∷ arg_none ∷ arg_none ∷ [])
    ∷ entry nr_sendto 6 (arg_fd ∷ arg_ptr ∷ arg_uint ∷ arg_uint ∷ arg_ptr ∷ arg_int ∷ [])
    ∷ entry nr_recvfrom 6 (arg_fd ∷ arg_ptr ∷ arg_uint ∷ arg_uint ∷ arg_ptr ∷ arg_ptr ∷ [])
    ∷ entry nr_sendmsg 3 (arg_fd ∷ arg_ptr ∷ arg_uint ∷ arg_none ∷ arg_none ∷ arg_none ∷ [])
    ∷ entry nr_recvmsg 3 (arg_fd ∷ arg_ptr ∷ arg_uint ∷ arg_none ∷ arg_none ∷ arg_none ∷ [])
    ∷ entry nr_shutdown 2 (arg_fd ∷ arg_int ∷ arg_none ∷ arg_none ∷ arg_none ∷ arg_none ∷ [])
    ∷ entry nr_bind 3 (arg_fd ∷ arg_ptr ∷ arg_int ∷ arg_none ∷ arg_none ∷ arg_none ∷ [])
    ∷ entry nr_listen 2 (arg_fd ∷ arg_int ∷ arg_none ∷ arg_none ∷ arg_none ∷ arg_none ∷ [])
    ∷ entry nr_getsockname 3 (arg_fd ∷ arg_ptr ∷ arg_ptr ∷ arg_none ∷ arg_none ∷ arg_none ∷ [])
    ∷ entry nr_getpeername 3 (arg_fd ∷ arg_ptr ∷ arg_ptr ∷ arg_none ∷ arg_none ∷ arg_none ∷ [])
    ∷ entry nr_socketpair 4 (arg_int ∷ arg_int ∷ arg_int ∷ arg_ptr ∷ arg_none ∷ arg_none ∷ [])
    ∷ entry nr_setsockopt 5 (arg_fd ∷ arg_int ∷ arg_int ∷ var_arg_string ∷ arg_int ∷ arg_none ∷ [])
    ∷ entry nr_getsockopt 5 (arg_fd ∷ arg_int ∷ arg_int ∷ var_arg_string ∷ arg_ptr ∷ arg_none ∷ [])
    ∷ entry nr_clone 5 (arg_uint ∷ arg_uint ∷ arg_ptr ∷ arg_ptr ∷ arg_uint ∷ arg_none ∷ [])
    ∷ entry nr_fork 0 (arg_none ∷ arg_none ∷ arg_none ∷ arg_none ∷ arg_none ∷ arg_none ∷ [])
    ∷ entry nr_vfork 0 (arg_none ∷ arg_none ∷ arg_none ∷ arg_none ∷ arg_none ∷ arg_none ∷ [])
    ∷ entry nr_execve 3
        (var_arg_string ∷ var_arg_argv ∷ var_arg_argv ∷ arg_none ∷ arg_none ∷ arg_none ∷ [])
    ∷ []
