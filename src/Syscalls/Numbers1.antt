-- ===== src/Syscalls/Numbers1.antt =====
-- internal/bpf/syscalls/x86_64.h: __NR_read to __NR_exit.
use litrace.Prelude.{ℕ}

abbrev pub nr_read : ℕ
nr_read = 0

abbrev pub nr_write : ℕ
nr_write = 1

abbrev pub nr_open : ℕ
nr_open = 2

abbrev pub nr_close : ℕ
nr_close = 3

abbrev pub nr_newstat : ℕ
nr_newstat = 4

abbrev pub nr_newfstat : ℕ
nr_newfstat = 5

abbrev pub nr_newlstat : ℕ
nr_newlstat = 6

abbrev pub nr_poll : ℕ
nr_poll = 7

abbrev pub nr_lseek : ℕ
nr_lseek = 8

abbrev pub nr_mmap : ℕ
nr_mmap = 9

abbrev pub nr_mprotect : ℕ
nr_mprotect = 10

abbrev pub nr_munmap : ℕ
nr_munmap = 11

abbrev pub nr_brk : ℕ
nr_brk = 12

abbrev pub nr_rt_sigaction : ℕ
nr_rt_sigaction = 13

abbrev pub nr_rt_sigprocmask : ℕ
nr_rt_sigprocmask = 14

abbrev pub nr_rt_sigreturn : ℕ
nr_rt_sigreturn = 15

abbrev pub nr_ioctl : ℕ
nr_ioctl = 16

abbrev pub nr_pread64 : ℕ
nr_pread64 = 17

abbrev pub nr_pwrite64 : ℕ
nr_pwrite64 = 18

abbrev pub nr_readv : ℕ
nr_readv = 19

abbrev pub nr_writev : ℕ
nr_writev = 20

abbrev pub nr_access : ℕ
nr_access = 21

abbrev pub nr_pipe : ℕ
nr_pipe = 22

abbrev pub nr_select : ℕ
nr_select = 23

abbrev pub nr_sched_yield : ℕ
nr_sched_yield = 24

abbrev pub nr_mremap : ℕ
nr_mremap = 25

abbrev pub nr_msync : ℕ
nr_msync = 26

abbrev pub nr_mincore : ℕ
nr_mincore = 27

abbrev pub nr_madvise : ℕ
nr_madvise = 28

abbrev pub nr_shmget : ℕ
nr_shmget = 29

abbrev pub nr_shmat : ℕ
nr_shmat = 30

abbrev pub nr_shmctl : ℕ
nr_shmctl = 31

abbrev pub nr_dup : ℕ
nr_dup = 32

abbrev pub nr_dup2 : ℕ
nr_dup2 = 33

abbrev pub nr_pause : ℕ
nr_pause = 34

abbrev pub nr_nanosleep : ℕ
nr_nanosleep = 35

abbrev pub nr_getitimer : ℕ
nr_getitimer = 36

abbrev pub nr_alarm : ℕ
nr_alarm = 37

abbrev pub nr_setitimer : ℕ
nr_setitimer = 38

abbrev pub nr_getpid : ℕ
nr_getpid = 39

abbrev pub nr_sendfile64 : ℕ
nr_sendfile64 = 40

abbrev pub nr_socket : ℕ
nr_socket = 41

abbrev pub nr_connect : ℕ
nr_connect = 42

abbrev pub nr_accept : ℕ
nr_accept = 43

abbrev pub nr_sendto : ℕ
nr_sendto = 44

abbrev pub nr_recvfrom : ℕ
nr_recvfrom = 45

abbrev pub nr_sendmsg : ℕ
nr_sendmsg = 46

abbrev pub nr_recvmsg : ℕ
nr_recvmsg = 47

abbrev pub nr_shutdown : ℕ
nr_shutdown = 48

abbrev pub nr_bind : ℕ
nr_bind = 49

abbrev pub nr_listen : ℕ
nr_listen = 50

abbrev pub nr_getsockname : ℕ
nr_getsockname = 51

abbrev pub nr_getpeername : ℕ
nr_getpeername = 52

abbrev pub nr_socketpair : ℕ
nr_socketpair = 53

abbrev pub nr_setsockopt : ℕ
nr_setsockopt = 54

abbrev pub nr_getsockopt : ℕ
nr_getsockopt = 55

abbrev pub nr_clone : ℕ
nr_clone = 56

abbrev pub nr_fork : ℕ
nr_fork = 57

abbrev pub nr_vfork : ℕ
nr_vfork = 58

abbrev pub nr_execve : ℕ
nr_execve = 59

abbrev pub nr_exit : ℕ
nr_exit = 60
