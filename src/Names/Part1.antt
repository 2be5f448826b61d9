-- ===== src/Names/Part1.antt =====
-- internal/syscalls/x86_64.go: the entries of read to rt_sigpending.
use litrace.Prelude.{List, [], ◌∷◌}
use litrace.Text.{codes}
use litrace.Names.Line.{Entry, row}

unfoldable pub entries_1 : List Entry
entries_1 =
    row 0 (codes "read")
    ∷ row 1 (codes "write")
    ∷ row 2 (codes "open")
    ∷ row 3 (codes "close")
    ∷ row 4 (codes "stat")
    ∷ row 5 (codes "fstat")
    ∷ row 6 (codes "lstat")
    ∷ row 7 (codes "poll")
    ∷ row 8 (codes "lseek")
    ∷ row 9 (codes "mmap")
    ∷ row 10 (codes "mprotect")
    ∷ row 11 (codes "munmap")
    ∷ row 12 (codes "brk")
    ∷ row 13 (codes "rt_sigaction")
    ∷ row 14 (codes "rt_sigprocmask")
    ∷ row 15 (codes "rt_sigreturn")
    ∷ row 16 (codes "ioctl")
    ∷ row 17 (codes "pread64")
    ∷ row 18 (codes "pwrite64")
    ∷ row 19 (codes "readv")
    ∷ row 20 (codes "writev")
    ∷ row 21 (codes "access")
    ∷ row 22 (codes "pipe")
    ∷ row 23 (codes "select")
    ∷ row 24 (codes "sched_yield")
    ∷ row 25 (codes "mremap")
    ∷ row 26 (codes "msync")
    ∷ row 27 (codes "mincore")
    ∷ row 28 (codes "madvise")
    ∷ row 29 (codes "shmget")
    ∷ row 30 (codes "shmat")
    ∷ row 31 (codes "shmctl")
    ∷ row 32 (codes "dup")
    ∷ row 33 (codes "dup2")
    ∷ row 34 (codes "pause")
    ∷ row 35 (codes "nanosleep")
    ∷ row 36 (codes "getitimer")
    ∷ row 37 (codes "alarm")
    ∷ row 38 (codes "setitimer")
    ∷ row 39 (codes "getpid")
    ∷ row 40 (codes "sendfile")
    ∷ row 41 (codes "socket")
    ∷ row 42 (codes "connect")
    ∷ row 43 (codes "accept")
    ∷ row 44 (codes "sendto")
    ∷ row 45 (codes "recvfrom")
    ∷ row 46 (codes "sendmsg")
    ∷ row 47 (codes "recvmsg")
    ∷ row 48 (codes "shutdown")
    ∷ row 49 (codes "bind")
    ∷ row 50 (codes "listen")
    ∷ row 51 (codes "getsockname")
    ∷ row 52 (codes "getpeername")
    ∷ row 53 (codes "socketpair")
    ∷ row 54 (codes "setsockopt")
    ∷ row 55 (codes "getsockopt")
    ∷ row 56 (codes "clone")
    ∷ row 57 (codes "fork")
    ∷ row 58 (codes "vfork")
    ∷ row 59 (codes "execve")
    ∷ row 60 (codes "exit")
    ∷ row 61 (codes "wait4")
    ∷ row 62 (codes "kill")
    ∷ row 63 (codes "uname")
    ∷ row 64 (codes "semget")
    ∷ row 65 (codes "semop")
    ∷ row 66 (codes "semctl")
    ∷ row 67 (codes "shmdt")
    ∷ row 68 (codes "msgget")
    ∷ row 69 (codes "msgsnd")
    ∷ row 70 (codes "msgrcv")
    ∷ row 71 (codes "msgctl")
    ∷ row 72 (codes "fcntl")
    ∷ row 73 (codes "flock")
    ∷ row 74 (codes "fsync")
    ∷ row 75 (codes "fdatasync")
    ∷ row 76 (codes "truncate")
    ∷ row 77 (codes "ftruncate")
    ∷ row 78 (codes "getdents")
    ∷ row 79 (codes "getcwd")
    ∷ row 80 (codes "chdir")
    ∷ row 81 (codes "fchdir")
    ∷ row 82 (codes "rename")
    ∷ row 83 (codes "mkdir")
    ∷ row 84 (codes "rmdir")
    ∷ row 85 (codes "creat")
    ∷ row 86 (codes "link")
    ∷ row 87 (codes "unlink")
    ∷ row 88 (codes "symlink")
    ∷ row 89 (codes "readlink")
    ∷ row 90 (codes "chmod")
    ∷ row 91 (codes "fchmod")
    ∷ row 92 (codes "chown")
    ∷ row 93 (codes "fchown")
    ∷ row 94 (codes "lchown")
    ∷ row 95 (codes "umask")
    ∷ row 96 (codes "gettimeofday")
    ∷ row 97 (codes "getrlimit")
    ∷ row 98 (codes "getrusage")
    ∷ row 99 (codes "sysinfo")
    ∷ row 100 (codes "times")
    ∷ row 101 (codes "ptrace")
    ∷ row 102 (codes "getuid")
    ∷ row 103 (codes "syslog")
    ∷ row 104 (codes "getgid")
    ∷ row 105 (codes "setuid")
    ∷ row 106 (codes "setgid")
    ∷ row 107 (codes "geteuid")
    ∷ row 108 (codes "getegid")
    ∷ row 109 (codes "setpgid")
    ∷ row 110 (codes "getppid")
    ∷ row 111 (codes "getpgrp")
    ∷ row 112 (codes "setsid")
    ∷ row 113 (codes "setreuid")
    ∷ row 114 (codes "setregid")
    ∷ row 115 (codes "getgroups")
    ∷ row 116 (codes "setgroups")
    ∷ row 117 (codes "setresuid")
    ∷ row 118 (codes "getresuid")
    ∷ row 119 (codes "setresgid")
    ∷ row 120 (codes "getresgid")
    ∷ row 121 (codes "getpgid")
    ∷ row 122 (codes "setfsuid")
    ∷ row 123 (codes "setfsgid")
    ∷ row 124 (codes "getsid")
    ∷ row 125 (codes "capget")
    ∷ row 126 (codes "capset")
    ∷ row 127 (codes "rt_sigpending")
    ∷ []
