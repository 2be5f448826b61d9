-- ===== src/Syscalls/Numbers2.antt =====
-- internal/bpf/syscalls/x86_64.h: __NR_wait4 to __NR_getpgid.
use litrace.Prelude.{ℕ}

abbrev pub nr_wait4 : ℕ
nr_wait4 = 61

abbrev pub nr_kill : ℕ
nr_kill = 62

abbrev pub nr_newuname : ℕ
nr_newuname = 63

abbrev pub nr_semget : ℕ
nr_semget = 64

abbrev pub nr_semop : ℕ
nr_semop = 65

abbrev pub nr_semctl : ℕ
nr_semctl = 66

abbrev pub nr_shmdt : ℕ
nr_shmdt = 67

abbrev pub nr_msgget : ℕ
nr_msgget = 68

abbrev pub nr_msgsnd : ℕ
nr_msgsnd = 69

abbrev pub nr_msgrcv : ℕ
nr_msgrcv = 70

abbrev pub nr_msgctl : ℕ
nr_msgctl = 71

abbrev pub nr_fcntl : ℕ
nr_fcntl = 72

abbrev pub nr_flock : ℕ
nr_flock = 73

abbrev pub nr_fsync : ℕ
nr_fsync = 74

abbrev pub nr_fdatasync : ℕ
nr_fdatasync = 75

abbrev pub nr_truncate : ℕ
nr_truncate = 76

abbrev pub nr_ftruncate : ℕ
nr_ftruncate = 77

abbrev pub nr_getdents : ℕ
nr_getdents = 78

abbrev pub nr_getcwd : ℕ
nr_getcwd = 79

abbrev pub nr_chdir : ℕ
nr_chdir = 80

abbrev pub nr_fchdir : ℕ
nr_fchdir = 81

abbrev pub nr_rename : ℕ
nr_rename = 82

abbrev pub nr_mkdir : ℕ
nr_mkdir = 83

abbrev pub nr_rmdir : ℕ
nr_rmdir = 84

abbrev pub nr_creat : ℕ
nr_creat = 85

abbrev pub nr_link : ℕ
nr_link = 86

abbrev pub nr_unlink : ℕ
nr_unlink = 87

abbrev pub nr_symlink : ℕ
nr_symlink = 88

abbrev pub nr_readlink : ℕ
nr_readlink = 89

abbrev pub nr_chmod : ℕ
nr_chmod = 90

abbrev pub nr_fchmod : ℕ
nr_fchmod = 91

abbrev pub nr_chown : ℕ
nr_chown = 92

abbrev pub nr_fchown : ℕ
nr_fchown = 93

abbrev pub nr_lchown : ℕ
nr_lchown = 94

abbrev pub nr_umask : ℕ
nr_umask = 95

abbrev pub nr_gettimeofday : ℕ
nr_gettimeofday = 96

abbrev pub nr_getrlimit : ℕ
nr_getrlimit = 97

abbrev pub nr_getrusage : ℕ
nr_getrusage = 98

abbrev pub nr_sysinfo : ℕ
nr_sysinfo = 99

abbrev pub nr_times : ℕ
nr_times = 100

abbrev pub nr_ptrace : ℕ
nr_ptrace = 101

abbrev pub nr_getuid : ℕ
nr_getuid = 102

abbrev pub nr_syslog : ℕ
nr_syslog = 103

abbrev pub nr_getgid : ℕ
nr_getgid = 104

abbrev pub nr_setuid : ℕ
nr_setuid = 105

abbrev pub nr_setgid : ℕ
nr_setgid = 106

abbrev pub nr_geteuid : ℕ
nr_geteuid = 107

abbrev pub nr_getegid : ℕ
nr_getegid = 108

abbrev pub nr_setpgid : ℕ
nr_setpgid = 109

abbrev pub nr_getppid : ℕ
nr_getppid = 110

abbrev pub nr_getpgrp : ℕ
nr_getpgrp = 111

abbrev pub nr_setsid : ℕ
nr_setsid = 112

abbrev pub nr_setreuid : ℕ
nr_setreuid = 113

abbrev pub nr_setregid : ℕ
nr_setregid = 114

abbrev pub nr_getgroups : ℕ
nr_getgroups = 115

abbrev pub nr_setgroups : ℕ
nr_setgroups = 116

abbrev pub nr_setresuid : ℕ
nr_setresuid = 117

abbrev pub nr_getresuid : ℕ
nr_getresuid = 118

abbrev pub nr_setresgid : ℕ
nr_setresgid = 119

abbrev pub nr_getresgid : ℕ
nr_getresgid = 120

abbrev pub nr_getpgid : ℕ
nr_getpgid = 121
