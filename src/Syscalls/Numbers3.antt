-- ===== src/Syscalls/Numbers3.antt =====
-- internal/bpf/syscalls/x86_64.h: __NR_setfsuid to __NR_fgetxattr.
use litrace.Prelude.{ℕ}

abbrev pub nr_setfsuid : ℕ
nr_setfsuid = 122

abbrev pub nr_setfsgid : ℕ
nr_setfsgid = 123

abbrev pub nr_getsid : ℕ
nr_getsid = 124

abbrev pub nr_capget : ℕ
nr_capget = 125

abbrev pub nr_capset : ℕ
nr_capset = 126

abbrev pub nr_rt_sigpending : ℕ
nr_rt_sigpending = 127

abbrev pub nr_rt_sigtimedwait : ℕ
nr_rt_sigtimedwait = 128

abbrev pub nr_rt_sigqueueinfo : ℕ
nr_rt_sigqueueinfo = 129

abbrev pub nr_rt_sigsuspend : ℕ
nr_rt_sigsuspend = 130

abbrev pub nr_sigaltstack : ℕ
nr_sigaltstack = 131

abbrev pub nr_utime : ℕ
nr_utime = 132

abbrev pub nr_mknod : ℕ
nr_mknod = 133

abbrev pub nr_personality : ℕ
nr_personality = 135

abbrev pub nr_ustat : ℕ
nr_ustat = 136

abbrev pub nr_statfs : ℕ
nr_statfs = 137

abbrev pub nr_fstatfs : ℕ
nr_fstatfs = 138

abbrev pub nr_sysfs : ℕ
nr_sysfs = 139

abbrev pub nr_getpriority : ℕ
nr_getpriority = 140

abbrev pub nr_setpriority : ℕ
nr_setpriority = 141

abbrev pub nr_sched_setparam : ℕ
nr_sched_setparam = 142

abbrev pub nr_sched_getparam : ℕ
nr_sched_getparam = 143

abbrev pub nr_sched_setscheduler : ℕ
nr_sched_setscheduler = 144

abbrev pub nr_sched_getscheduler : ℕ
nr_sched_getscheduler = 145

abbrev pub nr_sched_get_priority_max : ℕ
nr_sched_get_priority_max = 146

abbrev pub nr_sched_get_priority_min : ℕ
nr_sched_get_priority_min = 147

abbrev pub nr_sched_rr_get_interval : ℕ
nr_sched_rr_get_interval = 148

abbrev pub nr_mlock : ℕ
nr_mlock = 149

abbrev pub nr_munlock : ℕ
nr_munlock = 150

abbrev pub nr_mlockall : ℕ
nr_mlockall = 151

abbrev pub nr_munlockall : ℕ
nr_munlockall = 152

abbrev pub nr_vhangup : ℕ
nr_vhangup = 153

abbrev pub nr_modify_ldt : ℕ
nr_modify_ldt = 154

abbrev pub nr_pivot_root : ℕ
nr_pivot_root = 155

abbrev pub nr_prctl : ℕ
nr_prctl = 157

abbrev pub nr_arch_prctl : ℕ
nr_arch_prctl = 158

abbrev pub nr_adjtimex : ℕ
nr_adjtimex = 159

abbrev pub nr_setrlimit : ℕ
nr_setrlimit = 160

abbrev pub nr_chroot : ℕ
nr_chroot = 161

abbrev pub nr_sync : ℕ
nr_sync = 162

abbrev pub nr_acct : ℕ
nr_acct = 163

abbrev pub nr_settimeofday : ℕ
nr_settimeofday = 164

abbrev pub nr_mount : ℕ
nr_mount = 165

abbrev pub nr_umount : ℕ
nr_umount = 166

abbrev pub nr_swapon : ℕ
nr_swapon = 167

abbrev pub nr_swapoff : ℕ
nr_swapoff = 168

abbrev pub nr_reboot : ℕ
nr_reboot = 169

abbrev pub nr_sethostname : ℕ
nr_sethostname = 170

abbrev pub nr_setdomainname : ℕ
nr_setdomainname = 171

abbrev pub nr_iopl : ℕ
nr_iopl = 172

abbrev pub nr_ioperm : ℕ
nr_ioperm = 173

abbrev pub nr_init_module : ℕ
nr_init_module = 175

abbrev pub nr_delete_module : ℕ
nr_delete_module = 176

abbrev pub nr_quotactl : ℕ
nr_quotactl = 179

abbrev pub nr_gettid : ℕ
nr_gettid = 186

abbrev pub nr_readahead : ℕ
nr_readahead = 187

abbrev pub nr_setxattr : ℕ
nr_setxattr = 188

abbrev pub nr_lsetxattr : ℕ
nr_lsetxattr = 189

abbrev pub nr_fsetxattr : ℕ
nr_fsetxattr = 190

abbrev pub nr_getxattr : ℕ
nr_getxattr = 191

abbrev pub nr_lgetxattr : ℕ
nr_lgetxattr = 192

abbrev pub nr_fgetxattr : ℕ
nr_fgetxattr = 193
