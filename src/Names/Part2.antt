-- ===== src/Names/Part2.antt =====
-- internal/syscalls/x86_64.go: the entries of rt_sigtimedwait to inotify_rm_watch.
use litrace.Prelude.{List, [], ◌∷◌}
use litrace.Text.{codes}
use litrace.Names.Line.{Entry, row}

unfoldable pub entries_2 : List Entry
entries_2 =
    row 128 (codes "rt_sigtimedwait")
    ∷ row 129 (codes "rt_sigqueueinfo")
    ∷ row 130 (codes "rt_sigsuspend")
    ∷ row 131 (codes "sigaltstack")
    ∷ row 132 (codes "utime")
    ∷ row 133 (codes "mknod")
    ∷ row 134 (codes "uselib")
    ∷ row 135 (codes "personality")
    ∷ row 136 (codes "ustat")
    ∷ row 137 (codes "statfs")
    ∷ row 138 (codes "fstatfs")
    ∷ row 139 (codes "sysfs")
    ∷ row 140 (codes "getpriority")
    ∷ row 141 (codes "setpriority")
    ∷ row 142 (codes "sched_setparam")
    ∷ row 143 (codes "sched_getparam")
    ∷ row 144 (codes "sched_setscheduler")
    ∷ row 145 (codes "sched_getscheduler")
    ∷ row 146 (codes "sched_get_priority_max")
    ∷ row 147 (codes "sched_get_priority_min")
    ∷ row 148 (codes "sched_rr_get_interval")
    ∷ row 149 (codes "mlock")
    ∷ row 150 (codes "munlock")
    ∷ row 151 (codes "mlockall")
    ∷ row 152 (codes "munlockall")
    ∷ row 153 (codes "vhangup")
    ∷ row 154 (codes "modify_ldt")
    ∷ row 155 (codes "pivot_root")
    ∷ row 156 (codes "_sysctl")
    ∷ row 157 (codes "prctl")
    ∷ row 158 (codes "arch_prctl")
    ∷ row 159 (codes "adjtimex")
    ∷ row 160 (codes "setrlimit")
    ∷ row 161 (codes "chroot")
    ∷ row 162 (codes "sync")
    ∷ row 163 (codes "acct")
    ∷ row 164 (codes "settimeofday")
    ∷ row 165 (codes "mount")
    ∷ row 166 (codes "umount2")
    ∷ row 167 (codes "swapon")
    ∷ row 168 (codes "swapoff")
    ∷ row 169 (codes "reboot")
    ∷ row 170 (codes "sethostname")
    ∷ row 171 (codes "setdomainname")
    ∷ row 172 (codes "iopl")
    ∷ row 173 (codes "ioperm")
    ∷ row 174 (codes "create_module")
    ∷ row 175 (codes "init_module")
    ∷ row 176 (codes "delete_module")
    ∷ row 177 (codes "get_kernel_syms")
    ∷ row 178 (codes "query_module")
    ∷ row 179 (codes "quotactl")
    ∷ row 180 (codes "nfsservctl")
    ∷ row 181 (codes "getpmsg")
    ∷ row 182 (codes "putpmsg")
    ∷ row 183 (codes "afs_syscall")
    ∷ row 184 (codes "tuxcall")
    ∷ row 185 (codes "security")
    ∷ row 186 (codes "gettid")
    ∷ row 187 (codes "readahead")
    ∷ row 188 (codes "setxattr")
    ∷ row 189 (codes "lsetxattr")
    ∷ row 190 (codes "fsetxattr")
    ∷ row 191 (codes "getxattr")
    ∷ row 192 (codes "lgetxattr")
    ∷ row 193 (codes "fgetxattr")
    ∷ row 194 (codes "listxattr")
    ∷ row 195 (codes "llistxattr")
    ∷ row 196 (codes "flistxattr")
    ∷ row 197 (codes "removexattr")
    ∷ row 198 (codes "lremovexattr")
    ∷ row 199 (codes "fremovexattr")
    ∷ row 200 (codes "tkill")
    ∷ row 201 (codes "time")
    ∷ row 202 (codes "futex")
    ∷ row 203 (codes "sched_setaffinity")
    ∷ row 204 (codes "sched_getaffinity")
    ∷ row 205 (codes "set_thread_area")
    ∷ row 206 (codes "io_setup")
    ∷ row 207 (codes "io_destroy")
    ∷ row 208 (codes "io_getevents")
    ∷ row 209 (codes "io_submit")
    ∷ row 210 (codes "io_cancel")
    ∷ row 211 (codes "get_thread_area")
    ∷ row 212 (codes "lookup_dcookie")
    ∷ row 213 (codes "epoll_create")
    ∷ row 214 (codes "epoll_ctl_old")
    ∷ row 215 (codes "epoll_wait_old")
    ∷ row 216 (codes "remap_file_pages")
    ∷ row 217 (codes "getdents64")
    ∷ row 218 (codes "set_tid_address")
    ∷ row 219 (codes "restart_syscall")
    ∷ row 220 (codes "semtimedop")
    ∷ row 221 (codes "fadvise64")
    ∷ row 222 (codes "timer_create")
    ∷ row 223 (codes "timer_settime")
    ∷ row 224 (codes "timer_gettime")
    ∷ row 225 (codes "timer_getoverrun")
    ∷ row 226 (codes "timer_delete")
    ∷ row 227 (codes "clock_settime")
    ∷ row 228 (codes "clock_gettime")
    ∷ row 229 (codes "clock_getres")
    ∷ row 230 (codes "clock_nanosleep")
    ∷ row 231 (codes "exit_group")
    ∷ row 232 (codes "epoll_wait")
    ∷ row 233 (codes "epoll_ctl")
    ∷ row 234 (codes "tgkill")
    ∷ row 235 (codes "utimes")
    ∷ row 236 (codes "vserver")
    ∷ row 237 (codes "mbind")
    ∷ row 238 (codes "set_mempolicy")
    ∷ row 239 (codes "get_mempolicy")
    ∷ row 240 (codes "mq_open")
    ∷ row 241 (codes "mq_unlink")
    ∷ row 242 (codes "mq_timedsend")
    ∷ row 243 (codes "mq_timedreceive")
    ∷ row 244 (codes "mq_notify")
    ∷ row 245 (codes "mq_getsetattr")
    ∷ row 246 (codes "kexec_load")
    ∷ row 247 (codes "waitid")
    ∷ row 248 (codes "add_key")
    ∷ row 249 (codes "request_key")
    ∷ row 250 (codes "keyctl")
    ∷ row 251 (codes "ioprio_set")
    ∷ row 252 (codes "ioprio_get")
    ∷ row 253 (codes "inotify_init")
    ∷ row 254 (codes "inotify_add_watch")
    ∷ row 255 (codes "inotify_rm_watch")
    ∷ []
