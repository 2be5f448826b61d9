-- ===== src/Syscalls/Numbers4.antt =====
-- internal/bpf/syscalls/x86_64.h: __NR_listxattr to __NR_fchownat.
use litrace.Prelude.{ℕ}

abbrev pub nr_listxattr : ℕ
nr_listxattr = 194

abbrev pub nr_llistxattr : ℕ
nr_llistxattr = 195

abbrev pub nr_flistxattr : ℕ
nr_flistxattr = 196

abbrev pub nr_removexattr : ℕ
nr_removexattr = 197

abbrev pub nr_lremovexattr : ℕ
nr_lremovexattr = 198

abbrev pub nr_fremovexattr : ℕ
nr_fremovexattr = 199

abbrev pub nr_tkill : ℕ
nr_tkill = 200

abbrev pub nr_time : ℕ
nr_time = 201

abbrev pub nr_futex : ℕ
nr_futex = 202

abbrev pub nr_sched_setaffinity : ℕ
nr_sched_setaffinity = 203

abbrev pub nr_sched_getaffinity : ℕ
nr_sched_getaffinity = 204

abbrev pub nr_io_setup : ℕ
nr_io_setup = 206

abbrev pub nr_io_destroy : ℕ
nr_io_destroy = 207

abbrev pub nr_io_getevents : ℕ
nr_io_getevents = 208

abbrev pub nr_io_submit : ℕ
nr_io_submit = 209

abbrev pub nr_io_cancel : ℕ
nr_io_cancel = 210

abbrev pub nr_epoll_create : ℕ
nr_epoll_create = 213

abbrev pub nr_remap_file_pages : ℕ
nr_remap_file_pages = 216

abbrev pub nr_getdents64 : ℕ
nr_getdents64 = 217

abbrev pub nr_set_tid_address : ℕ
nr_set_tid_address = 218

abbrev pub nr_restart_syscall : ℕ
nr_restart_syscall = 219

abbrev pub nr_semtimedop : ℕ
nr_semtimedop = 220

abbrev pub nr_fadvise64 : ℕ
nr_fadvise64 = 221

abbrev pub nr_timer_create : ℕ
nr_timer_create = 222

abbrev pub nr_timer_settime : ℕ
nr_timer_settime = 223

abbrev pub nr_timer_gettime : ℕ
nr_timer_gettime = 224

abbrev pub nr_timer_getoverrun : ℕ
nr_timer_getoverrun = 225

abbrev pub nr_timer_delete : ℕ
nr_timer_delete = 226

abbrev pub nr_clock_settime : ℕ
nr_clock_settime = 227

abbrev pub nr_clock_gettime : ℕ
nr_clock_gettime = 228

abbrev pub nr_clock_getres : ℕ
nr_clock_getres = 229

abbrev pub nr_clock_nanosleep : ℕ
nr_clock_nanosleep = 230

abbrev pub nr_exit_group : ℕ
nr_exit_group = 231

abbrev pub nr_epoll_wait : ℕ
nr_epoll_wait = 232

abbrev pub nr_epoll_ctl : ℕ
nr_epoll_ctl = 233

abbrev pub nr_tgkill : ℕ
nr_tgkill = 234

abbrev pub nr_utimes : ℕ
nr_utimes = 235

abbrev pub nr_mbind : ℕ
nr_mbind = 237

abbrev pub nr_set_mempolicy : ℕ
nr_set_mempolicy = 238

abbrev pub nr_get_mempolicy : ℕ
nr_get_mempolicy = 239

abbrev pub nr_mq_open : ℕ
nr_mq_open = 240

abbrev pub nr_mq_unlink : ℕ
nr_mq_unlink = 241

abbrev pub nr_mq_timedsend : ℕ
nr_mq_timedsend = 242

abbrev pub nr_mq_timedreceive : ℕ
nr_mq_timedreceive = 243

abbrev pub nr_mq_notify : ℕ
nr_mq_notify = 244

abbrev pub nr_mq_getsetattr : ℕ
nr_mq_getsetattr = 245

abbrev pub nr_kexec_load : ℕ
nr_kexec_load = 246

abbrev pub nr_waitid : ℕ
nr_waitid = 247

abbrev pub nr_add_key : ℕ
nr_add_key = 248

abbrev pub nr_request_key : ℕ
nr_request_key = 249

abbrev pub nr_keyctl : ℕ
nr_keyctl = 250

abbrev pub nr_ioprio_set : ℕ
nr_ioprio_set = 251

abbrev pub nr_ioprio_get : ℕ
nr_ioprio_get = 252

abbrev pub nr_inotify_init : ℕ
nr_inotify_init = 253

abbrev pub nr_inotify_add_watch : ℕ
nr_inotify_add_watch = 254

abbrev pub nr_inotify_rm_watch : ℕ
nr_inotify_rm_watch = 255

abbrev pub nr_migrate_pages : ℕ
nr_migrate_pages = 256

abbrev pub nr_openat : ℕ
nr_openat = 257

abbrev pub nr_mkdirat : ℕ
nr_mkdirat = 258

abbrev pub nr_mknodat : ℕ
nr_mknodat = 259

abbrev pub nr_fchownat : ℕ
nr_fchownat = 260
