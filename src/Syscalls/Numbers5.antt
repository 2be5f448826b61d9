-- ===== src/Syscalls/Numbers5.antt =====
-- internal/bpf/syscalls/x86_64.h: __NR_futimesat to __NR_bpf.
use litrace.Prelude.{ℕ}

abbrev pub nr_futimesat : ℕ
nr_futimesat = 261

abbrev pub nr_newfstatat : ℕ
nr_newfstatat = 262

abbrev pub nr_unlinkat : ℕ
nr_unlinkat = 263

abbrev pub nr_renameat : ℕ
nr_renameat = 264

abbrev pub nr_linkat : ℕ
nr_linkat = 265

abbrev pub nr_symlinkat : ℕ
nr_symlinkat = 266

abbrev pub nr_readlinkat : ℕ
nr_readlinkat = 267

abbrev pub nr_fchmodat : ℕ
nr_fchmodat = 268

abbrev pub nr_faccessat : ℕ
nr_faccessat = 269

abbrev pub nr_pselect6 : ℕ
nr_pselect6 = 270

abbrev pub nr_ppoll : ℕ
nr_ppoll = 271

abbrev pub nr_unshare : ℕ
nr_unshare = 272

abbrev pub nr_set_robust_list : ℕ
nr_set_robust_list = 273

abbrev pub nr_get_robust_list : ℕ
nr_get_robust_list = 274

abbrev pub nr_splice : ℕ
nr_splice = 275

abbrev pub nr_tee : ℕ
nr_tee = 276

abbrev pub nr_sync_file_range : ℕ
nr_sync_file_range = 277

abbrev pub nr_vmsplice : ℕ
nr_vmsplice = 278

abbrev pub nr_move_pages : ℕ
nr_move_pages = 279

abbrev pub nr_utimensat : ℕ
nr_utimensat = 280

abbrev pub nr_epoll_pwait : ℕ
nr_epoll_pwait = 281

abbrev pub nr_signalfd : ℕ
nr_signalfd = 282

abbrev pub nr_timerfd_create : ℕ
nr_timerfd_create = 283

abbrev pub nr_eventfd : ℕ
nr_eventfd = 284

abbrev pub nr_fallocate : ℕ
nr_fallocate = 285

abbrev pub nr_timerfd_settime : ℕ
nr_timerfd_settime = 286

abbrev pub nr_timerfd_gettime : ℕ
nr_timerfd_gettime = 287

abbrev pub nr_accept4 : ℕ
nr_accept4 = 288

abbrev pub nr_signalfd4 : ℕ
nr_signalfd4 = 289

abbrev pub nr_eventfd2 : ℕ
nr_eventfd2 = 290

abbrev pub nr_epoll_create1 : ℕ
nr_epoll_create1 = 291

abbrev pub nr_dup3 : ℕ
nr_dup3 = 292

abbrev pub nr_pipe2 : ℕ
nr_pipe2 = 293

abbrev pub nr_inotify_init1 : ℕ
nr_inotify_init1 = 294

abbrev pub nr_preadv : ℕ
nr_preadv = 295

abbrev pub nr_pwritev : ℕ
nr_pwritev = 296

abbrev pub nr_rt_tgsigqueueinfo : ℕ
nr_rt_tgsigqueueinfo = 297

abbrev pub nr_perf_event_open : ℕ
nr_perf_event_open = 298

abbrev pub nr_recvmmsg : ℕ
nr_recvmmsg = 299

abbrev pub nr_fanotify_init : ℕ
nr_fanotify_init = 300

abbrev pub nr_fanotify_mark : ℕ
nr_fanotify_mark = 301

abbrev pub nr_prlimit64 : ℕ
nr_prlimit64 = 302

abbrev pub nr_name_to_handle_at : ℕ
nr_name_to_handle_at = 303

abbrev pub nr_open_by_handle_at : ℕ
nr_open_by_handle_at = 304

abbrev pub nr_clock_adjtime : ℕ
nr_clock_adjtime = 305

abbrev pub nr_syncfs : ℕ
nr_syncfs = 306

abbrev pub nr_sendmmsg : ℕ
nr_sendmmsg = 307

abbrev pub nr_setns : ℕ
nr_setns = 308

abbrev pub nr_getcpu : ℕ
nr_getcpu = 309

abbrev pub nr_process_vm_readv : ℕ
nr_process_vm_readv = 310

abbrev pub nr_process_vm_writev : ℕ
nr_process_vm_writev = 311

abbrev pub nr_kcmp : ℕ
nr_kcmp = 312

abbrev pub nr_finit_module : ℕ
nr_finit_module = 313

abbrev pub nr_sched_setattr : ℕ
nr_sched_setattr = 314

abbrev pub nr_sched_getattr : ℕ
nr_sched_getattr = 315

abbrev pub nr_renameat2 : ℕ
nr_renameat2 = 316

abbrev pub nr_seccomp : ℕ
nr_seccomp = 317

abbrev pub nr_getrandom : ℕ
nr_getrandom = 318

abbrev pub nr_memfd_create : ℕ
nr_memfd_create = 319

abbrev pub nr_kexec_file_load : ℕ
nr_kexec_file_load = 320

abbrev pub nr_bpf : ℕ
nr_bpf = 321
