-- ===== src/Names/Part3.antt =====
-- internal/syscalls/x86_64.go: the entries of migrate_pages to file_setattr.
use litrace.Prelude.{List, [], ◌∷◌}
use litrace.Text.{codes}
use litrace.Names.Line.{Entry, row}

unfoldable pub entries_3 : List Entry
entries_3 =
    row 256 (codes "migrate_pages")
    ∷ row 257 (codes "openat")
    ∷ row 258 (codes "mkdirat")
    ∷ row 259 (codes "mknodat")
    ∷ row 260 (codes "fchownat")
    ∷ row 261 (codes "futimesat")
    ∷ row 262 (codes "newfstatat")
    ∷ row 263 (codes "unlinkat")
    ∷ row 264 (codes "renameat")
    ∷ row 265 (codes "linkat")
    ∷ row 266 (codes "symlinkat")
    ∷ row 267 (codes "readlinkat")
    ∷ row 268 (codes "fchmodat")
    ∷ row 269 (codes "faccessat")
    ∷ row 270 (codes "pselect6")
    ∷ row 271 (codes "ppoll")
    ∷ row 272 (codes "unshare")
    ∷ row 273 (codes "set_robust_list")
    ∷ row 274 (codes "get_robust_list")
    ∷ row 275 (codes "splice")
    ∷ row 276 (codes "tee")
    ∷ row 277 (codes "sync_file_range")
    ∷ row 278 (codes "vmsplice")
    ∷ row 279 (codes "move_pages")
    ∷ row 280 (codes "utimensat")
    ∷ row 281 (codes "epoll_pwait")
    ∷ row 282 (codes "signalfd")
    ∷ row 283 (codes "timerfd_create")
    ∷ row 284 (codes "eventfd")
    ∷ row 285 (codes "fallocate")
    ∷ row 286 (codes "timerfd_settime")
    ∷ row 287 (codes "timerfd_gettime")
    ∷ row 288 (codes "accept4")
    ∷ row 289 (codes "signalfd4")
    ∷ row 290 (codes "eventfd2")
    ∷ row 291 (codes "epoll_create1")
    ∷ row 292 (codes "dup3")
    ∷ row 293 (codes "pipe2")
    ∷ row 294 (codes "inotify_init1")
    ∷ row 295 (codes "preadv")
    ∷ row 296 (codes "pwritev")
    ∷ row 297 (codes "rt_tgsigqueueinfo")
    ∷ row 298 (codes "perf_event_open")
    ∷ row 299 (codes "recvmmsg")
    ∷ row 300 (codes "fanotify_init")
    ∷ row 301 (codes "fanotify_mark")
    ∷ row 302 (codes "prlimit64")
    ∷ row 303 (codes "name_to_handle_at")
    ∷ row 304 (codes "open_by_handle_at")
    ∷ row 305 (codes "clock_adjtime")
    ∷ row 306 (codes "syncfs")
    ∷ row 307 (codes "sendmmsg")
    ∷ row 308 (codes "setns")
    ∷ row 309 (codes "getcpu")
    ∷ row 310 (codes "process_vm_readv")
    ∷ row 311 (codes "process_vm_writev")
    ∷ row 312 (codes "kcmp")
    ∷ row 313 (codes "finit_module")
    ∷ row 314 (codes "sched_setattr")
    ∷ row 315 (codes "sched_getattr")
    ∷ row 316 (codes "renameat2")
    ∷ row 317 (codes "seccomp")
    ∷ row 318 (codes "getrandom")
    ∷ row 319 (codes "memfd_create")
    ∷ row 320 (codes "kexec_file_load")
    ∷ row 321 (codes "bpf")
    ∷ row 322 (codes "execveat")
    ∷ row 323 (codes "userfaultfd")
    ∷ row 324 (codes "membarrier")
    ∷ row 325 (codes "mlock2")
    ∷ row 326 (codes "copy_file_range")
    ∷ row 327 (codes "preadv2")
    ∷ row 328 (codes "pwritev2")
    ∷ row 329 (codes "pkey_mprotect")
    ∷ row 330 (codes "pkey_alloc")
    ∷ row 331 (codes "pkey_free")
    ∷ row 332 (codes "statx")
    ∷ row 333 (codes "io_pgetevents")
    ∷ row 334 (codes "rseq")
    ∷ row 335 (codes "uretprobe")
    ∷ row 424 (codes "pidfd_send_signal")
    ∷ row 425 (codes "io_uring_setup")
    ∷ row 426 (codes "io_uring_enter")
    ∷ row 427 (codes "io_uring_register")
    ∷ row 428 (codes "open_tree")
    ∷ row 429 (codes "move_mount")
    ∷ row 430 (codes "fsopen")
    ∷ row 431 (codes "fsconfig")
    ∷ row 432 (codes "fsmount")
    ∷ row 433 (codes "fspick")
    ∷ row 434 (codes "pidfd_open")
    ∷ row 435 (codes "clone3")
    ∷ row 436 (codes "close_range")
    ∷ row 437 (codes "openat2")
    ∷ row 438 (codes "pidfd_getfd")
    ∷ row 439 (codes "faccessat2")
    ∷ row 440 (codes "process_madvise")
    ∷ row 441 (codes "epoll_pwait2")
    ∷ row 442 (codes "mount_setattr")
    ∷ row 443 (codes "quotactl_fd")
    ∷ row 444 (codes "landlock_create_ruleset")
    ∷ row 445 (codes "landlock_add_rule")
    ∷ row 446 (codes "landlock_restrict_self")
    ∷ row 447 (codes "memfd_secret")
    ∷ row 448 (codes "process_mrelease")
    ∷ row 449 (codes "futex_waitv")
    ∷ row 450 (codes "set_mempolicy_home_node")
    ∷ row 451 (codes "cachestat")
    ∷ row 452 (codes "fchmodat2")
    ∷ row 453 (codes "map_shadow_stack")
    ∷ row 454 (codes "futex_wake")
    ∷ row 455 (codes "futex_wait")
    ∷ row 456 (codes "futex_requeue")
    ∷ row 457 (codes "statmount")
    ∷ row 458 (codes "listmount")
    ∷ row 459 (codes "lsm_get_self_attr")
    ∷ row 460 (codes "lsm_set_self_attr")
    ∷ row 461 (codes "lsm_list_modules")
    ∷ row 462 (codes "mseal")
    ∷ row 463 (codes "setxattrat")
    ∷ row 464 (codes "getxattrat")
    ∷ row 465 (codes "listxattrat")
    ∷ row 466 (codes "removexattrat")
    ∷ row 467 (codes "open_tree_attr")
    ∷ row 468 (codes "file_getattr")
    ∷ row 469 (codes "file_setattr")
    ∷ []
