-- ===== src/Syscalls/Numbers6.antt =====
-- internal/bpf/syscalls/x86_64.h: __NR_execveat to __NR_file_setattr.
use litrace.Prelude.{ℕ}

abbrev pub nr_execveat : ℕ
nr_execveat = 322

abbrev pub nr_userfaultfd : ℕ
nr_userfaultfd = 323

abbrev pub nr_membarrier : ℕ
nr_membarrier = 324

abbrev pub nr_mlock2 : ℕ
nr_mlock2 = 325

abbrev pub nr_copy_file_range : ℕ
nr_copy_file_range = 326

abbrev pub nr_preadv2 : ℕ
nr_preadv2 = 327

abbrev pub nr_pwritev2 : ℕ
nr_pwritev2 = 328

abbrev pub nr_pkey_mprotect : ℕ
nr_pkey_mprotect = 329

abbrev pub nr_pkey_alloc : ℕ
nr_pkey_alloc = 330

abbrev pub nr_pkey_free : ℕ
nr_pkey_free = 331

abbrev pub nr_statx : ℕ
nr_statx = 332

abbrev pub nr_io_pgetevents : ℕ
nr_io_pgetevents = 333

abbrev pub nr_rseq : ℕ
nr_rseq = 334

abbrev pub nr_uretprobe : ℕ
nr_uretprobe = 335

abbrev pub nr_pidfd_send_signal : ℕ
nr_pidfd_send_signal = 424

abbrev pub nr_io_uring_setup : ℕ
nr_io_uring_setup = 425

abbrev pub nr_io_uring_enter : ℕ
nr_io_uring_enter = 426

abbrev pub nr_io_uring_register : ℕ
nr_io_uring_register = 427

abbrev pub nr_open_tree : ℕ
nr_open_tree = 428

abbrev pub nr_move_mount : ℕ
nr_move_mount = 429

abbrev pub nr_fsopen : ℕ
nr_fsopen = 430

abbrev pub nr_fsconfig : ℕ
nr_fsconfig = 431

abbrev pub nr_fsmount : ℕ
nr_fsmount = 432

abbrev pub nr_fspick : ℕ
nr_fspick = 433

abbrev pub nr_pidfd_open : ℕ
nr_pidfd_open = 434

abbrev pub nr_clone3 : ℕ
nr_clone3 = 435

abbrev pub nr_close_range : ℕ
nr_close_range = 436

abbrev pub nr_openat2 : ℕ
nr_openat2 = 437

abbrev pub nr_pidfd_getfd : ℕ
nr_pidfd_getfd = 438

abbrev pub nr_faccessat2 : ℕ
nr_faccessat2 = 439

abbrev pub nr_process_madvise : ℕ
nr_process_madvise = 440

abbrev pub nr_epoll_pwait2 : ℕ
nr_epoll_pwait2 = 441

abbrev pub nr_mount_setattr : ℕ
nr_mount_setattr = 442

abbrev pub nr_quotactl_fd : ℕ
nr_quotactl_fd = 443

abbrev pub nr_landlock_create_ruleset : ℕ
nr_landlock_create_ruleset = 444

abbrev pub nr_landlock_add_rule : ℕ
nr_landlock_add_rule = 445

abbrev pub nr_landlock_restrict_self : ℕ
nr_landlock_restrict_self = 446

abbrev pub nr_memfd_secret : ℕ
nr_memfd_secret = 447

abbrev pub nr_process_mrelease : ℕ
nr_process_mrelease = 448

abbrev pub nr_futex_waitv : ℕ
nr_futex_waitv = 449

abbrev pub nr_set_mempolicy_home_node : ℕ
nr_set_mempolicy_home_node = 450

abbrev pub nr_cachestat : ℕ
nr_cachestat = 451

abbrev pub nr_fchmodat2 : ℕ
nr_fchmodat2 = 452

abbrev pub nr_map_shadow_stack : ℕ
nr_map_shadow_stack = 453

abbrev pub nr_futex_wake : ℕ
nr_futex_wake = 454

abbrev pub nr_futex_wait : ℕ
nr_futex_wait = 455

abbrev pub nr_futex_requeue : ℕ
nr_futex_requeue = 456

abbrev pub nr_statmount : ℕ
nr_statmount = 457

abbrev pub nr_listmount : ℕ
nr_listmount = 458

abbrev pub nr_lsm_get_self_attr : ℕ
nr_lsm_get_self_attr = 459

abbrev pub nr_lsm_set_self_attr : ℕ
nr_lsm_set_self_attr = 460

abbrev pub nr_lsm_list_modules : ℕ
nr_lsm_list_modules = 461

abbrev pub nr_mseal : ℕ
nr_mseal = 462

abbrev pub nr_setxattrat : ℕ
nr_setxattrat = 463

abbrev pub nr_getxattrat : ℕ
nr_getxattrat = 464

abbrev pub nr_listxattrat : ℕ
nr_listxattrat = 465

abbrev pub nr_removexattrat : ℕ
nr_removexattrat = 466

abbrev pub nr_open_tree_attr : ℕ
nr_open_tree_attr = 467

abbrev pub nr_file_getattr : ℕ
nr_file_getattr = 468

abbrev pub nr_file_setattr : ℕ
nr_file_setattr = 469
