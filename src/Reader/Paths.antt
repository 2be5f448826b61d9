-- ===== src/Reader/Paths.antt =====
-- matchesPath of internal/path_filter.go names, for each system call, the arguments that are paths.
-- The tracer captures exactly those, and the reader finds each whole. The numbers unix.SYS_… are
-- those of the Linux x86-64 table, under which internal/bpf/syscalls/x86_64.h spells them __NR_….
pub mod Found
use litrace.Prelude.{
  ℕ, suc, ◌+◌, ◌%◌, ◌^◌, ◌≤◌, ◌<◌, ◌≡◌, ◌≢◌, refl, sym, ◌∙◌, ap, arith, List, [], ◌∷◌, Bool, true,
  false, Option, none, some, ◌==◌, ◌||◌, ◌&&◌, not, leb, ltb, if◌then◌else◌, if-intro, length,
  get_or, set, ==_iff, ==_refl, ◌⊎◌, inl, inr,
}
use litrace.Types.{Event, SyscallData, ExecveSnapshot, SysExitArgs, VarArgDesc, is_negative}
use litrace.User.{Call, KernelHeaders, UserRead, got, fault, IsHelper}
use litrace.Syscalls.{
  nr_read, nr_write, nr_open, nr_newstat, nr_newfstat, nr_newlstat, nr_access, nr_execve, nr_chdir,
  nr_rename, nr_unlink, nr_openat, nr_newfstatat, nr_unlinkat, nr_renameat, nr_faccessat,
  nr_renameat2, nr_statx, nr_openat2, nr_faccessat2,
}
use litrace.Tracer.Exit.Event.{
  when, take_string, take_bytes, set_arg_type, capture_open, capture_stat, capture_paths,
  capture_data, capture, apply_snapshot,
}

-- The switch of matchesPath.
unfoldable pub path_args : ℕ → List ℕ
path_args id =
    if id == nr_open
    then 0 ∷ []
    else if id == nr_openat
        || id == nr_openat2
        || id == nr_newfstatat
        || id == nr_faccessat
        || id == nr_statx
        || id == nr_faccessat2
    then 1 ∷ []
    else if id == nr_access
        || id == nr_newstat
        || id == nr_newlstat
        || id == nr_chdir
        || id == nr_unlink
    then 0 ∷ []
    else if id == nr_rename
    then 0 ∷ 1 ∷ []
    else if id == nr_unlinkat
    then 1 ∷ []
    else if id == nr_renameat || id == nr_renameat2
    then 1 ∷ 3 ∷ []
    else []

or-elim {ℓ} : {P : Type ℓ} (a b : Bool) → (a ≡ true → P) → (b ≡ true → P) → (a || b) ≡ true → P
or-elim true b left right h = left refl
or-elim false b left right h = right h

module _ (headers : KernelHeaders) (c : Call) (ret : ℕ) (state : SyscallData)
    (snapshot : Option ExecveSnapshot) (e : Event) where
  -- How the path arguments of a system call are captured.
  pub data Captures (x : Event) : List ℕ → Type 0 where
    nothing : Captures x []
    one : (i : ℕ) → x ≡ take_string headers c ret state i e → Captures x (i ∷ [])
    stat :
        (i j size : ℕ) (b : Bool)
        → x ≡ when b (take_bytes headers c ret state j size) (take_string headers c ret state i e)
        → Captures x (i ∷ [])
    two :
        (i j : ℕ)
        → i ≢ j
        → x ≡ take_string headers c ret state j (take_string headers c ret state i e)
        → Captures x (i ∷ j ∷ [])

  abbrev pub captured : Event
  captured = capture headers c ret state snapshot e

  number : (nr : ℕ) → (state.syscall_id == nr) ≡ true → state.syscall_id ≡ nr
  number nr = (==_iff state.syscall_id nr).0

  Captures-open : (state.syscall_id == nr_open) ≡ true → Captures captured (0 ∷ [])
  unfolding capture capture_open capture_stat capture_paths capture_data when
  Captures-open same = one 0 (rw (number nr_open same) refl)

  Captures-openat : (state.syscall_id == nr_openat) ≡ true → Captures captured (1 ∷ [])
  unfolding capture capture_open capture_stat capture_paths capture_data when
  Captures-openat same = one 1 (rw (number nr_openat same) refl)

  Captures-openat2 : (state.syscall_id == nr_openat2) ≡ true → Captures captured (1 ∷ [])
  unfolding capture capture_open capture_stat capture_paths capture_data when
  Captures-openat2 same = one 1 (rw (number nr_openat2 same) refl)

  Captures-faccessat : (state.syscall_id == nr_faccessat) ≡ true → Captures captured (1 ∷ [])
  unfolding capture capture_open capture_stat capture_paths capture_data when
  Captures-faccessat same = one 1 (rw (number nr_faccessat same) refl)

  Captures-faccessat2 : (state.syscall_id == nr_faccessat2) ≡ true → Captures captured (1 ∷ [])
  unfolding capture capture_open capture_stat capture_paths capture_data when
  Captures-faccessat2 same = one 1 (rw (number nr_faccessat2 same) refl)

  Captures-access : (state.syscall_id == nr_access) ≡ true → Captures captured (0 ∷ [])
  unfolding capture capture_open capture_stat capture_paths capture_data when
  Captures-access same = one 0 (rw (number nr_access same) refl)

  Captures-chdir : (state.syscall_id == nr_chdir) ≡ true → Captures captured (0 ∷ [])
  unfolding capture capture_open capture_stat capture_paths capture_data when
  Captures-chdir same = one 0 (rw (number nr_chdir same) refl)

  Captures-unlink : (state.syscall_id == nr_unlink) ≡ true → Captures captured (0 ∷ [])
  unfolding capture capture_open capture_stat capture_paths capture_data when
  Captures-unlink same = one 0 (rw (number nr_unlink same) refl)

  Captures-unlinkat : (state.syscall_id == nr_unlinkat) ≡ true → Captures captured (1 ∷ [])
  unfolding capture capture_open capture_stat capture_paths capture_data when
  Captures-unlinkat same = one 1 (rw (number nr_unlinkat same) refl)

  Captures-newstat : (state.syscall_id == nr_newstat) ≡ true → Captures captured (0 ∷ [])
  unfolding capture capture_open capture_stat capture_paths capture_data when
  Captures-newstat same =
      stat 0 1 headers.sizeof_stat (not (is_negative ret)) (rw (number nr_newstat same) refl)

  Captures-newlstat : (state.syscall_id == nr_newlstat) ≡ true → Captures captured (0 ∷ [])
  unfolding capture capture_open capture_stat capture_paths capture_data when
  Captures-newlstat same =
      stat 0 1 headers.sizeof_stat (not (is_negative ret)) (rw (number nr_newlstat same) refl)

  Captures-newfstatat : (state.syscall_id == nr_newfstatat) ≡ true → Captures captured (1 ∷ [])
  unfolding capture capture_open capture_stat capture_paths capture_data when
  Captures-newfstatat same =
      stat 1 2 headers.sizeof_stat (not (is_negative ret)) (rw (number nr_newfstatat same) refl)

  Captures-statx : (state.syscall_id == nr_statx) ≡ true → Captures captured (1 ∷ [])
  unfolding capture capture_open capture_stat capture_paths capture_data when
  Captures-statx same =
      stat 1 4 headers.sizeof_statx (not (is_negative ret)) (rw (number nr_statx same) refl)

  Captures-rename : (state.syscall_id == nr_rename) ≡ true → Captures captured (0 ∷ 1 ∷ [])
  unfolding capture capture_open capture_stat capture_paths capture_data when
  Captures-rename same = two 0 1 (omega arith) (rw (number nr_rename same) refl)

  Captures-renameat : (state.syscall_id == nr_renameat) ≡ true → Captures captured (1 ∷ 3 ∷ [])
  unfolding capture capture_open capture_stat capture_paths capture_data when
  Captures-renameat same = two 1 3 (omega arith) (rw (number nr_renameat same) refl)

  Captures-renameat2 : (state.syscall_id == nr_renameat2) ≡ true → Captures captured (1 ∷ 3 ∷ [])
  unfolding capture capture_open capture_stat capture_paths capture_data when
  Captures-renameat2 same = two 1 3 (omega arith) (rw (number nr_renameat2 same) refl)

  pub captures : Captures captured (path_args state.syscall_id)
  unfolding path_args
  captures =
      let P = Captures captured in
      if-intro P _ Captures-open λ _.
        if-intro P _
          (or-elim _ _
            (or-elim _ _
              (or-elim _ _
                (or-elim _ _ (or-elim _ _ Captures-openat Captures-openat2) Captures-newfstatat)
                Captures-faccessat)
              Captures-statx)
            Captures-faccessat2)
          λ _.
            if-intro P _
              (or-elim _ _
                (or-elim _ _
                  (or-elim _ _ (or-elim _ _ Captures-access Captures-newstat) Captures-newlstat)
                  Captures-chdir)
                Captures-unlink)
              λ _. if-intro P _ Captures-rename λ _.
                if-intro P _ Captures-unlinkat
                  λ _. if-intro P _ (or-elim _ _ Captures-renameat Captures-renameat2) λ _. nothing
