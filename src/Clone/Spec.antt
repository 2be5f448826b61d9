-- ===== src/Clone/Spec.antt =====
-- is_process_clone and the filter decision against descriptions of what they decide.
use Prim.Native.Nat.{bit_and-bitwise}
use litrace.Prelude.{
  ℕ, ◌≡◌, ◌≢◌, ◌↔◌, inl, inr, refl, arith, none, some, ◌==◌, get_or, bit_and, ==_iff, Bool-cases,
  Option-cases, List,
}
use litrace.Types.{SyscallData}
use litrace.Syscalls.{nr_fork, nr_vfork, nr_clone, nr_clone3}
use litrace.User.{Call, KernelHeaders, fault, read_word}
use litrace.Clone.{is_process_clone, should_track_unselected_syscall, zero_syscall_data}

-- A system call that creates a process rather than a thread. A clone3 whose arguments cannot be
-- read counts as one.
pub data CreatesProcess (k : KernelHeaders) (c : Call) (state : SyscallData) : Type 0 where
  fork : state.syscall_id ≡ nr_fork → CreatesProcess k c state
  vfork : state.syscall_id ≡ nr_vfork → CreatesProcess k c state
  clone :
      state.syscall_id ≡ nr_clone
      → bit_and (get_or state.args 0 0) k.clone_thread ≡ 0
      → CreatesProcess k c state
  clone3_unread :
      state.syscall_id ≡ nr_clone3
      → read_word c (get_or state.args 0 0) ≡ none
      → CreatesProcess k c state
  clone3 :
      (flags : ℕ)
      → state.syscall_id ≡ nr_clone3
      → read_word c (get_or state.args 0 0) ≡ some flags
      → bit_and flags k.clone_thread ≡ 0
      → CreatesProcess k c state

module _ (k : KernelHeaders) (c : Call) (state : SyscallData) where
  is_process_clone_sound : is_process_clone k c state ≢ 0 → CreatesProcess k c state
  unfolding is_process_clone
  is_process_clone_sound on = elim (Bool-cases (state.syscall_id == nr_fork)) [
    | inl is_fork ↦ fork ((==_iff _ _).0 is_fork)
    | inr not_fork ↦ elim (Bool-cases (state.syscall_id == nr_vfork)) [
      | inl is_vfork ↦ vfork ((==_iff _ _).0 is_vfork)
      | inr not_vfork ↦ elim (Bool-cases (state.syscall_id == nr_clone)) [
        | inl is_clone ↦ clone ((==_iff _ _).0 is_clone) (ground arith)
        | inr not_clone ↦ elim (Bool-cases (state.syscall_id == nr_clone3)) [
          | inl is_clone3 ↦ elim (Option-cases (read_word c (get_or state.args 0 0))) [
            | inl unread ↦ clone3_unread ((==_iff _ _).0 is_clone3) unread
            | inr (flags, read) ↦ clone3 flags ((==_iff _ _).0 is_clone3) read (ground arith)
          ]
          | inr other ↦ absurd (ground arith)
        ]
      ]
    ]
  ]

  is_process_clone_complete : CreatesProcess k c state → is_process_clone k c state ≡ 1
  unfolding is_process_clone
  is_process_clone_complete (fork e) = ground arith
  is_process_clone_complete (vfork e) = ground arith
  is_process_clone_complete (clone e flag) = ground arith
  is_process_clone_complete (clone3_unread e unread) = ground arith
  is_process_clone_complete (clone3 flags e read flag) = ground arith

  -- is_process_clone says yes exactly for fork, vfork, a clone or clone3 without CLONE_THREAD, and a
  -- clone3 whose arguments cannot be read.
  pub is_process_clone-CreatesProcess : (is_process_clone k c state ≢ 0) ↔ CreatesProcess k c state
  is_process_clone-CreatesProcess =
      (is_process_clone_sound, λ p. omega (arith, is_process_clone_complete p))

-- The calls that may create a process.
pub data ForkFamily (id : ℕ) : Type 0 where
  fork : id ≡ nr_fork → ForkFamily id
  vfork : id ≡ nr_vfork → ForkFamily id
  clone : id ≡ nr_clone → ForkFamily id
  clone3 : id ≡ nr_clone3 → ForkFamily id

zero-bit_and : (b : ℕ) → bit_and 0 b ≡ 0
zero-bit_and b = bit_and-bitwise 0 b

-- With the arguments unknown, and address 0 unreadable, the tracer keeps an unselected call exactly
-- if it follows forks and the call is fork, vfork, clone or clone3.
pub should_track_unselected_syscall-ForkFamily :
    (k : KernelHeaders) (c : Call) (follow_forks id : ℕ) (left : List ℕ)
    → c.read_user 8 0 ≡ fault left
    → (should_track_unselected_syscall k c follow_forks id ≢ 0)
      ↔ ((follow_forks ≢ 0) × ForkFamily id)
unfolding should_track_unselected_syscall
should_track_unselected_syscall-ForkFamily k c follow_forks id left unreadable =
    let state : SyscallData = record zero_syscall_data { syscall_id = id } in
    elim (Bool-cases (follow_forks == 0)) [
      | inl off ↦ (λ on. absurd (ground arith), λ h. absurd (ground arith))
      | inr follow ↦ (
        λ on. (ground arith, family (is_process_clone_sound k c state (ground arith))),
        λ h. ground (arith, is_process_clone_complete k c state (creates h.1)),
      )
    ]
  where
    family : CreatesProcess k c (record zero_syscall_data { syscall_id = id }) → ForkFamily id
    family (fork e) = fork e
    family (vfork e) = vfork e
    family (clone e flag) = clone e
    family (clone3_unread e unread) = clone3 e
    family (clone3 flags e read flag) = clone3 e

    creates : ForkFamily id → CreatesProcess k c (record zero_syscall_data { syscall_id = id })
    creates (fork e) = fork e
    creates (vfork e) = vfork e
    creates (clone e) = clone e (zero-bit_and k.clone_thread)
    creates (clone3 e) = clone3_unread e (unfold read_word in rw unreadable refl)
