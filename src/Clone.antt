-- ===== src/Clone.antt =====
-- Which system calls create a process: is_process_clone and should_track_unselected_syscall of
-- internal/bpf/tracer.c.
pub mod Spec
use litrace.Prelude.{
  ℕ, List, Bool, true, false, Option, none, some, [], ◌∷◌, ◌==◌, ◌||◌, if◌then◌else◌, get_or,
  bit_and, replicate,
}
use litrace.Types.{SyscallData, Clone3Args}
use litrace.Syscalls.{nr_fork, nr_vfork, nr_clone, nr_clone3}
use litrace.User.{Call, KernelHeaders, read_word}

-- The value that was read into `struct clone3_args args`, or a failed read.
clone3_is_process : KernelHeaders → Option Clone3Args → ℕ
clone3_is_process k none = 1
clone3_is_process k (some args) = if bit_and args.flags k.clone_thread == 0 then 1 else 0

-- bpf_probe_read_user of a `struct clone3_args`.
read_clone3_args : Call → ℕ → Option Clone3Args
read_clone3_args c ptr = elim (read_word c ptr) [
  | none ↦ none
  | some flags ↦ some (record { flags = flags })
]

unfoldable pub is_process_clone : KernelHeaders → Call → SyscallData → ℕ
unfolding clone3_is_process read_clone3_args
is_process_clone k c state =
    if state.syscall_id == nr_fork || state.syscall_id == nr_vfork
    then 1
    else if state.syscall_id == nr_clone
    then (if bit_and (get_or state.args 0 0) k.clone_thread == 0 then 1 else 0)
    else if state.syscall_id == nr_clone3
    then clone3_is_process k (read_clone3_args c (get_or state.args 0 0))
    else 0

-- `struct syscall_data state = { 0 }`
unfoldable pub zero_syscall_data : SyscallData
zero_syscall_data = record {
  ts = 0;
  syscall_id = 0;
  args = 0 ∷ 0 ∷ 0 ∷ 0 ∷ 0 ∷ 0 ∷ [];
  seq = 0;
  selected = 0;
}

unfoldable pub should_track_unselected_syscall : KernelHeaders → Call → ℕ → ℕ → ℕ
unfolding is_process_clone zero_syscall_data
should_track_unselected_syscall k c follow_forks syscall_id =
    if follow_forks == 0
    then 0
    else is_process_clone k c (record zero_syscall_data { syscall_id = syscall_id })
