-- ===== src/Schema/Entry.antt =====
-- An element of `syscall_schemas`.
use litrace.Prelude.{ℕ, List}
use litrace.Types.{SyscallArgSchema}

abbrev pub entry : ℕ → ℕ → List ℕ → SyscallArgSchema
entry syscall_id arg_count arg_types = record {
  syscall_id = syscall_id;
  arg_count = arg_count;
  arg_types = arg_types;
}
