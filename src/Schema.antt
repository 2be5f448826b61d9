-- ===== src/Schema.antt =====
-- The argument schemas of internal/bpf/syscalls/x86_64.h, and set_syscall_arg_schema of
-- internal/bpf/tracer.c, which gives an event the types of its arguments.
mod Entry
pub mod Table
mod Part1
mod Part2
mod Part3
mod Part4
mod Part5
mod Part6
mod Part7
mod Part8
mod Part9
mod Part10
mod Part11
mod Part12
mod Part13
use litrace.Prelude.{ℕ, List, [], ◌∷◌, ◌++◌, Option, none, some, ◌==◌, if◌then◌else◌}
use litrace.Types.{SyscallArgSchema, Event, arg_raw}
use Part1.{schemas_1}
use Part2.{schemas_2}
use Part3.{schemas_3}
use Part4.{schemas_4}
use Part5.{schemas_5}
use Part6.{schemas_6}
use Part7.{schemas_7}
use Part8.{schemas_8}
use Part9.{schemas_9}
use Part10.{schemas_10}
use Part11.{schemas_11}
use Part12.{schemas_12}
use Part13.{schemas_13}

unfoldable pub syscall_schemas : List SyscallArgSchema
unfolding schemas_1 schemas_2 schemas_3 schemas_4 schemas_5 schemas_6 schemas_7 schemas_8 schemas_9
    schemas_10 schemas_11 schemas_12 schemas_13
syscall_schemas =
    schemas_1
    ++ (schemas_2
        ++ (schemas_3
            ++ (schemas_4
                ++ (schemas_5
                    ++ (schemas_6
                        ++ (schemas_7
                            ++ (schemas_8
                                ++ (schemas_9
                                    ++ (schemas_10
                                        ++ (schemas_11 ++ (schemas_12 ++ (schemas_13))))))))))))

-- The loop over the table: the first schema of the system call.
unfoldable pub find_schema : ℕ → List SyscallArgSchema → Option SyscallArgSchema
find_schema syscall_id [] = none
find_schema syscall_id (schema ∷ rest) =
    if schema.syscall_id == syscall_id then some schema else find_schema syscall_id rest

unfoldable pub apply_schema : Option SyscallArgSchema → Event → Event
apply_schema (some schema) e = record e {
  arg_count = schema.arg_count;
  arg_types = schema.arg_types;
}
apply_schema none e = record e {
  arg_count = 6;
  arg_types = arg_raw ∷ arg_raw ∷ arg_raw ∷ arg_raw ∷ arg_raw ∷ arg_raw ∷ [];
}

unfoldable pub set_syscall_arg_schema : ℕ → Event → Event
unfolding find_schema apply_schema
set_syscall_arg_schema syscall_id e = apply_schema (find_schema syscall_id syscall_schemas) e
