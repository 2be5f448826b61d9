-- ===== src/Tests/Decode.antt =====
-- Examples of the theorems on the event's payload, and of the reader's.
use litrace.Prelude.{
  ℕ, ◌≡◌, refl, arith, inl, List, [], ◌∷◌, true, none, some, length, replicate, write_at,
}
use mathlib.Core.List.{Memᴰ}
use mathlib.Core.List.Memᴰ.{head}
use litrace.Types.{Event, VarArgDesc, SyscallArgSchema, zero_desc}
use litrace.Tracer.Exit.Event.{exit_event}
use litrace.Tracer.State.{track_child_process}
use litrace.Tracer.Steps.{init}
use litrace.Capture.{append_var_string, string_read, push_desc}
use litrace.Capture.Bounds.{IsWellFormed, append_var_string-IsWellFormed}
use litrace.Argv.{ArgvCopy}
use litrace.Schema.{set_syscall_arg_schema, find_schema, syscall_schemas}
use litrace.Schema.Table.{IsTyped, set_syscall_arg_schema-IsTyped, find_schema-syscall_schemas}
use litrace.Reader.{
  event_trace_path_at, find_var_arg_desc, var_payload_slice, process_clone_child_pid,
}
use litrace.Reader.Slices.{var_payload_slice-IsWellFormed}
use litrace.Reader.Paths.{path_args}
use litrace.Reader.Paths.Found.{exit_event-Gives}
use litrace.Reader.Child.{add_target, process_clone_child_pid-track_child_process}
use litrace.Tests.{call, call-IsHelper, headers, env, targets, opened, forked, returned, fork_exit}

abbrev empty : Event
empty = record {
  ts = 90;
  dur = 10;
  syscall_id = 257;
  ret = 3;
  args = replicate 6 0;
  var_desc = replicate 6 zero_desc;
  payload = replicate 512 0;
  pid = 7;
  tid = 7;
  seq = 1;
  payload_len = 0;
  arg_count = 4;
  var_count = 0;
  arg_types = replicate 6 0;
  event_flags = 0;
}

empty-IsWellFormed : IsWellFormed empty
unfolding replicate
empty-IsWellFormed = record {
  payload_size = refl;
  desc_size = refl;
  types_size = refl;
  len = omega arith;
  count = omega arith;
  fits = λ i lt. absurd (omega arith);
}

exit_event-Gives_example :
    event_trace_path_at (exit_event headers (call true) returned opened none) 1
    ≡ some (47 ∷ 97 ∷ [])
unfolding path_args
exit_event-Gives_example =
    exit_event-Gives headers (call true) returned opened none 1 (47 ∷ 97 ∷ []) (call-IsHelper true)
      (inl refl) (record { given = omega arith; read = refl; short = omega arith })

abbrev with_path : Event
with_path = append_var_string (call true) 1 4096 empty

abbrev path_desc : VarArgDesc
path_desc = record zero_desc { arg_index = 1; length = 2 }

path_desc_found : find_var_arg_desc with_path 1 ≡ some path_desc
unfolding find_var_arg_desc append_var_string string_read push_desc replicate write_at
path_desc_found = refl

var_payload_slice-IsWellFormed_example :
    (bytes : List ℕ) × (var_payload_slice with_path path_desc ≡ some bytes) × (length bytes ≡ 2)
var_payload_slice-IsWellFormed_example =
    var_payload_slice-IsWellFormed with_path 1 path_desc
      (append_var_string-IsWellFormed (call true) 1 4096 empty empty-IsWellFormed
        (call-IsHelper true))
      path_desc_found (omega arith)

abbrev read_schema : SyscallArgSchema
read_schema = record { syscall_id = 0; arg_count = 3; arg_types = 3 ∷ 2 ∷ 2 ∷ 0 ∷ 0 ∷ 0 ∷ [] }

read_schema-Memᴰ : Memᴰ read_schema syscall_schemas
unfolding syscall_schemas
read_schema-Memᴰ = head refl

find_schema-syscall_schemas_example : find_schema 0 syscall_schemas ≡ some read_schema
find_schema-syscall_schemas_example = find_schema-syscall_schemas read_schema read_schema-Memᴰ

set_syscall_arg_schema-IsTyped_example : IsTyped (set_syscall_arg_schema 257 empty)
set_syscall_arg_schema-IsTyped_example = set_syscall_arg_schema-IsTyped 257 empty

process_clone_child_pid-track_child_process_example :
    track_child_process env (call true) forked 8 (init targets)
    ≡ add_target env
        (process_clone_child_pid (exit_event headers (call true) fork_exit forked none))
        (init targets)
process_clone_child_pid-track_child_process_example =
    process_clone_child_pid-track_child_process env (call true) fork_exit forked none (init targets)
      (omega arith) (λ same. refl)

abbrev fresh_copy : ArgvCopy
fresh_copy = record { flags = 0; cursor = 0; payload = replicate 512 0; exhausted = true }
