-- ===== src/Types.antt =====
-- internal/bpf/types.h: the constants and structures that the tracer and its reader share.
-- A machine word is its bit pattern: a `long` or an `unsigned long` is a number below 2 ^ 64, and
-- a signed word is negative from 2 ^ 63 on. Arrays are lists of the array's length. The bytes
-- `reserved[3]` of `struct syscall_data` and the padding fields `pad` carry nothing and are left out.
use litrace.Prelude.{ℕ, ◌^◌, ◌%◌, List, Bool, leb, ltb, ◌&&◌, not}

-- enum arg_type
abbrev pub arg_none : ℕ
arg_none = 0

abbrev pub arg_int : ℕ
arg_int = 1

abbrev pub arg_uint : ℕ
arg_uint = 2

abbrev pub arg_fd : ℕ
arg_fd = 3

abbrev pub arg_mode : ℕ
arg_mode = 4

abbrev pub arg_flags : ℕ
arg_flags = 5

abbrev pub arg_off : ℕ
arg_off = 6

abbrev pub arg_ptr : ℕ
arg_ptr = 7

abbrev pub arg_raw : ℕ
arg_raw = 255

-- The sizes of the variable-length part of an event and of an execve snapshot.
abbrev pub max_var_args : ℕ
max_var_args = 6

abbrev pub max_var_payload : ℕ
max_var_payload = 512

abbrev pub generic_var_slot_size : ℕ
generic_var_slot_size = 256

abbrev pub max_execve_argv : ℕ
max_execve_argv = 8

abbrev pub max_execve_arg_str : ℕ
max_execve_arg_str = 128

abbrev pub max_execve_state_vars : ℕ
max_execve_state_vars = 2

abbrev pub max_execve_state_payload : ℕ
max_execve_state_payload = 256

-- enum var_arg_kind; its values overlap those of enum arg_type.
abbrev pub var_arg_none : ℕ
var_arg_none = 0

abbrev pub var_arg_string : ℕ
var_arg_string = 1

abbrev pub var_arg_bytes : ℕ
var_arg_bytes = 2

abbrev pub var_arg_argv : ℕ
var_arg_argv = 3

-- enum var_arg_flags
abbrev pub var_flag_none : ℕ
var_flag_none = 0

abbrev pub var_flag_truncated : ℕ
var_flag_truncated = 1

abbrev pub var_flag_read_error : ℕ
var_flag_read_error = 2

abbrev pub var_flag_null_pointer : ℕ
var_flag_null_pointer = 4

-- struct var_arg_desc
pub record VarArgDesc : Type 0 where
  pub arg_index : ℕ
  pub flags : ℕ
  pub offset : ℕ
  pub length : ℕ
  pub reserved : ℕ

-- struct event
pub record Event : Type 0 where
  pub ts : ℕ
  pub dur : ℕ
  pub syscall_id : ℕ
  pub ret : ℕ
  pub args : List ℕ
  pub var_desc : List VarArgDesc
  pub payload : List ℕ
  pub pid : ℕ
  pub tid : ℕ
  pub seq : ℕ
  pub payload_len : ℕ
  pub arg_count : ℕ
  pub var_count : ℕ
  pub arg_types : List ℕ
  pub event_flags : ℕ

-- struct execve_snapshot
pub record ExecveSnapshot : Type 0 where
  pub var_desc : List VarArgDesc
  pub payload : List ℕ
  pub payload_len : ℕ
  pub var_count : ℕ
  pub reserved : ℕ

-- struct syscall_data
pub record SyscallData : Type 0 where
  pub ts : ℕ
  pub syscall_id : ℕ
  pub args : List ℕ
  pub seq : ℕ
  pub selected : ℕ

-- struct syscall_arg_schema
pub record SyscallArgSchema : Type 0 where
  pub syscall_id : ℕ
  pub arg_count : ℕ
  pub arg_types : List ℕ

-- struct sys_enter_args
pub record SysEnterArgs : Type 0 where
  pub id : ℕ
  pub args : List ℕ

-- struct clone3_args
pub record Clone3Args : Type 0 where
  pub flags : ℕ

-- struct sys_exit_args
pub record SysExitArgs : Type 0 where
  pub id : ℕ
  pub ret : ℕ

-- A `struct var_arg_desc` of zeroes.
abbrev pub zero_desc : VarArgDesc
zero_desc = record { arg_index = 0; flags = 0; offset = 0; length = 0; reserved = 0 }

-- What an assignment to a __u8, a __u16, a __u32 or a __u64 keeps.
abbrev pub u8 : ℕ → ℕ
u8 n = n % 2 ^ 8

abbrev pub u16 : ℕ → ℕ
u16 n = n % 2 ^ 16

abbrev pub u32 : ℕ → ℕ
u32 n = n % 2 ^ 32

abbrev pub u64 : ℕ → ℕ
u64 n = n % 2 ^ 64

-- `x < 0` and `x > 0` of a `long`.
abbrev pub is_negative : ℕ → Bool
is_negative x = leb (2 ^ 63) x

abbrev pub is_positive : ℕ → Bool
is_positive x = ltb 0 x && not (leb (2 ^ 63) x)
