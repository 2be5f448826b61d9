-- ===== src/Capture.antt =====
-- append_var_string, append_var_bytes and append_var_argv of internal/bpf/tracer.c: a value of
-- variable length is copied into the payload of an event and described by a `var_arg_desc`.
pub mod Bounds
use Prim.Native.Nat.{bit_or}
use litrace.Prelude.{
  ℕ, ◌+◌, ◌-◌, ◌%◌, ◌^◌, List, true, ◌==◌, ltb, leb, if◌then◌else◌, length, set, write_at,
}
use litrace.Types.{
  VarArgDesc, Event, generic_var_slot_size, max_var_args, max_var_payload, var_flag_none,
  var_flag_truncated, var_flag_read_error, var_flag_null_pointer, u8, u16,
}
use litrace.User.{Call, UserRead, fault, got}
use litrace.Argv.{ArgvCopy, copy_argv}

-- The descriptor as it is set up before anything is read.
abbrev pub new_desc : ℕ → ℕ → VarArgDesc
new_desc arg_index offset = record {
  arg_index = arg_index;
  flags = var_flag_none;
  offset = offset;
  length = 0;
  reserved = 0;
}

-- The descriptor in its final form at `e->var_desc[e->var_count]`, and `e->var_count++`.
unfoldable pub push_desc : VarArgDesc → Event → Event
push_desc d e = record e {
  var_desc = set e.var_desc e.var_count d;
  var_count = u8 (e.var_count + 1);
}

-- `if (e->payload_len < end) e->payload_len = end;`
abbrev pub raise_len : ℕ → ℕ → ℕ
raise_len len end = if ltb len end then u16 end else len

abbrev pub slot_offset : ℕ → ℕ
slot_offset slot = if slot == 0 then 0 else generic_var_slot_size

-- What follows bpf_probe_read_user_str in append_var_string.
unfoldable pub string_read : UserRead → VarArgDesc → Event → Event
unfolding push_desc
string_read (fault left) d e =
    push_desc (record d { flags = bit_or d.flags var_flag_read_error })
      (record e { payload = write_at e.payload d.offset left })
string_read (got bytes) d e =
    let copied = length bytes in
    let len = if ltb 0 copied then u16 (copied - 1) else 0 in
    let flags =
      if copied == generic_var_slot_size then bit_or d.flags var_flag_truncated else d.flags in
    push_desc (record d { flags = flags; length = len })
      (record e {
        payload = write_at e.payload d.offset bytes;
        payload_len = raise_len e.payload_len (d.offset + len);
      })

unfoldable pub append_var_string : Call → ℕ → ℕ → Event → Event
unfolding push_desc
append_var_string c arg_index ptr e =
    let d = new_desc arg_index (slot_offset e.var_count) in
    if leb 2 e.var_count
    then e
    else if ptr == 0
    then push_desc (record d { flags = bit_or d.flags var_flag_null_pointer }) e
    else string_read (c.read_user_str generic_var_slot_size ptr) d e

-- What follows bpf_probe_read_user in append_var_bytes.
unfoldable pub bytes_read : UserRead → ℕ → VarArgDesc → Event → Event
unfolding push_desc
bytes_read (fault left) to_copy d e =
    push_desc (record d { flags = bit_or d.flags var_flag_read_error })
      (record e { payload = write_at e.payload d.offset left })
bytes_read (got bytes) to_copy d e =
    push_desc (record d { length = u16 to_copy })
      (record e {
        payload = write_at e.payload d.offset bytes;
        payload_len = raise_len e.payload_len (d.offset + to_copy);
      })

unfoldable pub append_var_bytes : Call → ℕ → ℕ → ℕ → Event → Event
unfolding push_desc
append_var_bytes c arg_index ptr size e =
    let d = new_desc arg_index (slot_offset e.var_count) in
    let available = generic_var_slot_size in
    let to_copy = if ltb size available then size else available in
    let flags =
      if ltb size available
      then d.flags
      else if ltb available size
      then bit_or d.flags var_flag_truncated
      else d.flags in
    if leb 2 e.var_count
    then e
    else if ptr == 0
    then push_desc (record d { flags = bit_or d.flags var_flag_null_pointer }) e
    else if to_copy == 0
    then push_desc (record d { flags = flags }) e
    else bytes_read (c.read_user to_copy ptr) to_copy (record d { flags = flags }) e

-- The end of append_var_argv: the descriptor and the payload length from the loop's variables.
unfoldable pub argv_taken : ℕ → VarArgDesc → ArgvCopy → Event → Event
unfolding push_desc
argv_taken start d a e =
    push_desc
      (record d {
        flags = a.flags;
        length = if ltb start a.cursor then u16 (a.cursor - start) else d.length;
      })
      (record e {
        payload = a.payload;
        payload_len = if ltb start a.cursor then u16 a.cursor else e.payload_len;
      })

unfoldable pub append_var_argv : Call → ℕ → ℕ → Event → Event
unfolding push_desc
append_var_argv c arg_index argv e =
    let d = new_desc arg_index e.payload_len in
    let start = e.payload_len in
    let a =
      copy_argv c max_var_payload argv
        (record { flags = d.flags; cursor = start; payload = e.payload; exhausted = true }) in
    if leb max_var_args e.var_count
    then e
    else if argv == 0
    then push_desc (record d { flags = bit_or d.flags var_flag_null_pointer }) e
    else if leb max_var_payload start
    then push_desc (record d { flags = bit_or d.flags var_flag_truncated }) e
    else argv_taken start d a e
