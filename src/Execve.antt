-- ===== src/Execve.antt =====
-- append_execve_var_string and append_execve_var_argv of internal/bpf/tracer.c: the path and the
-- arguments of an execve are copied when the call is entered, into a snapshot of the thread's own.
pub mod Bounds
use Prim.Native.Nat.{bit_or}
use litrace.Prelude.{
  ℕ, ◌+◌, ◌-◌, ◌%◌, ◌^◌, List, [], ◌∷◌, true, ◌==◌, ltb, leb, if◌then◌else◌, length, set, replicate,
  write_at,
}
use litrace.Types.{
  VarArgDesc, ExecveSnapshot, max_execve_state_vars, max_execve_state_payload, max_execve_arg_str,
  var_flag_truncated, var_flag_read_error, var_flag_null_pointer, zero_desc, u8, u16,
}
use litrace.User.{Call, UserRead, fault, got}
use litrace.Argv.{ArgvCopy, copy_argv}
use litrace.Capture.{new_desc}

-- `struct execve_snapshot zero = { 0 }`
unfoldable pub zero_snapshot : ExecveSnapshot
zero_snapshot = record {
  var_desc = zero_desc ∷ zero_desc ∷ [];
  payload = replicate max_execve_state_payload 0;
  payload_len = 0;
  var_count = 0;
  reserved = 0;
}

-- The descriptor in its final form at `snap->var_desc[snap->var_count]`, and `snap->var_count++`.
unfoldable pub push_state_desc : VarArgDesc → ExecveSnapshot → ExecveSnapshot
push_state_desc d snap = record snap {
  var_desc = set snap.var_desc snap.var_count d;
  var_count = u8 (snap.var_count + 1);
}

-- What follows bpf_probe_read_user_str in append_execve_var_string.
unfoldable pub state_string_read : UserRead → VarArgDesc → ExecveSnapshot → ExecveSnapshot
unfolding push_state_desc
state_string_read (fault left) d snap =
    push_state_desc (record d { flags = bit_or d.flags var_flag_read_error })
      (record snap { payload = write_at snap.payload 0 left })
state_string_read (got bytes) d snap =
    let copied =
      if ltb max_execve_arg_str (length bytes) then max_execve_arg_str else length bytes in
    let len = if ltb 0 copied then u16 (copied - 1) else 0 in
    let flags =
      if copied == max_execve_arg_str then bit_or d.flags var_flag_truncated else d.flags in
    push_state_desc (record d { flags = flags; length = len })
      (record snap {
        payload = write_at snap.payload 0 bytes;
        payload_len = if ltb 0 copied then len else snap.payload_len;
      })

unfoldable pub append_execve_var_string : Call → ℕ → ℕ → ExecveSnapshot → ExecveSnapshot
unfolding push_state_desc
append_execve_var_string c arg_index ptr snap =
    let d = new_desc arg_index 0 in
    if leb max_execve_state_vars snap.var_count
    then snap
    else if ptr == 0
    then push_state_desc (record d { flags = bit_or d.flags var_flag_null_pointer }) snap
    else state_string_read (c.read_user_str max_execve_arg_str ptr) d snap

-- The end of append_execve_var_argv: descriptor and payload length from the loop's variables.
unfoldable pub state_argv_taken : ℕ → VarArgDesc → ArgvCopy → ExecveSnapshot → ExecveSnapshot
unfolding push_state_desc
state_argv_taken start d a snap =
    push_state_desc
      (record d {
        flags = a.flags;
        length = if ltb start a.cursor then u16 (a.cursor - start) else d.length;
      })
      (record snap {
        payload = a.payload;
        payload_len = if ltb start a.cursor then u16 a.cursor else snap.payload_len;
      })

unfoldable pub append_execve_var_argv : Call → ℕ → ℕ → ExecveSnapshot → ExecveSnapshot
unfolding push_state_desc
append_execve_var_argv c arg_index argv snap =
    let d = new_desc arg_index snap.payload_len in
    let start = snap.payload_len in
    let a =
      copy_argv c max_execve_state_payload argv
        (record { flags = d.flags; cursor = start; payload = snap.payload; exhausted = true }) in
    if leb max_execve_state_vars snap.var_count
    then snap
    else if argv == 0
    then push_state_desc (record d { flags = bit_or d.flags var_flag_null_pointer }) snap
    else if leb max_execve_state_payload start
    then push_state_desc (record d { flags = bit_or d.flags var_flag_truncated }) snap
    else state_argv_taken start d a snap

-- What trace_sys_enter does with a fresh snapshot.
unfoldable pub take_snapshot : Call → (path argv : ℕ) → ExecveSnapshot → ExecveSnapshot
unfolding append_execve_var_string append_execve_var_argv
take_snapshot c path argv snap =
    append_execve_var_argv c 1 argv (append_execve_var_string c 0 path snap)
