-- ===== src/Tracer/Exit/Event.antt =====
-- The event that trace_sys_exit of internal/bpf/tracer.c fills in: its fixed fields, and the
-- arguments of variable length, by system call.
use litrace.Prelude.{
  ℕ, ◌+◌, ◌-◌, ◌^◌, Bool, Option, none, some, ◌==◌, ◌&&◌, ◌||◌, not, if◌then◌else◌, get_or, set,
  replicate, write_at,
}
use litrace.Types.{
  Event, ExecveSnapshot, SyscallData, SysExitArgs, zero_desc, max_var_payload, var_arg_string,
  var_arg_bytes, var_flag_read_error, is_positive, is_negative, u64,
}
use litrace.Syscalls.{
  nr_read, nr_write, nr_open, nr_newstat, nr_newfstat, nr_newlstat, nr_access, nr_execve, nr_chdir,
  nr_rename, nr_unlink, nr_openat, nr_newfstatat, nr_unlinkat, nr_renameat, nr_faccessat,
  nr_renameat2, nr_statx, nr_openat2, nr_faccessat2,
}
use litrace.User.{Call, KernelHeaders}
use litrace.Capture.{append_var_string, append_var_bytes}
use litrace.Schema.{set_syscall_arg_schema}
use litrace.Clone.{is_process_clone}
use litrace.Tracer.State.{tgid_of, tid_of}

-- EVENT_FLAG_PROCESS_CLONE
abbrev pub event_flag_process_clone : ℕ
event_flag_process_clone = 1

-- The assignments from `e->ts` to the loop that clears the payload.
unfoldable pub start_event : KernelHeaders → Call → SysExitArgs → SyscallData → Event
start_event headers c ctx state = record {
  ts = state.ts;
  dur = u64 (c.now + 2 ^ 64 - state.ts);
  syscall_id = state.syscall_id;
  ret = ctx.ret;
  args = state.args;
  var_desc = replicate 6 zero_desc;
  payload = replicate max_var_payload 0;
  pid = tgid_of c;
  tid = tid_of c;
  seq = state.seq;
  payload_len = 0;
  arg_count = 0;
  var_count = 0;
  arg_types = replicate 6 0;
  event_flags =
      if is_positive ctx.ret && not (is_process_clone headers c state == 0)
      then event_flag_process_clone
      else 0;
}

unfoldable pub when : Bool → (Event → Event) → Event → Event
when b f e = if b then f e else e

-- `e->arg_types[i] = kind;`
unfoldable pub set_arg_type : ℕ → ℕ → Event → Event
set_arg_type i kind e = record e { arg_types = set e.arg_types i kind }

-- The snapshot of an execve replaces the variable part of the event; without one both descriptors
-- report a read error.
unfoldable pub apply_snapshot : Option ExecveSnapshot → Event → Event
apply_snapshot (some snapshot) e = record e {
  payload_len = snapshot.payload_len;
  var_count = snapshot.var_count;
  var_desc =
      set (set e.var_desc 0 (get_or snapshot.var_desc 0 zero_desc)) 1
        (get_or snapshot.var_desc 1 zero_desc);
  payload = write_at e.payload 0 snapshot.payload;
}
apply_snapshot none e =
    let d0 = record (get_or e.var_desc 0 zero_desc) {
      arg_index = 0;
      flags = var_flag_read_error;
    } in
    let d1 = record (get_or e.var_desc 1 zero_desc) {
      arg_index = 1;
      flags = var_flag_read_error;
    } in
    record e { var_count = 2; var_desc = set (set e.var_desc 0 d0) 1 d1 }

module _ (headers : KernelHeaders) (c : Call) (ret : ℕ) (state : SyscallData) where
  abbrev pub is : ℕ → Bool
  is nr = state.syscall_id == nr

  abbrev pub arg : ℕ → ℕ
  arg i = get_or state.args i 0

  abbrev pub succeeded : Bool
  succeeded = not (is_negative ret)

  unfoldable pub take_string : ℕ → Event → Event
  take_string i e = set_arg_type i var_arg_string (append_var_string c i (arg i) e)

  unfoldable pub take_bytes : ℕ → ℕ → Event → Event
  take_bytes i size e = set_arg_type i var_arg_bytes (append_var_bytes c i (arg i) size e)

  -- open to lstat
  unfoldable pub capture_open : Event → Event
  capture_open e =
      let e1 = when (is nr_open) (take_string 0) e in
      let e2 = when (is nr_openat) (take_string 1) e1 in
      let at =
        is nr_openat2 || is nr_newfstatat || is nr_faccessat || is nr_statx || is nr_faccessat2 in
      let e3 = when at (take_string 1) e2 in
      when (is nr_access || is nr_newstat || is nr_newlstat) (take_string 0) e3

  -- The results of the stat family, if the call succeeded.
  unfoldable pub capture_stat : Event → Event
  capture_stat e =
      let e1 = when (is nr_newfstat && succeeded) (take_bytes 1 headers.sizeof_stat) e in
      let stats = is nr_newstat || is nr_newlstat in
      let e2 = when (stats && succeeded) (take_bytes 1 headers.sizeof_stat) e1 in
      let e3 = when (is nr_newfstatat && succeeded) (take_bytes 2 headers.sizeof_stat) e2 in
      when (is nr_statx && succeeded) (take_bytes 4 headers.sizeof_statx) e3

  -- chdir to renameat2
  unfoldable pub capture_paths : Event → Event
  capture_paths e =
      let e1 = when (is nr_chdir || is nr_unlink) (take_string 0) e in
      let e2 = when (is nr_rename) (λ x. take_string 1 (take_string 0 x)) e1 in
      let e3 = when (is nr_unlinkat) (take_string 1) e2 in
      when (is nr_renameat || is nr_renameat2) (λ x. take_string 3 (take_string 1 x)) e3

  -- The bytes written, and the bytes read.
  unfoldable pub capture_data : Event → Event
  capture_data e =
      let e1 = when (is nr_write) (append_var_bytes c 1 (arg 1) (arg 2)) e in
      when (is nr_read && succeeded) (append_var_bytes c 1 (arg 1) ret) e1

  -- All arguments of variable length; `snapshot` is what `execve_snapshots` holds for the thread.
  unfoldable pub capture : Option ExecveSnapshot → Event → Event
  capture snapshot e =
      let e1 = capture_paths (capture_stat (capture_open e)) in
      capture_data (when (is nr_execve) (apply_snapshot snapshot) e1)

unfoldable pub exit_event :
    KernelHeaders → Call → SysExitArgs → SyscallData → Option ExecveSnapshot → Event
exit_event headers c ctx state snapshot =
    let e = start_event headers c ctx state in
    capture headers c ctx.ret state snapshot (set_syscall_arg_schema state.syscall_id e)
