-- ===== src/Tracer/Exit/WellFormed.antt =====
-- Whatever the traced process's memory holds, the event of trace_sys_exit can be taken apart.
use litrace.Prelude.{
  ℕ, ◌<◌, ◌≡◌, ◌⊎◌, inl, inr, refl, ◌∙◌, ap, arith, true, Option, ◌==◌, ◌&&◌, not, length, get_or,
  length-replicate, ==_iff,
}
use litrace.Types.{Event, ExecveSnapshot, SyscallData, SysExitArgs, zero_desc, is_negative}
use litrace.User.{Call, KernelHeaders, IsHelper}
use litrace.Syscalls.{nr_read, nr_write, nr_execve}
use litrace.Capture.Bounds.{
  IsWellFormed, append_var_string-IsWellFormed, append_var_bytes-IsWellFormed,
}
use litrace.Schema.{set_syscall_arg_schema}
use litrace.Capture.{append_var_bytes}
use litrace.Schema.Table.{
  SameVariable, set_syscall_arg_schema-SameVariable, IsTyped, set_syscall_arg_schema-IsTyped,
}
use litrace.Tracer.Exit.Event.{
  start_event, when, apply_snapshot, take_string, take_bytes, capture_open, capture_stat,
  capture_paths, capture_data, capture, exit_event,
}
use litrace.Tracer.Exit.Parts.{
  AllSnapshots, &&-left, when-IsWellFormed, when_given, apply_snapshot-IsWellFormed,
  set_arg_type-IsWellFormed,
}

-- The kernel's structures are not empty.
pub record IsHeaders (headers : KernelHeaders) : Type 0 where
  pub stat_pos : 0 < headers.sizeof_stat
  pub statx_pos : 0 < headers.sizeof_statx

module _ (headers : KernelHeaders) (c : Call) (ret : ℕ) (state : SyscallData) (h : IsHelper c) where
  pub take_string-IsWellFormed :
      (i : ℕ) (e : Event) → IsWellFormed e → IsWellFormed (take_string headers c ret state i e)
  unfolding take_string
  take_string-IsWellFormed i e w =
      set_arg_type-IsWellFormed i _ _ (append_var_string-IsWellFormed c i _ e w h)

  take_bytes-IsWellFormed :
      (i size : ℕ) (e : Event)
      → 0 < size
      → IsWellFormed e
      → IsWellFormed (take_bytes headers c ret state i size e)
  unfolding take_bytes
  take_bytes-IsWellFormed i size e pos w =
      set_arg_type-IsWellFormed i _ _ (append_var_bytes-IsWellFormed c i _ e w size (inr pos))

  capture_open-IsWellFormed :
      (e : Event) → IsWellFormed e → IsWellFormed (capture_open headers c ret state e)
  unfolding capture_open
  capture_open-IsWellFormed e w =
      let string = take_string-IsWellFormed in
      when-IsWellFormed _ _ _ (string 0) (
        when-IsWellFormed _ _ _ (string 1)
          (when-IsWellFormed _ _ _ (string 1) (when-IsWellFormed _ _ _ (string 0) w)))

  capture_stat-IsWellFormed :
      (e : Event)
      → IsHeaders headers
      → IsWellFormed e
      → IsWellFormed (capture_stat headers c ret state e)
  unfolding capture_stat
  capture_stat-IsWellFormed e k w =
      let stat =
        λ (i : ℕ) (x : Event). take_bytes-IsWellFormed i headers.sizeof_stat x k.stat_pos in
      when-IsWellFormed _ _ _ (λ x. take_bytes-IsWellFormed 4 headers.sizeof_statx x k.statx_pos)
        (when-IsWellFormed _ _ _ (stat 2)
          (when-IsWellFormed _ _ _ (stat 1) (when-IsWellFormed _ _ _ (stat 1) w)))

  capture_paths-IsWellFormed :
      (e : Event) → IsWellFormed e → IsWellFormed (capture_paths headers c ret state e)
  unfolding capture_paths
  capture_paths-IsWellFormed e w =
      let string = take_string-IsWellFormed in
      when-IsWellFormed _ _ _ (λ x v. string 3 _ (string 1 x v))
        (when-IsWellFormed _ _ _ (string 1) (
          when-IsWellFormed _ _ _ (λ x v. string 1 _ (string 0 x v))
            (when-IsWellFormed _ _ _ (string 0) w)))

  capture_data-IsWellFormed :
      (e : Event)
      → (state.syscall_id ≡ nr_write → e.var_count ≡ 0)
      → (state.syscall_id ≡ nr_read → e.var_count ≡ 0)
      → IsWellFormed e
      → IsWellFormed (capture_data headers c ret state e)
  unfolding capture_data
  capture_data-IsWellFormed e write_first read_first w =
      when_given _ _ _
        (λ read. append_var_bytes-IsWellFormed c 1 _ _ written ret (inl (untouched (is_read read))))
        written
    where
      writes : Event → Event
      writes = append_var_bytes c 1 (get_or state.args 1 0) (get_or state.args 2 0)

      written : IsWellFormed (when (state.syscall_id == nr_write) writes e)
      written =
          when_given _ _ _
            (λ write.
              append_var_bytes-IsWellFormed c 1 _ e w _
                (inl (write_first ((==_iff _ nr_write).0 write))))
            w

      is_read :
          (state.syscall_id == nr_read && not (is_negative ret)) ≡ true → state.syscall_id ≡ nr_read
      is_read both = (==_iff _ nr_read).0 (&&-left _ _ both)

      no_write : state.syscall_id ≡ nr_read → when (state.syscall_id == nr_write) writes e ≡ e
      no_write read = rw read (unfold when in refl)

      untouched :
          state.syscall_id ≡ nr_read → (when (state.syscall_id == nr_write) writes e).var_count ≡ 0
      untouched read = ap (λ (x : Event). x.var_count) (no_write read) ∙ read_first read

  -- Before the data of a read or a write nothing has been captured.
  quiet :
      (e : Event) (snapshot : Option ExecveSnapshot)
      → (state.syscall_id ≡ nr_write) ⊎ (state.syscall_id ≡ nr_read)
      → when (state.syscall_id == nr_execve) (apply_snapshot snapshot) (
          capture_paths headers c ret state
            (capture_stat headers c ret state (capture_open headers c ret state e)))
        ≡ e
  unfolding capture_open capture_stat capture_paths when
  quiet e snapshot (inl write) = rw write refl
  quiet e snapshot (inr read) = rw read refl

  pub capture-IsWellFormed :
      (snapshot : Option ExecveSnapshot) (e : Event)
      → IsHeaders headers
      → AllSnapshots snapshot
      → e.var_count ≡ 0
      → IsWellFormed e
      → IsWellFormed (capture headers c ret state snapshot e)
  unfolding capture
  capture-IsWellFormed snapshot e k snap first w =
      let paths =
        capture_paths-IsWellFormed _
          (capture_stat-IsWellFormed _ k (capture_open-IsWellFormed e w)) in
      capture_data-IsWellFormed _ (λ write. rw (quiet e snapshot (inl write)) first)
        (λ read. rw (quiet e snapshot (inr read)) first)
        (when-IsWellFormed _ _ _ (λ x v. apply_snapshot-IsWellFormed snapshot x snap v) paths)

pub start_event-IsWellFormed :
    (headers : KernelHeaders) (c : Call) (ctx : SysExitArgs) (state : SyscallData)
    → IsWellFormed (set_syscall_arg_schema state.syscall_id (start_event headers c ctx state))
      × ((set_syscall_arg_schema state.syscall_id (start_event headers c ctx state)).var_count ≡ 0)
unfolding start_event
start_event-IsWellFormed headers c ctx state = (
  record {
    payload_size = ap length same.payload ∙ length-replicate 512 0;
    desc_size = ap length same.var_desc ∙ length-replicate 6 zero_desc;
    types_size = typed.six;
    len = rw same.payload_len (omega arith);
    count = rw same.var_count (omega arith);
    fits = λ i lt. absurd (omega (arith, same.var_count));
  },
  same.var_count,
)
  where
    start : Event
    start = start_event headers c ctx state

    same : SameVariable start (set_syscall_arg_schema state.syscall_id start)
    same = set_syscall_arg_schema-SameVariable state.syscall_id start

    typed : IsTyped (set_syscall_arg_schema state.syscall_id start)
    typed = set_syscall_arg_schema-IsTyped state.syscall_id start

-- For any system call, any outcome of the reads of the process's memory within the helpers'
-- documentation, and any well-formed snapshot or none, the event that trace_sys_exit fills in is
-- well formed, if the kernel's stat and statx structures are not empty.
pub exit_event-IsWellFormed :
    (headers : KernelHeaders) (c : Call) (ctx : SysExitArgs) (state : SyscallData)
    (snapshot : Option ExecveSnapshot)
    → IsHelper c
    → IsHeaders headers
    → AllSnapshots snapshot
    → IsWellFormed (exit_event headers c ctx state snapshot)
unfolding exit_event
exit_event-IsWellFormed headers c ctx state snapshot h k snap =
    let (w, first) = start_event-IsWellFormed headers c ctx state in
    capture-IsWellFormed headers c ctx.ret state h snapshot _ k snap first w
