-- ===== src/Tracer/Exit/Head.antt =====
-- The captures of trace_sys_exit touch only the variable part of an event and its argument types.
use litrace.Prelude.{
  ℕ, ◌≡◌, refl, ◌∙◌, ap, List, Bool, Option, none, some, ◌==◌, ◌&&◌, if-intro, leb, ltb,
  if◌then◌else◌, ◌+◌, ◌-◌, ◌^◌, ◌≢◌, ◌↔◌, true, not, arith, ◌⊎◌,
}
use litrace.Types.{
  Event, ExecveSnapshot, SyscallData, SysExitArgs, VarArgDesc, SyscallArgSchema, u64, is_positive,
}
use litrace.User.{Call, KernelHeaders, UserRead, fault, got}
use litrace.Capture.{push_desc, string_read, append_var_string, bytes_read, append_var_bytes}
use litrace.Clone.{is_process_clone}
use litrace.Schema.{apply_schema, set_syscall_arg_schema}
use litrace.Tracer.State.{tgid_of, tid_of}
use litrace.Tracer.Exit.Event.{
  start_event, exit_event, event_flag_process_clone, when, set_arg_type, apply_snapshot,
  take_string, take_bytes, capture_open, capture_stat, capture_paths, capture_data, capture,
}

-- The fields that are set once.
pub record Head : Type 0 where
  pub ts : ℕ
  pub dur : ℕ
  pub syscall_id : ℕ
  pub ret : ℕ
  pub args : List ℕ
  pub pid : ℕ
  pub tid : ℕ
  pub seq : ℕ
  pub arg_count : ℕ
  pub event_flags : ℕ

abbrev pub head_of : Event → Head
head_of e = record {
  ts = e.ts;
  dur = e.dur;
  syscall_id = e.syscall_id;
  ret = e.ret;
  args = e.args;
  pid = e.pid;
  tid = e.tid;
  seq = e.seq;
  arg_count = e.arg_count;
  event_flags = e.event_flags;
}

abbrev SameHead : Event → Event → Type 0
SameHead e x = head_of x ≡ head_of e

string_read-head : (r : UserRead) (d : VarArgDesc) (e : Event) → SameHead e (string_read r d e)
unfolding string_read push_desc
string_read-head (fault left) d e = refl
string_read-head (got bytes) d e = refl

append_var_string-head :
    (c : Call) (i ptr : ℕ) (e : Event) → SameHead e (append_var_string c i ptr e)
unfolding append_var_string push_desc
append_var_string-head c i ptr e =
    if-intro (SameHead e) (leb 2 e.var_count) (λ full. refl)
      λ room. if-intro (SameHead e) (ptr == 0) (λ null. refl) λ given. string_read-head _ _ e

bytes_read-head :
    (r : UserRead) (n : ℕ) (d : VarArgDesc) (e : Event) → SameHead e (bytes_read r n d e)
unfolding bytes_read push_desc
bytes_read-head (fault left) n d e = refl
bytes_read-head (got bytes) n d e = refl

append_var_bytes-head :
    (c : Call) (i ptr size : ℕ) (e : Event) → SameHead e (append_var_bytes c i ptr size e)
unfolding append_var_bytes push_desc
append_var_bytes-head c i ptr size e =
    if-intro (SameHead e) (leb 2 e.var_count) (λ full. refl)
      λ room.
        if-intro (SameHead e) (ptr == 0) (λ null. refl)
          λ given.
            if-intro (SameHead e) ((if ltb size 256 then size else 256) == 0) (λ empty. refl)
              λ some_. bytes_read-head _ _ _ e

apply_snapshot-head : (o : Option ExecveSnapshot) (e : Event) → SameHead e (apply_snapshot o e)
unfolding apply_snapshot
apply_snapshot-head none e = refl
apply_snapshot-head (some snap) e = refl

when-head :
    (b : Bool) (f : Event → Event) (e : Event)
    → ((x : Event) → SameHead x (f x))
    → SameHead e (when b f e)
unfolding when
when-head b f e keep = if-intro (SameHead e) b (λ yes_. keep e) (λ no_. refl)

module _ (headers : KernelHeaders) (c : Call) (ret : ℕ) (state : SyscallData) where
  string-head : (i : ℕ) (e : Event) → SameHead e (take_string headers c ret state i e)
  unfolding take_string set_arg_type
  string-head i e = append_var_string-head c i _ e

  bytes-head : (i size : ℕ) (e : Event) → SameHead e (take_bytes headers c ret state i size e)
  unfolding take_bytes set_arg_type
  bytes-head i size e = append_var_bytes-head c i _ size e

  capture_open-head : (e : Event) → SameHead e (capture_open headers c ret state e)
  unfolding capture_open
  capture_open-head e =
      when-head _ _ _ (string-head 0)
      ∙ when-head _ _ _ (string-head 1)
      ∙ when-head _ _ _ (string-head 1)
      ∙ when-head _ _ e (string-head 0)

  capture_stat-head : (e : Event) → SameHead e (capture_stat headers c ret state e)
  unfolding capture_stat
  capture_stat-head e =
      when-head _ _ _ (bytes-head 4 _)
      ∙ when-head _ _ _ (bytes-head 2 _)
      ∙ when-head _ _ _ (bytes-head 1 _)
      ∙ when-head _ _ e (bytes-head 1 _)

  capture_paths-head : (e : Event) → SameHead e (capture_paths headers c ret state e)
  unfolding capture_paths
  capture_paths-head e =
      when-head _ _ _ (λ x. string-head 3 _ ∙ string-head 1 x)
      ∙ when-head _ _ _ (string-head 1)
      ∙ when-head _ _ _ (λ x. string-head 1 _ ∙ string-head 0 x)
      ∙ when-head _ _ e (string-head 0)

  capture_data-head : (e : Event) → SameHead e (capture_data headers c ret state e)
  unfolding capture_data
  capture_data-head e =
      when-head _ _ _ (append_var_bytes-head c 1 _ ret)
      ∙ when-head _ _ e (append_var_bytes-head c 1 _ _)

  pub capture-head :
      (o : Option ExecveSnapshot) (e : Event) → SameHead e (capture headers c ret state o e)
  unfolding capture
  capture-head o e =
      capture_data-head _
      ∙ when-head _ _ _ (apply_snapshot-head o)
      ∙ capture_paths-head _
      ∙ capture_stat-head _
      ∙ capture_open-head e

-- What an event says of the call that it reports.
pub record Reports (headers : KernelHeaders) (c : Call) (ctx : SysExitArgs) (state : SyscallData)
    (e : Event) : Type 0 where
  pub ts : e.ts ≡ state.ts
  pub dur : e.dur ≡ u64 (c.now + 2 ^ 64 - state.ts)
  pub syscall_id : e.syscall_id ≡ state.syscall_id
  pub ret : e.ret ≡ ctx.ret
  pub args : e.args ≡ state.args
  pub pid : e.pid ≡ tgid_of c
  pub tid : e.tid ≡ tid_of c
  pub seq : e.seq ≡ state.seq
  pub flags : (e.event_flags ≡ 0) ⊎ (e.event_flags ≡ event_flag_process_clone)
  pub process_clone :
      (e.event_flags ≡ event_flag_process_clone)
      ↔ ((is_positive ctx.ret ≡ true) × (is_process_clone headers c state ≢ 0))

flag_value :
    (b : Bool)
    → ((if b then event_flag_process_clone else 0) ≡ 0)
      ⊎ ((if b then event_flag_process_clone else 0) ≡ event_flag_process_clone)
flag_value b = ground arith

apply_schema-head :
    (o : Option SyscallArgSchema) (e : Event)
    → head_of (apply_schema o e) ≡ record (head_of e) { arg_count = (apply_schema o e).arg_count }
unfolding apply_schema
apply_schema-head none e = refl
apply_schema-head (some s) e = refl

flag_test :
    (positive : Bool) (clone : ℕ)
    → ((if positive && not (clone == 0) then event_flag_process_clone else 0)
        ≡ event_flag_process_clone)
      ↔ ((positive ≡ true) × (clone ≢ 0))
flag_test positive clone = (λ e. ground arith, λ h. ground arith)

-- Every event carries the entry time, the arguments and the sequence number of the call in flight,
-- the result and the thread of the exit, the time between the two modulo 2 ^ 64, and the clone flag
-- exactly when the result is positive and the call creates a process, and no other flag.
pub exit_event-Reports :
    (headers : KernelHeaders) (c : Call) (ctx : SysExitArgs) (state : SyscallData)
    (snapshot : Option ExecveSnapshot)
    → Reports headers c ctx state (exit_event headers c ctx state snapshot)
unfolding exit_event set_syscall_arg_schema start_event
exit_event-Reports headers c ctx state snapshot = record {
  ts = ap (λ (x : Head). x.ts) same;
  dur = ap (λ (x : Head). x.dur) same;
  syscall_id = ap (λ (x : Head). x.syscall_id) same;
  ret = ap (λ (x : Head). x.ret) same;
  args = ap (λ (x : Head). x.args) same;
  pid = ap (λ (x : Head). x.pid) same;
  tid = ap (λ (x : Head). x.tid) same;
  seq = ap (λ (x : Head). x.seq) same;
  flags =
      rw (ap (λ (x : Head). x.event_flags) same)
        (flag_value (is_positive ctx.ret && not (is_process_clone headers c state == 0)));
  process_clone =
      rw (ap (λ (x : Head). x.event_flags) same)
        (flag_test (is_positive ctx.ret) (is_process_clone headers c state));
}
  where
    typed : Event
    typed = set_syscall_arg_schema state.syscall_id (start_event headers c ctx state)

    same :
        head_of (exit_event headers c ctx state snapshot)
        ≡ record (head_of (start_event headers c ctx state)) { arg_count = typed.arg_count }
    same =
        capture-head headers c ctx.ret state snapshot typed
        ∙ apply_schema-head _ (start_event headers c ctx state)
