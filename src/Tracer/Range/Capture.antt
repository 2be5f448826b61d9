-- ===== src/Tracer/Range/Capture.antt =====
-- The event that trace_sys_exit fills in is in the ranges of its types.
use litrace.Prelude.{
  ℕ, ◌<◌, ◌≡◌, ◌^◌, arith, refl, List, Bool, Option, none, some, ◌==◌, ltb, leb, if◌then◌else◌,
  if-intro, write_at,
}
use litrace.Types.{Event, VarArgDesc, SyscallData, ExecveSnapshot, zero_desc}
use litrace.User.{Call, UserRead, fault, got, KernelHeaders}
use litrace.Capture.{
  new_desc, push_desc, string_read, append_var_string, bytes_read, append_var_bytes, slot_offset,
}
use litrace.Tracer.Exit.Event.{
  when, set_arg_type, apply_snapshot, take_string, take_bytes, capture_open, capture_stat,
  capture_paths, capture_data, capture,
}
use litrace.Decode.Reads.{All, Fits, InDesc}
use litrace.Tracer.Range.{
  IsByte, ReadsBytes, IsMachine, set-All, get_or-All, write_at-All, bit_or_two, zero_desc-InDesc,
  desc-InDesc,
}
use litrace.Tracer.Range.Snapshot.{SnapshotInRange}

-- What the captures change, in the ranges of its types.
pub record Captured (e : Event) : Type 0 where
  pub payload : All IsByte e.payload
  pub var_desc : All InDesc e.var_desc
  pub arg_types : All IsByte e.arg_types
  pub len : e.payload_len < 2 ^ 16
  pub var_count : e.var_count < 2 ^ 8
  pub arg_count : e.arg_count < 2 ^ 8

push_desc-Captured : (d : VarArgDesc) (e : Event) → InDesc d → Captured e → Captured (push_desc d e)
unfolding push_desc
push_desc-Captured d e i k = record {
  payload = k.payload;
  var_desc = set-All InDesc e.var_desc e.var_count d k.var_desc i;
  arg_types = k.arg_types;
  len = k.len;
  var_count = omega arith;
  arg_count = k.arg_count;
}

written-Captured :
    (e : Event) (offset n : ℕ) (bytes : List ℕ)
    → All IsByte bytes
    → n < 2 ^ 16
    → Captured e
    → Captured (record e { payload = write_at e.payload offset bytes; payload_len = n })
written-Captured e offset n bytes bytes_ lt k = record {
  payload = write_at-All e.payload offset bytes k.payload bytes_;
  var_desc = k.var_desc;
  arg_types = k.arg_types;
  len = lt;
  var_count = k.var_count;
  arg_count = k.arg_count;
}

module _ (c : Call) (m : IsMachine c) (arg_index : ℕ) (small : arg_index < 2 ^ 8) where
  flagged :
      (e : Event) (slot flags : ℕ)
      → flags < 8
      → Captured e
      → Captured (push_desc (record (new_desc arg_index (slot_offset slot)) { flags = flags }) e)
  flagged e slot flags lt k =
      push_desc-Captured _ e (desc-InDesc arg_index flags _ 0 small lt (ground arith) (omega arith))
        k

  string_read-Captured :
      (r : UserRead) (e : Event) (slot : ℕ)
      → ReadsBytes r
      → Captured e
      → Captured (string_read r (new_desc arg_index (slot_offset slot)) e)
  unfolding string_read
  string_read-Captured (fault left) e slot bytes_ k =
      flagged _ slot 2 (omega arith)
        (written-Captured e (slot_offset slot) e.payload_len left bytes_ k.len k)
  string_read-Captured (got bytes) e slot bytes_ k =
      push_desc-Captured _ _
        (desc-InDesc arg_index _ _ _ small (ground arith) (ground arith) (ground arith))
        (written-Captured e (slot_offset slot) _ bytes bytes_ (ground (arith, k.len)) k)

  append_var_string-Captured :
      (ptr : ℕ) (e : Event) → Captured e → Captured (append_var_string c arg_index ptr e)
  unfolding append_var_string
  append_var_string-Captured ptr e k =
      if-intro Captured (leb 2 e.var_count) (λ full. k)
        λ room.
          if-intro Captured (ptr == 0) (λ null. flagged e e.var_count 4 (omega arith) k)
            (λ given. string_read-Captured _ e e.var_count (m.read_user_str 256 ptr) k)

  bytes_read-Captured :
      (r : UserRead) (n flags : ℕ) (e : Event) (slot : ℕ)
      → ReadsBytes r
      → flags < 8
      → Captured e
      → Captured
          (bytes_read r n (record (new_desc arg_index (slot_offset slot)) { flags = flags }) e)
  unfolding bytes_read
  bytes_read-Captured (fault left) n flags e slot bytes_ f k =
      push_desc-Captured _ _
        (desc-InDesc arg_index _ _ 0 small (bit_or_two flags f) (ground arith) (omega arith))
        (written-Captured e (slot_offset slot) e.payload_len left bytes_ k.len k)
  bytes_read-Captured (got bytes) n flags e slot bytes_ f k =
      push_desc-Captured _ _
        (desc-InDesc arg_index flags _ _ small (ground arith) (ground arith) (omega arith))
        (written-Captured e (slot_offset slot) _ bytes bytes_ (ground (arith, k.len)) k)

  append_var_bytes-Captured :
      (ptr size : ℕ) (e : Event) → Captured e → Captured (append_var_bytes c arg_index ptr size e)
  unfolding append_var_bytes
  append_var_bytes-Captured ptr size e k =
      let n = if ltb size 256 then size else 256 in
      let flags : ℕ = if ltb size 256 then 0 else if ltb 256 size then 1 else 0 in
      let two : flags < 8 = ground arith in
      if-intro Captured (leb 2 e.var_count) (λ full. k)
        λ room.
          if-intro Captured (ptr == 0) (λ null. flagged e e.var_count 4 (omega arith) k)
            λ given.
              if-intro Captured (n == 0) (λ empty. flagged e e.var_count flags two k)
                (λ some_. bytes_read-Captured _ n flags e e.var_count (m.read_user n ptr) two k)

set_arg_type-Captured :
    (i kind : ℕ) (e : Event) → kind < 2 ^ 8 → Captured e → Captured (set_arg_type i kind e)
unfolding set_arg_type
set_arg_type-Captured i kind e lt k = record {
  payload = k.payload;
  var_desc = k.var_desc;
  arg_types = set-All IsByte e.arg_types i kind k.arg_types lt;
  len = k.len;
  var_count = k.var_count;
  arg_count = k.arg_count;
}

when-Captured :
    (b : Bool) (f : Event → Event) (e : Event)
    → ((x : Event) → Captured x → Captured (f x))
    → Captured e
    → Captured (when b f e)
unfolding when
when-Captured b f e keep k = if-intro Captured b (λ on. keep e k) (λ off. k)

-- The descriptor of an argument that was not captured.
failed-InDesc :
    (d : VarArgDesc) (i : ℕ) → InDesc d → i < 2 → InDesc (record d { arg_index = i; flags = 2 })
unfolding Fits
failed-InDesc d i k lt = record {
  arg_index = omega arith;
  flags = omega arith;
  offset = k.offset;
  length = k.length;
  reserved = k.reserved;
}

apply_snapshot-Captured :
    (snapshot : Option ExecveSnapshot) (e : Event)
    → ((snap : ExecveSnapshot) → snapshot ≡ some snap → SnapshotInRange snap)
    → Captured e
    → Captured (apply_snapshot snapshot e)
unfolding apply_snapshot
apply_snapshot-Captured (some snap) e ok k =
    let s = ok snap refl in
    let first = get_or-All InDesc snap.var_desc 0 zero_desc s.var_desc zero_desc-InDesc in
    let second = get_or-All InDesc snap.var_desc 1 zero_desc s.var_desc zero_desc-InDesc in
    record {
      payload = write_at-All e.payload 0 snap.payload k.payload s.payload;
      var_desc = set-All InDesc _ 1 _ (set-All InDesc e.var_desc 0 _ k.var_desc first) second;
      arg_types = k.arg_types;
      len = s.len;
      var_count = s.count;
      arg_count = k.arg_count;
    }
apply_snapshot-Captured none e ok k =
    let d0 = get_or-All InDesc e.var_desc 0 zero_desc k.var_desc zero_desc-InDesc in
    let d1 = get_or-All InDesc e.var_desc 1 zero_desc k.var_desc zero_desc-InDesc in
    record {
      payload = k.payload;
      var_desc =
          set-All InDesc _ 1 _
            (set-All InDesc e.var_desc 0 _ k.var_desc (failed-InDesc _ 0 d0 (omega arith)))
            (failed-InDesc _ 1 d1 (omega arith));
      arg_types = k.arg_types;
      len = k.len;
      var_count = omega arith;
      arg_count = k.arg_count;
    }

module _ (headers : KernelHeaders) (c : Call) (m : IsMachine c) (ret : ℕ)
    (state : SyscallData) where
  take_string-Captured :
      (i : ℕ)
      → i < 2 ^ 8
      → (e : Event) → Captured e
      → Captured (take_string headers c ret state i e)
  unfolding take_string
  take_string-Captured i lt e k =
      set_arg_type-Captured i 1 _ (omega arith) (append_var_string-Captured c m i lt _ e k)

  take_bytes-Captured :
      (i size : ℕ)
      → i < 2 ^ 8
      → (e : Event) → Captured e
      → Captured (take_bytes headers c ret state i size e)
  unfolding take_bytes
  take_bytes-Captured i size lt e k =
      set_arg_type-Captured i 2 _ (omega arith) (append_var_bytes-Captured c m i lt _ size e k)

  strings-Captured :
      (i j : ℕ)
      → i < 2 ^ 8
      → j < 2 ^ 8
      → (e : Event) → Captured e
      → Captured (take_string headers c ret state j (take_string headers c ret state i e))
  strings-Captured i j li lj e k = take_string-Captured j lj _ (take_string-Captured i li e k)

  capture_open-Captured : (e : Event) → Captured e → Captured (capture_open headers c ret state e)
  unfolding capture_open
  capture_open-Captured e k = when-Captured _ _ _ (take_string-Captured 0 (omega arith)) (
      when-Captured _ _ _ (take_string-Captured 1 (omega arith)) (
        when-Captured _ _ _ (take_string-Captured 1 (omega arith))
          (when-Captured _ _ e (take_string-Captured 0 (omega arith)) k)))

  capture_stat-Captured : (e : Event) → Captured e → Captured (capture_stat headers c ret state e)
  unfolding capture_stat
  capture_stat-Captured e k = when-Captured _ _ _ (take_bytes-Captured 4 _ (omega arith)) (
      when-Captured _ _ _ (take_bytes-Captured 2 _ (omega arith)) (
        when-Captured _ _ _ (take_bytes-Captured 1 _ (omega arith))
          (when-Captured _ _ e (take_bytes-Captured 1 _ (omega arith)) k)))

  capture_paths-Captured : (e : Event) → Captured e → Captured (capture_paths headers c ret state e)
  unfolding capture_paths
  capture_paths-Captured e k =
      when-Captured _ _ _ (strings-Captured 1 3 (omega arith) (omega arith)) (
        when-Captured _ _ _ (take_string-Captured 1 (omega arith)) (
          when-Captured _ _ _ (strings-Captured 0 1 (omega arith) (omega arith))
            (when-Captured _ _ e (take_string-Captured 0 (omega arith)) k)))

  capture_data-Captured : (e : Event) → Captured e → Captured (capture_data headers c ret state e)
  unfolding capture_data
  capture_data-Captured e k =
      when-Captured _ _ _ (append_var_bytes-Captured c m 1 (omega arith) _ ret)
        (when-Captured _ _ e (append_var_bytes-Captured c m 1 (omega arith) _ _) k)

  pub capture-Captured :
      (snapshot : Option ExecveSnapshot) (e : Event)
      → ((snap : ExecveSnapshot) → snapshot ≡ some snap → SnapshotInRange snap)
      → Captured e
      → Captured (capture headers c ret state snapshot e)
  unfolding capture
  capture-Captured snapshot e ok k = capture_data-Captured _ (
      when-Captured _ _ _ (λ x kx. apply_snapshot-Captured snapshot x ok kx)
        (capture_paths-Captured _ (capture_stat-Captured _ (capture_open-Captured e k))))
