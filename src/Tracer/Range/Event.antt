-- ===== src/Tracer/Range/Event.antt =====
-- The whole event, with the fields that are set at the start.
use litrace.Prelude.{
  ℕ, ◌<◌, ◌≡◌, ◌^◌, arith, refl, sym, ap, ◌∙◌, List, [], ◌∷◌, Bool, true, Option, some, ◌==◌, ◌&&◌,
  ltb, length, Option-cases, Bool-cases, inl, inr,
}
use mathlib.Core.Path.{subst}
use litrace.Types.{Event, SyscallData, SysExitArgs, ExecveSnapshot, SyscallArgSchema, zero_desc}
use litrace.User.{Call, KernelHeaders}
use litrace.Capture.Bounds.{IsWellFormed}
use litrace.Schema.{syscall_schemas, find_schema, apply_schema, set_syscall_arg_schema}
use litrace.Schema.Table.{set_syscall_arg_schema-SameVariable, set_syscall_arg_schema-IsTyped}
use litrace.Tracer.Exit.Event.{start_event, exit_event}
use litrace.Tracer.Exit.Head.{exit_event-Reports}
use litrace.Decode.Reads.{All, InDesc}
use litrace.Decode.Roundtrip.{InRange}
use litrace.Tracer.Range.{IsByte, IsMachine, replicate-All, zero_desc-InDesc}
use litrace.Tracer.Range.Snapshot.{SnapshotInRange}
use litrace.Tracer.Range.Capture.{Captured, capture-Captured}

-- The types in the table are bytes.
bytes_only : List ℕ → Bool
bytes_only [] = true
bytes_only (t ∷ ts) = ltb t 256 && bytes_only ts

byte_rows : List SyscallArgSchema → Bool
byte_rows [] = true
byte_rows (s ∷ rest) = bytes_only s.arg_types && byte_rows rest

table_bytes : byte_rows syscall_schemas ≡ true
unfolding byte_rows bytes_only syscall_schemas
table_bytes = refl

bytes_only_sound : (ts : List ℕ) → bytes_only ts ≡ true → All IsByte ts
unfolding bytes_only All
bytes_only_sound [] h = tt
bytes_only_sound (t ∷ ts) h = (ground arith, bytes_only_sound ts (ground arith))

find_schema-bytes :
    (id : ℕ) (t : List SyscallArgSchema) (s : SyscallArgSchema)
    → byte_rows t ≡ true
    → find_schema id t ≡ some s
    → bytes_only s.arg_types ≡ true
unfolding byte_rows find_schema
find_schema-bytes id [] s rows found = cc
find_schema-bytes id (r ∷ rest) s rows found = elim (Bool-cases (r.syscall_id == id)) [
  | inl same ↦
      let r-eq-s : r ≡ s = ground arith in
      subst (λ x. bytes_only x.arg_types ≡ true) r-eq-s (ground arith)
  | inr other ↦ find_schema-bytes id rest s (ground arith) (ground arith)
]

set_syscall_arg_schema-bytes :
    (id : ℕ) (e : Event) → All IsByte (set_syscall_arg_schema id e).arg_types
unfolding set_syscall_arg_schema apply_schema All
set_syscall_arg_schema-bytes id e = elim (Option-cases (find_schema id syscall_schemas)) [
  | inl absent ↦ rw absent (omega arith)
  | inr (s, found) ↦
      rw found
        (bytes_only_sound s.arg_types (find_schema-bytes id syscall_schemas s table_bytes found))
]

start_event-Captured :
    (headers : KernelHeaders) (c : Call) (ctx : SysExitArgs) (state : SyscallData)
    → Captured (set_syscall_arg_schema state.syscall_id (start_event headers c ctx state))
unfolding start_event
start_event-Captured headers c ctx state =
    let e = start_event headers c ctx state in
    let same = set_syscall_arg_schema-SameVariable state.syscall_id e in
    let typed = set_syscall_arg_schema-IsTyped state.syscall_id e in
    record {
      payload = subst (All IsByte) (sym same.payload) (replicate-All IsByte 512 0 (omega arith));
      var_desc =
          subst (All InDesc) (sym same.var_desc)
            (replicate-All InDesc 6 zero_desc zero_desc-InDesc);
      arg_types = set_syscall_arg_schema-bytes state.syscall_id e;
      len = rw same.payload_len (omega arith);
      var_count = rw same.var_count (omega arith);
      arg_count = omega (arith, typed.count);
    }

-- What a system call in flight holds is in the ranges of its types.
pub record StateInRange (state : SyscallData) : Type 0 where
  pub ts : state.ts < 2 ^ 64
  pub syscall_id : state.syscall_id < 2 ^ 64
  pub args : All (λ x. x < 2 ^ 64) state.args
  pub args_size : length state.args ≡ 6
  pub seq : state.seq < 2 ^ 32

pub exit_event-InRange :
    (headers : KernelHeaders) (c : Call) (ctx : SysExitArgs) (state : SyscallData)
    (snapshot : Option ExecveSnapshot)
    → IsMachine c
    → ctx.ret < 2 ^ 64
    → StateInRange state
    → ((snap : ExecveSnapshot) → snapshot ≡ some snap → SnapshotInRange snap)
    → IsWellFormed (exit_event headers c ctx state snapshot)
    → InRange (exit_event headers c ctx state snapshot)
exit_event-InRange headers c ctx state snapshot m ret k ok w =
    let e = exit_event headers c ctx state snapshot in
    let r = exit_event-Reports headers c ctx state snapshot in
    let v : Captured e =
      unfold exit_event in
      capture-Captured headers c m ctx.ret state snapshot _ ok
        (start_event-Captured headers c ctx state) in
    record {
      ts = rw r.ts k.ts;
      dur = rw r.dur (omega arith);
      syscall_id = rw r.syscall_id k.syscall_id;
      ret = rw r.ret ret;
      pid = rw r.pid (omega arith);
      tid = rw r.tid (omega arith);
      seq = rw r.seq k.seq;
      payload_len = v.len;
      arg_count = v.arg_count;
      var_count = v.var_count;
      event_flags = elim r.flags [ inl zero_ ↦ omega arith | inr one ↦ omega arith ];
      args = subst (All (λ x. x < 2 ^ 64)) (sym r.args) k.args;
      var_desc = v.var_desc;
      payload = v.payload;
      arg_types = v.arg_types;
      args_size = ap length r.args ∙ k.args_size;
      var_desc_size = w.desc_size;
      payload_size = w.payload_size;
      arg_types_size = w.types_size;
    }
