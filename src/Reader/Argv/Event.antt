-- ===== src/Reader/Argv/Event.antt =====
-- The snapshot of an execve in the event of trace_sys_exit, and what the reader finds there.
use litrace.Prelude.{
  ℕ, zero, suc, ◌+◌, ◌≡◌, ◌≤◌, refl, ◌∙◌, ap, arith, List, [], ◌∷◌, Option, some, length,
  length-write_at, write_at, window, set, get_or,
}
use litrace.Types.{Event, ExecveSnapshot, SyscallData, SysExitArgs, VarArgDesc, zero_desc}
use litrace.Syscalls.{nr_execve}
use litrace.User.{Call, KernelHeaders}
use litrace.Capture.{new_desc}
use litrace.Capture.Bounds.{IsWellFormed}
use litrace.Execve.{zero_snapshot, take_snapshot}
use litrace.Schema.{set_syscall_arg_schema}
use litrace.Tracer.Exit.Event.{
  start_event, exit_event, when, apply_snapshot, capture, capture_open, capture_stat, capture_paths,
  capture_data,
}
use litrace.Tracer.Exit.WellFormed.{start_event-IsWellFormed}
use litrace.Reader.{find_desc, find_var_arg_desc, var_payload_slice, event_trace_path_at}
use litrace.Reader.Strings.{slice_below, found_slice}
use litrace.Reader.Argv.{block, argv_parts, AllZeroFree, argv_parts-block}
use litrace.Reader.Argv.Execve.{Captured, Program, take_snapshot-Captured}

-- What was written to the front of a buffer is read back, any part of it.
window-write_at_front :
    (xs : List ℕ) (s n : ℕ) (ys : List ℕ)
    → s + n ≤ length ys
    → length ys ≤ length xs
    → window s n (write_at xs 0 ys) ≡ window s n ys
unfolding write_at
window-write_at_front [] zero zero ys h k = refl
window-write_at_front [] s n [] h k = refl
window-write_at_front [] s n (y ∷ ys) h k = absurd (omega arith)
window-write_at_front (x ∷ xs) zero zero ys h k = refl
window-write_at_front (x ∷ xs) zero (suc n) [] h k = absurd (omega arith)
window-write_at_front (x ∷ xs) (suc s) n [] h k = absurd (omega arith)
window-write_at_front (x ∷ xs) zero (suc n) (y ∷ ys) h k =
    ap (λ t. y ∷ t) (window-write_at_front xs zero n ys (omega arith) (omega arith))
window-write_at_front (x ∷ xs) (suc s) n (y ∷ ys) h k =
    window-write_at_front xs s n ys (omega arith) (omega arith)

-- What the reader finds: the path, and bytes that come apart into the arguments.
pub record Executes (e : Event) (p : List ℕ) (ss : List (List ℕ)) : Type 0 where
  pub path : event_trace_path_at e 0 ≡ some p
  pub desc : VarArgDesc
  pub found : find_var_arg_desc e 1 ≡ some desc
  pub clean : desc.flags ≡ 0
  pub bytes : List ℕ
  pub slice : var_payload_slice e desc ≡ some bytes
  pub parts : argv_parts bytes ≡ ss

capture-execve :
    (headers : KernelHeaders) (c : Call) (ret : ℕ) (state : SyscallData)
    (snapshot : Option ExecveSnapshot) (e : Event)
    → state.syscall_id ≡ nr_execve
    → capture headers c ret state snapshot e ≡ apply_snapshot snapshot e
unfolding capture capture_open capture_stat capture_paths capture_data when
capture-execve headers c ret state snapshot e same = rw same refl

find_desc-first :
    (ds : List VarArgDesc) (x y : VarArgDesc)
    → 2 ≤ length ds
    → x.arg_index ≡ 0
    → find_desc 0 2 (set (set ds 0 x) 1 y) ≡ some x
unfolding find_desc
find_desc-first [] x y two zeroth = absurd (omega arith)
find_desc-first (a ∷ ds) x y two zeroth = ground arith

find_desc-second :
    (ds : List VarArgDesc) (x y : VarArgDesc)
    → 2 ≤ length ds
    → x.arg_index ≡ 0
    → y.arg_index ≡ 1
    → find_desc 1 2 (set (set ds 0 x) 1 y) ≡ some y
unfolding find_desc
find_desc-second [] x y two zeroth first = absurd (omega arith)
find_desc-second (a ∷ []) x y two zeroth first = absurd (omega arith)
find_desc-second (a ∷ b ∷ ds) x y two zeroth first = ground arith

module _ (e : Event) (snap : ExecveSnapshot) (p : List ℕ) (ss : List (List ℕ)) (w : IsWellFormed e)
    (k : Captured snap p ss) where
  abbrev applied : Event
  applied = apply_snapshot (some snap) e

  abbrev d0 : VarArgDesc
  d0 = record (new_desc 0 0) { length = length p }

  abbrev d1 : VarArgDesc
  d1 = record (new_desc 1 (length p)) { length = length (block ss) }

  applied-first : find_var_arg_desc applied 0 ≡ some d0
  unfolding find_var_arg_desc apply_snapshot
  applied-first =
      ap
        (λ n. find_desc 0 n (
          set (set e.var_desc 0 (get_or snap.var_desc 0 zero_desc)) 1
            (get_or snap.var_desc 1 zero_desc)))
        k.count
      ∙ find_desc-first e.var_desc _ _ (omega (arith, w.desc_size))
          (ap (λ (d : VarArgDesc). d.arg_index) k.first)
      ∙ ap some k.first

  applied-second : find_var_arg_desc applied 1 ≡ some d1
  unfolding find_var_arg_desc apply_snapshot
  applied-second =
      ap
        (λ n. find_desc 1 n (
          set (set e.var_desc 0 (get_or snap.var_desc 0 zero_desc)) 1
            (get_or snap.var_desc 1 zero_desc)))
        k.count
      ∙ find_desc-second e.var_desc _ _ (omega (arith, w.desc_size))
          (ap (λ (d : VarArgDesc). d.arg_index) k.first)
          (ap (λ (d : VarArgDesc). d.arg_index) k.second)
      ∙ ap some k.second

  applied-slice :
      (d : VarArgDesc)
      → d.offset + d.length ≤ length p + length (block ss)
      → var_payload_slice applied d ≡ some (window d.offset d.length snap.payload)
  unfolding apply_snapshot
  applied-slice d inside =
      slice_below applied d (omega (arith, k.len))
        (omega (arith, k.len, k.room, w.payload_size, length-write_at e.payload 0 snap.payload))
      ∙ ap some (
          window-write_at_front e.payload d.offset d.length snap.payload
            (omega (arith, k.size, k.room)) (omega (arith, k.size, w.payload_size)))

  applied-Executes : AllZeroFree ss → Executes applied p ss
  applied-Executes free = record {
    path =
        found_slice applied 0 d0 applied-first refl
        ∙ applied-slice d0 (omega arith)
        ∙ ap some k.path_bytes;
    desc = d1;
    found = applied-second;
    clean = refl;
    bytes = block ss;
    slice = applied-slice d1 (omega arith) ∙ ap some k.argv_bytes;
    parts = argv_parts-block ss free;
  }

-- For an execve whose path is given, readable and shorter than 127 bytes, and whose argv is given, at
-- most eight readable strings and a null pointer, where each string holds no zero byte, is shorter
-- than 127 bytes, and starts while at least 128 of the 256 bytes of the snapshot's payload are free,
-- the path and the strings before it taken off: from the snapshot that trace_sys_enter takes at the
-- entry, trace_sys_exit makes an event in which the reader finds exactly this path, and an unflagged
-- second argument whose bytes formatVarArgv takes apart into exactly these strings.
pub exit_event-Executes :
    (headers : KernelHeaders) (c d : Call) (ctx : SysExitArgs) (state : SyscallData) (path argv : ℕ)
    (p : List ℕ) (ss : List (List ℕ))
    → state.syscall_id ≡ nr_execve
    → Program c path argv p ss
    → AllZeroFree ss
    → Executes
        (exit_event headers d ctx state (some (take_snapshot c path argv zero_snapshot)))
        p
        ss
unfolding exit_event
exit_event-Executes headers c d ctx state path argv p ss same g free =
    let (w, _) = start_event-IsWellFormed headers d ctx state in
    let e = set_syscall_arg_schema state.syscall_id (start_event headers d ctx state) in
    rw
      (capture-execve headers d ctx.ret state (some (take_snapshot c path argv zero_snapshot)) e
        same)
      (applied-Executes e (take_snapshot c path argv zero_snapshot) p ss w
        (take_snapshot-Captured c path argv p ss g) free)
