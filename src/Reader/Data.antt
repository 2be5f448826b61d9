-- ===== src/Reader/Data.antt =====
-- The bytes of a read and of a write, from the process's memory to the reader.
use litrace.Prelude.{
  ℕ, suc, ◌+◌, ◌%◌, ◌≤◌, ◌<◌, ◌≡◌, ◌≢◌, ◌↔◌, refl, sym, ◌∙◌, ap, arith, List, [], ◌∷◌, false,
  Option, some, ltb, if◌then◌else◌, length, min, length-write_at, window-write_at, window, take,
  get_or, write_at,
}
use litrace.Types.{Event, SyscallData, ExecveSnapshot, SysExitArgs, VarArgDesc, is_negative}
use litrace.Syscalls.{nr_read, nr_write}
use litrace.User.{Call, KernelHeaders, got, IsHelper}
use litrace.Capture.{append_var_bytes, bytes_read, push_desc, new_desc}
use litrace.Capture.Bounds.{IsWellFormed}
use litrace.Schema.{set_syscall_arg_schema}
use litrace.Tracer.Exit.Event.{
  start_event, exit_event, when, capture, capture_open, capture_stat, capture_paths, capture_data,
}
use litrace.Tracer.Exit.WellFormed.{start_event-IsWellFormed}
use litrace.Reader.{find_var_arg_desc, var_payload_slice}
use litrace.Reader.Slices.{find_desc-set_new}
use litrace.Reader.Strings.{slice_below, find_var_arg_desc-zero}

-- The process holds `bytes` at `ptr`, the first 256 of `size` or fewer.
pub data Holds (c : Call) (ptr size : ℕ) : List ℕ → Type 0 where
  empty : size ≡ 0 → Holds c ptr size []
  bytes : {bs : List ℕ} → 0 < size → c.read_user (min size 256) ptr ≡ got bs → Holds c ptr size bs

-- The reader finds `bytes` for the argument `idx`, marked as truncated exactly if `size` is more
-- than a slot.
pub record Shows (e : Event) (idx size : ℕ) (bytes : List ℕ) : Type 0 where
  pub desc : VarArgDesc
  pub found : find_var_arg_desc e idx ≡ some desc
  pub slice : var_payload_slice e desc ≡ some bytes
  pub clean : desc.flags ≤ 1
  pub truncated : (desc.flags ≡ 1) ↔ (256 < size)

take_all : (xs : List ℕ) → take (length xs) xs ≡ xs
take_all [] = refl
take_all (x ∷ xs) = ap (λ t. x ∷ t) (take_all xs)

module _ (c : Call) (idx ptr size : ℕ) (e : Event) (w : IsWellFormed e)
    (first : e.var_count ≡ 0) where
  abbrev cut_flags : ℕ
  cut_flags = if ltb size 256 then 0 else if ltb 256 size then 1 else 0

  abbrev pushed : ℕ → List ℕ → ℕ → Event
  pushed flags payload n =
      push_desc (record (new_desc idx 0) { flags = flags; length = min size 256 })
        (record e { payload = payload; payload_len = n })

  pushed-found :
      (flags : ℕ) (payload : List ℕ) (n : ℕ)
      → find_var_arg_desc (pushed flags payload n) idx
        ≡ some (record (new_desc idx 0) { flags = flags; length = min size 256 })
  unfolding find_var_arg_desc push_desc
  pushed-found flags payload n =
      let counted : (e.var_count + 1) % 256 ≡ suc e.var_count = omega arith in
      rw counted (
        find_desc-set_new idx e.var_count e.var_desc _ (omega (arith, w.desc_size)) refl
          (find_var_arg_desc-zero e idx first))

  pushed-Shows :
      (payload : List ℕ) (n : ℕ) (bs : List ℕ)
      → length payload ≡ 512
      → min size 256 ≤ n
      → n ≤ 512
      → window 0 (min size 256) payload ≡ bs
      → Shows (pushed cut_flags payload n) idx size bs
  unfolding push_desc
  pushed-Shows payload n bs size_ below small same = record {
    desc = record (new_desc idx 0) { flags = cut_flags; length = min size 256 };
    found = pushed-found cut_flags payload n;
    slice =
        slice_below (pushed cut_flags payload n) _ (omega arith) (omega (arith, size_))
        ∙ ap some same;
    clean = ground arith;
    truncated = (λ h. ground arith, λ h. ground arith);
  }

  append_var_bytes-empty :
      ptr ≢ 0
      → size ≡ 0
      → append_var_bytes c idx ptr size e ≡ pushed cut_flags e.payload e.payload_len
  unfolding append_var_bytes push_desc
  append_var_bytes-empty given none_ = ground arith

  append_var_bytes-read :
      (bs : List ℕ)
      → ptr ≢ 0
      → 0 < size
      → c.read_user (min size 256) ptr ≡ got bs
      → append_var_bytes c idx ptr size e
        ≡ pushed cut_flags
            (write_at e.payload 0 bs)
            (if ltb e.payload_len (min size 256) then min size 256 else e.payload_len)
  unfolding append_var_bytes push_desc bytes_read
  append_var_bytes-read bs given pos read = ground arith

  append_var_bytes-Shows :
      (bs : List ℕ)
      → IsHelper c
      → ptr ≢ 0
      → Holds c ptr size bs
      → Shows (append_var_bytes c idx ptr size e) idx size bs
  append_var_bytes-Shows bs h given (empty none_) =
      rw (append_var_bytes-empty given none_)
        (pushed-Shows e.payload e.payload_len [] w.payload_size (omega arith) w.len (rw none_ refl))
  append_var_bytes-Shows bs h given (bytes pos read) =
      let whole = h.read_got (min size 256) ptr bs read in
      rw (append_var_bytes-read bs given pos read) (
        pushed-Shows (write_at e.payload 0 bs) _ bs
          (length-write_at e.payload 0 bs ∙ w.payload_size) (ground arith) (ground (arith, w.len))
          (window-write_at e.payload 0 (min size 256) bs (omega arith)
              (omega (arith, w.payload_size))
            ∙ ap (λ n. take n bs) (sym whole)
            ∙ take_all bs))

-- The calls whose bytes are captured, and how many: a write the number it was asked to write, even if
-- it wrote fewer or failed, a read the number it returned.
pub data Moves (state : SyscallData) (ret : ℕ) : ℕ → Type 0 where
  write : state.syscall_id ≡ nr_write → Moves state ret (get_or state.args 2 0)
  read : state.syscall_id ≡ nr_read → is_negative ret ≡ false → Moves state ret ret

capture-Moves :
    (headers : KernelHeaders) (c : Call) (ret : ℕ) (state : SyscallData)
    (snapshot : Option ExecveSnapshot) (e : Event) {size : ℕ}
    → Moves state ret size
    → capture headers c ret state snapshot e ≡ append_var_bytes c 1 (get_or state.args 1 0) size e
unfolding capture capture_open capture_stat capture_paths capture_data when
capture-Moves headers c ret state snapshot e (write same) = rw same refl
capture-Moves headers c ret state snapshot e (read same ok) = rw (same, ok) refl

-- For a write, whatever its result, the size is the number of bytes that it was asked to write; for a
-- read that did not fail it is the number that it returned. If the buffer is given and readable, the
-- event of trace_sys_exit gives the reader the first 256 bytes of the buffer, or as many as the size
-- if that is less, marked as truncated exactly if the size is more than 256.
pub exit_event-Shows :
    (headers : KernelHeaders) (c : Call) (ctx : SysExitArgs) (state : SyscallData)
    (snapshot : Option ExecveSnapshot) {size : ℕ} (bs : List ℕ)
    → IsHelper c
    → Moves state ctx.ret size
    → get_or state.args 1 0 ≢ 0
    → Holds c (get_or state.args 1 0) size bs
    → Shows (exit_event headers c ctx state snapshot) 1 size bs
unfolding exit_event
exit_event-Shows headers c ctx state snapshot {size} bs h moves given holds =
    let (w, first) = start_event-IsWellFormed headers c ctx state in
    let e = set_syscall_arg_schema state.syscall_id (start_event headers c ctx state) in
    rw (capture-Moves headers c ctx.ret state snapshot e moves)
      (append_var_bytes-Shows c 1 (get_or state.args 1 0) size e w first bs h given holds)
