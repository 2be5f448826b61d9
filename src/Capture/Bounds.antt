-- ===== src/Capture/Bounds.antt =====
-- Every descriptor that the append functions write points into the captured part of the payload.
use litrace.Prelude.{
  ℕ, ◌+◌, ◌≤◌, ◌<◌, ◌≡◌, refl, arith, length, get_or, set, length-set, get_or-set_self,
  get_or-set_ne, length-write_at, ℕ_discrete, ltb, if◌then◌else◌, ◌==◌, ◌∙◌, List, sym, ◌⊎◌, inl,
  inr, leb, if-intro,
}
use mathlib.Core.Path.{subst}
use native.Mathlib.Nat.{le_trans}
use litrace.Types.{VarArgDesc, Event, zero_desc, generic_var_slot_size}
use litrace.User.{Call, UserRead, fault, got, IsHelper}
use litrace.Argv.{ArgvCopy}
use litrace.Argv.Bounds.{Within, copy_argv-Within}
use litrace.Capture.{
  push_desc, string_read, append_var_string, bytes_read, append_var_bytes, argv_taken,
  append_var_argv, new_desc, slot_offset,
}

-- If the reader looks at the bytes of a descriptor at all (no flag but the one for a truncated value),
-- they lie below `len`.
abbrev pub Fits : ℕ → VarArgDesc → Type 0
Fits len d = d.flags ≤ 1 → d.offset + d.length ≤ len

-- An event that a reader can take apart.
pub record IsWellFormed (e : Event) : Type 0 where
  pub payload_size : length e.payload ≡ 512
  pub desc_size : length e.var_desc ≡ 6
  pub types_size : length e.arg_types ≡ 6
  pub len : e.payload_len ≤ 512
  pub count : e.var_count ≤ 6
  pub fits : (i : ℕ) → i < e.var_count → Fits e.payload_len (get_or e.var_desc i zero_desc)

-- The buffer and its length are replaced, and a descriptor that fits is added.
pub push_desc-IsWellFormed :
    (d : VarArgDesc) (e : Event) (payload : List ℕ) (n : ℕ)
    → IsWellFormed e
    → e.var_count < 6
    → length payload ≡ 512
    → e.payload_len ≤ n
    → n ≤ 512
    → Fits n d
    → IsWellFormed (push_desc d (record e { payload = payload; payload_len = n }))
unfolding push_desc
push_desc-IsWellFormed d e payload n w room size grows small fit = record {
  payload_size = size;
  desc_size = length-set e.var_desc e.var_count d ∙ w.desc_size;
  types_size = w.types_size;
  len = small;
  count = omega arith;
  fits = λ i lt. elim (ℕ_discrete e.var_count i) [
    | yes here ↦
        let found = get_or-set_self e.var_desc e.var_count d zero_desc (omega arith) in
        subst (λ j. Fits n (get_or (set e.var_desc e.var_count d) j zero_desc)) here
          (subst (Fits n) (sym found) fit)
    | no other ↦
        let found = get_or-set_ne e.var_desc e.var_count i d zero_desc other in
        subst (Fits n) (sym found) (λ r. le_trans (w.fits i (omega arith) r) grows)
  ];
}

module _ (arg_index offset : ℕ) (e : Event) (w : IsWellFormed e) (room : e.var_count < 6) where
  string_read-IsWellFormed :
      (r : UserRead)
      → offset ≤ 256
      → ((bytes : List ℕ) → r ≡ got bytes → length bytes ≤ 256)
      → IsWellFormed (string_read r (new_desc arg_index offset) e)
  unfolding string_read
  string_read-IsWellFormed (fault left) low small =
      push_desc-IsWellFormed _ e _ e.payload_len w room (length-write_at _ _ left ∙ w.payload_size)
        (omega arith) w.len (λ r. absurd (omega arith))
  string_read-IsWellFormed (got bytes) low small =
      let k = small bytes refl in
      push_desc-IsWellFormed _ e _ _ w room (length-write_at _ _ bytes ∙ w.payload_size)
        (ground arith) (ground (arith, w.len)) (λ r. ground arith)

  bytes_read-IsWellFormed :
      (r : UserRead) (to_copy flags : ℕ)
      → (flags ≡ 0) ⊎ (flags ≡ 1)
      → offset ≤ 256
      → to_copy ≤ 256
      → IsWellFormed (bytes_read r to_copy (record (new_desc arg_index offset) { flags = flags }) e)
  unfolding bytes_read
  bytes_read-IsWellFormed (fault left) to_copy flags clean low small =
      push_desc-IsWellFormed _ e _ e.payload_len w room (length-write_at _ _ left ∙ w.payload_size)
        (omega arith) w.len
        (λ r. elim clean [
          | inl none ↦ absurd (omega (arith, rw none at r))
          | inr truncated ↦ absurd (omega (arith, rw truncated at r))
        ])
  bytes_read-IsWellFormed (got bytes) to_copy flags clean low small =
      push_desc-IsWellFormed _ e _ _ w room (length-write_at _ _ bytes ∙ w.payload_size)
        (ground arith) (ground (arith, w.len)) (λ r. ground arith)

slot_offset-le : (slot : ℕ) → slot_offset slot ≤ 256
slot_offset-le slot = ground arith

abbrev size_flags : ℕ → ℕ
size_flags size = if ltb size 256 then 0 else if ltb 256 size then 1 else 0

size_flags_clean : (size : ℕ) → (size_flags size ≡ 0) ⊎ (size_flags size ≡ 1)
size_flags_clean size = ground arith

abbrev copy_size : ℕ → ℕ
copy_size size = if ltb size 256 then size else 256

module _ (c : Call) (arg_index ptr : ℕ) (e : Event) (w : IsWellFormed e) where
  null-IsWellFormed :
      (offset flags : ℕ)
      → e.var_count < 6
      → 2 ≤ flags
      → IsWellFormed (push_desc (record (new_desc arg_index offset) { flags = flags }) e)
  null-IsWellFormed offset flags room bad =
      push_desc-IsWellFormed _ e e.payload e.payload_len w room w.payload_size (omega arith) w.len
        (λ r. absurd (omega arith))

  -- A well-formed event stays well formed when append_var_string adds a string to it, whether the
  -- read succeeds, is cut short or fails within the helper's documentation, the pointer is null, or
  -- both slots are taken.
  pub append_var_string-IsWellFormed :
      IsHelper c → IsWellFormed (append_var_string c arg_index ptr e)
  unfolding append_var_string
  append_var_string-IsWellFormed h =
      if-intro IsWellFormed (leb 2 e.var_count) (λ full. w)
        λ room.
          if-intro IsWellFormed (ptr == 0)
            (λ null. null-IsWellFormed (slot_offset e.var_count) 4 (ground arith) (omega arith))
            λ given.
              string_read-IsWellFormed arg_index (slot_offset e.var_count) e w (ground arith) _
                (slot_offset-le e.var_count) (h.str_got generic_var_slot_size ptr)

  -- A well-formed event stays well formed when append_var_bytes adds a buffer of any size to it,
  -- whatever the read gives, if the buffer is the first value of the event or is not empty.
  pub append_var_bytes-IsWellFormed :
      (size : ℕ)
      → (e.var_count ≡ 0) ⊎ (0 < size)
      → IsWellFormed (append_var_bytes c arg_index ptr size e)
  unfolding append_var_bytes
  append_var_bytes-IsWellFormed size reach =
      if-intro IsWellFormed (leb 2 e.var_count) (λ full. w)
        λ room.
          if-intro IsWellFormed (ptr == 0)
            (λ null. null-IsWellFormed (slot_offset e.var_count) 4 (ground arith) (omega arith))
            λ given.
              if-intro IsWellFormed (copy_size size == 0)
                (λ empty.
                  push_desc-IsWellFormed _ e e.payload e.payload_len w (ground arith) w.payload_size
                    (omega arith) w.len (λ r. ground arith))
                λ some_.
                  bytes_read-IsWellFormed arg_index (slot_offset e.var_count) e w (ground arith) _
                    (copy_size size) (size_flags size) (size_flags_clean size)
                    (slot_offset-le e.var_count) (ground arith)

  -- A well-formed event stays well formed when append_var_argv adds an argument vector to it, for
  -- any vector and any outcome of the reads.
  pub append_var_argv-IsWellFormed : IsWellFormed (append_var_argv c arg_index ptr e)
  unfolding append_var_argv argv_taken
  append_var_argv-IsWellFormed =
      if-intro IsWellFormed (leb 6 e.var_count) (λ full. w)
        λ room.
          if-intro IsWellFormed (ptr == 0)
            (λ null. null-IsWellFormed e.payload_len 4 (ground arith) (omega arith))
            λ given.
              if-intro IsWellFormed (leb 512 e.payload_len)
                (λ no_room.
                  push_desc-IsWellFormed _ e e.payload e.payload_len w (ground arith) w.payload_size
                    (omega arith) w.len (λ r. omega arith))
                λ fits_. taken (ground arith) (
                  copy_argv-Within c e.payload_len 512 ptr (omega arith) _
                    (record { from_start = omega arith; in_limit = w.len; size = w.payload_size }))
    where
      taken :
          {a : ArgvCopy}
          → e.var_count < 6
          → Within e.payload_len 512 a
          → IsWellFormed (argv_taken e.payload_len (new_desc arg_index e.payload_len) a e)
      taken {a} room k =
          push_desc-IsWellFormed _ e a.payload _ w room k.size (ground arith)
            (ground (arith, w.len)) (λ r. ground arith)
