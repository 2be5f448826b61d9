-- ===== src/Reader/First.antt =====
-- The string in the first slot stays readable when the second slot is filled.
use mathlib.Core.Path.{subst}
use litrace.Prelude.{
  ℕ, suc, ◌+◌, ◌%◌, ◌≤◌, ◌<◌, ◌≡◌, ◌≢◌, refl, sym, ◌∙◌, ap, arith, List, [], ◌∷◌, none, some, ◌==◌,
  ltb, leb, if◌then◌else◌, length, window, write_at, length-write_at, window-write_at_before, set,
  if-intro,
}
use litrace.Types.{Event, VarArgDesc}
use litrace.User.{Call, UserRead, got, fault, IsHelper}
use litrace.Capture.{
  append_var_string, string_read, push_desc, new_desc, slot_offset, append_var_bytes, bytes_read,
}
use litrace.Capture.Bounds.{IsWellFormed, append_var_string-IsWellFormed}
use litrace.Reader.{find_desc, find_var_arg_desc}
use litrace.Reader.Slices.{find_desc-set_old}
use litrace.Reader.Strings.{
  c_string, string_desc, with_string, append_var_string-whole, append_var_string-Gives, slice_below,
  found_slice, Gives, with_string-found, with_string-below, with_string-window, with_string-count,
  find_var_arg_desc-zero,
}

-- The string is in the first slot.
pub record First (e : Event) (idx : ℕ) (s : List ℕ) : Type 0 where
  pub well_formed : IsWellFormed e
  pub one : e.var_count ≡ 1
  pub desc : VarArgDesc
  pub found : find_var_arg_desc e idx ≡ some desc
  pub clean : desc.flags ≡ 0
  pub low : desc.offset + desc.length ≤ 256
  pub below : desc.offset + desc.length ≤ e.payload_len
  pub value : window desc.offset desc.length e.payload ≡ s
  pub alone : (j : ℕ) → idx ≢ j → find_var_arg_desc e j ≡ none

pub find_desc-set_only :
    (j : ℕ) (ds : List VarArgDesc) (d : VarArgDesc)
    → d.arg_index ≢ j
    → find_desc j 1 (set ds 0 d) ≡ none
unfolding find_desc
find_desc-set_only j [] d other = refl
find_desc-set_only j (x ∷ []) d other = ground arith
find_desc-set_only j (x ∷ y ∷ ds) d other = ground arith

with_string-alone :
    (idx j : ℕ) (e : Event) (s : List ℕ)
    → e.var_count ≡ 0
    → idx ≢ j
    → find_var_arg_desc (with_string idx s e) j ≡ none
unfolding find_var_arg_desc push_desc
with_string-alone idx j e s first other =
    let counted : (e.var_count + 1) % 256 ≡ 1 = omega arith in
    let d = string_desc idx s e in
    ap (λ n. find_desc j n (set e.var_desc e.var_count d)) counted
    ∙ ap (λ n. find_desc j 1 (set e.var_desc n d)) first
    ∙ find_desc-set_only j e.var_desc d other

pub append_var_string-First :
    (c : Call) (idx ptr : ℕ) (e : Event) (s : List ℕ)
    → IsHelper c
    → IsWellFormed e
    → e.var_count ≡ 0
    → ptr ≢ 0
    → c.read_user_str 256 ptr ≡ got (c_string s)
    → length s < 255
    → First (append_var_string c idx ptr e) idx s
append_var_string-First c idx ptr e s h w first given read short =
    let whole = append_var_string-whole c idx ptr e s (omega arith) given read short in
    record {
      well_formed = append_var_string-IsWellFormed c idx ptr e w h;
      one =
          ap (λ (x : Event). x.var_count) whole
          ∙ with_string-count idx e s w (omega arith) short
          ∙ omega arith;
      desc = string_desc idx s e;
      found =
          ap (λ (x : Event). find_var_arg_desc x idx) whole
          ∙ with_string-found idx e s w (omega arith) short (find_var_arg_desc-zero e idx first);
      clean = refl;
      low = ground arith;
      below =
          subst (λ (x : Event). slot_offset e.var_count + length s ≤ x.payload_len) (sym whole)
            (with_string-below idx e s w (omega arith) short);
      value =
          ap (λ (x : Event). window (slot_offset e.var_count) (length s) x.payload) whole
          ∙ with_string-window idx e s w (omega arith) short;
      alone = λ j other.
          ap (λ (x : Event). find_var_arg_desc x j) whole ∙ with_string-alone idx j e s first other;
    }

module _ (e : Event) (idx : ℕ) (s : List ℕ) (f : First e idx s) where
  open f use {desc, found, clean, low, below, value}

  pub First-Gives : Gives e idx s
  First-Gives =
      found_slice e idx desc found clean
      ∙ slice_below e desc below (omega (arith, f.well_formed.len, f.well_formed.payload_size))
      ∙ ap some value

  push_desc-Gives :
      (d : VarArgDesc) (payload : List ℕ) (n : ℕ)
      → length payload ≡ 512
      → e.payload_len ≤ n
      → n ≤ 512
      → window desc.offset desc.length payload ≡ window desc.offset desc.length e.payload
      → Gives (push_desc d (record e { payload = payload; payload_len = n })) idx s
  unfolding push_desc find_var_arg_desc
  push_desc-Gives d payload n size grows small same =
      let counted : (e.var_count + 1) % 256 ≡ suc e.var_count = omega (arith, f.one) in
      let still =
        ap (λ k. find_desc idx k (set e.var_desc e.var_count d)) counted
        ∙ find_desc-set_old idx e.var_count e.var_desc d desc found in
      let e' = push_desc d (record e { payload = payload; payload_len = n }) in
      found_slice e' idx desc still clean
      ∙ slice_below e' desc (omega arith) (omega arith)
      ∙ ap some (same ∙ value)

  second_slot : slot_offset e.var_count ≡ 256
  second_slot = ground (arith, f.one)

  -- The payload after a write into the second slot.
  abbrev written : List ℕ → List ℕ
  written bytes = write_at e.payload (slot_offset e.var_count) bytes

  written-size : (bytes : List ℕ) → length (written bytes) ≡ 512
  written-size bytes = length-write_at e.payload _ bytes ∙ f.well_formed.payload_size

  written-window :
      (bytes : List ℕ)
      → window desc.offset desc.length (written bytes) ≡ window desc.offset desc.length e.payload
  written-window bytes =
      window-write_at_before e.payload desc.offset desc.length _ bytes (omega (arith, second_slot))

  string_read-keeps :
      (r : UserRead) (j : ℕ)
      → ((bytes : List ℕ) → r ≡ got bytes → length bytes ≤ 256)
      → Gives (string_read r (new_desc j (slot_offset e.var_count)) e) idx s
  unfolding string_read
  string_read-keeps (fault left) j small =
      push_desc-Gives _ _ e.payload_len (written-size left) (omega arith) f.well_formed.len
        (written-window left)
  string_read-keeps (got bytes) j small =
      let k = small bytes refl in
      push_desc-Gives _ _ _ (written-size bytes) (ground arith)
        (ground (arith, f.well_formed.len, second_slot)) (written-window bytes)

  bytes_read-keeps :
      (r : UserRead) (j flags to_copy : ℕ)
      → to_copy ≤ 256
      → Gives
          (bytes_read r to_copy (record (new_desc j (slot_offset e.var_count)) { flags = flags }) e)
          idx
          s
  unfolding bytes_read
  bytes_read-keeps (fault left) j flags to_copy small =
      push_desc-Gives _ _ e.payload_len (written-size left) (omega arith) f.well_formed.len
        (written-window left)
  bytes_read-keeps (got bytes) j flags to_copy small =
      push_desc-Gives _ _ _ (written-size bytes) (ground arith)
        (ground (arith, f.well_formed.len, second_slot)) (written-window bytes)

  no_read-keeps : (d : VarArgDesc) → Gives (push_desc d e) idx s
  no_read-keeps d =
      push_desc-Gives d e.payload e.payload_len f.well_formed.payload_size (omega arith)
        f.well_formed.len refl

  -- The next string, however its reading ends, does not disturb the first.
  pub append_var_string-keeps :
      (c : Call) (j ptr : ℕ) → IsHelper c → Gives (append_var_string c j ptr e) idx s
  unfolding append_var_string
  append_var_string-keeps c j ptr h =
      let P = λ (x : Event). Gives x idx s in
      if-intro P (leb 2 e.var_count) (λ full. First-Gives)
        λ room.
          if-intro P (ptr == 0) (λ null. no_read-keeps _)
            λ given. string_read-keeps (c.read_user_str 256 ptr) j (h.str_got 256 ptr)

  -- Nor do the bytes of a result.
  pub append_var_bytes-keeps :
      (c : Call) (j ptr size : ℕ) → Gives (append_var_bytes c j ptr size e) idx s
  unfolding append_var_bytes
  append_var_bytes-keeps c j ptr size =
      let P = λ (x : Event). Gives x idx s in
      let to_copy = if ltb size 256 then size else 256 in
      if-intro P (leb 2 e.var_count) (λ full. First-Gives)
        λ room.
          if-intro P (ptr == 0) (λ null. no_read-keeps _)
            λ given.
              if-intro P (to_copy == 0) (λ empty. no_read-keeps _)
                λ some_. bytes_read-keeps (c.read_user to_copy ptr) j _ to_copy (ground arith)

  -- With the first string in place a whole second one is found too.
  pub append_var_string-second :
      (c : Call) (j ptr : ℕ) (t : List ℕ)
      → idx ≢ j
      → ptr ≢ 0
      → c.read_user_str 256 ptr ≡ got (c_string t)
      → length t < 255
      → Gives (append_var_string c j ptr e) j t
  append_var_string-second c j ptr t other given read short =
      append_var_string-Gives c j ptr e t f.well_formed (omega (arith, f.one)) (f.alone j other)
        given read short
