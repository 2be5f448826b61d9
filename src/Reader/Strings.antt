-- ===== src/Reader/Strings.antt =====
-- A string that the tracer captures is the string that the reader finds.
use litrace.Prelude.{
  ℕ, suc, ◌+◌, ◌≤◌, ◌<◌, ◌≡◌, ◌≢◌, refl, ◌∙◌, ap, arith, List, [], ◌∷◌, ◌++◌, none, some, ◌==◌, ltb,
  leb, ◌%◌, if◌then◌else◌, length, window, write_at, length-append, length-write_at,
  window-write_at, take-append_length, if_false,
}
use litrace.Types.{Event, VarArgDesc}
use litrace.User.{Call, UserRead, got}
use litrace.Capture.{append_var_string, string_read, push_desc, new_desc, slot_offset}
use litrace.Capture.Bounds.{IsWellFormed}
use litrace.Reader.{find_desc, find_var_arg_desc, var_payload_slice, event_trace_path_at}
use litrace.Reader.Slices.{find_desc-set_new}

-- A C string in memory.
abbrev pub c_string : List ℕ → List ℕ
c_string s = s ++ 0 ∷ []

-- The descriptor of a whole string in the slot of the event's next descriptor.
abbrev pub string_desc : ℕ → List ℕ → Event → VarArgDesc
string_desc idx s e = record (new_desc idx (slot_offset e.var_count)) { length = length s }

-- The event after a whole string was captured.
abbrev pub with_string : ℕ → List ℕ → Event → Event
with_string idx s e =
    let off = slot_offset e.var_count in
    push_desc (string_desc idx s e) (record e {
      payload = write_at e.payload off (c_string s);
      payload_len = if ltb e.payload_len (off + length s) then off + length s else e.payload_len;
    })

read_whole :
    (idx : ℕ) (e : Event) (s : List ℕ)
    → length s < 255
    → string_read (got (c_string s)) (new_desc idx (slot_offset e.var_count)) e
      ≡ with_string idx s e
unfolding string_read
read_whole idx e s short = ground (arith, length-append s (0 ∷ []))

pub append_var_string-whole :
    (c : Call) (idx ptr : ℕ) (e : Event) (s : List ℕ)
    → e.var_count < 2
    → ptr ≢ 0
    → c.read_user_str 256 ptr ≡ got (c_string s)
    → length s < 255
    → append_var_string c idx ptr e ≡ with_string idx s e
unfolding append_var_string string_read
append_var_string-whole c idx ptr e s room given read short =
    if_false (leb 2 e.var_count) _ _ (ground arith)
    ∙ if_false (ptr == 0) _ _ (ground arith)
    ∙ ap (λ (r : UserRead). string_read r (new_desc idx (slot_offset e.var_count)) e) read
    ∙ read_whole idx e s short

-- The event `e` gives the path `s` for the argument `idx`.
abbrev pub Gives : Event → ℕ → List ℕ → Type 0
Gives e idx s = event_trace_path_at e idx ≡ some s

pub slice_below :
    (e : Event) (d : VarArgDesc)
    → d.offset + d.length ≤ e.payload_len
    → e.payload_len ≤ length e.payload
    → var_payload_slice e d ≡ some (window d.offset d.length e.payload)
unfolding var_payload_slice
slice_below e d below inside = ground arith

pub found_slice :
    (e : Event) (idx : ℕ) (d : VarArgDesc)
    → find_var_arg_desc e idx ≡ some d
    → d.flags ≡ 0
    → event_trace_path_at e idx ≡ var_payload_slice e d
unfolding event_trace_path_at
found_slice e idx d found clean = ground arith

window_whole :
    (payload : List ℕ) (off : ℕ) (s : List ℕ)
    → off + length s + 1 ≤ length payload
    → window off (length s) (write_at payload off (c_string s)) ≡ s
window_whole payload off s room =
    let size = length-append s (0 ∷ []) in
    window-write_at payload off (length s) (c_string s) (omega (arith, size)) (omega (arith, size))
    ∙ take-append_length s (0 ∷ [])

module _ (idx : ℕ) (e : Event) (s : List ℕ) (w : IsWellFormed e) (room : e.var_count < 2)
    (short : length s < 255) where
  pub with_string-found :
      find_var_arg_desc e idx ≡ none
      → find_var_arg_desc (with_string idx s e) idx ≡ some (string_desc idx s e)
  unfolding find_var_arg_desc push_desc
  with_string-found absent =
      let counted : (e.var_count + 1) % 256 ≡ suc e.var_count = omega arith in
      rw counted
        (find_desc-set_new idx e.var_count e.var_desc _ (omega (arith, w.desc_size)) refl absent)

  pub with_string-below : slot_offset e.var_count + length s ≤ (with_string idx s e).payload_len
  unfolding push_desc
  with_string-below = ground arith

  pub with_string-window :
      window (slot_offset e.var_count) (length s) (with_string idx s e).payload ≡ s
  unfolding push_desc
  with_string-window =
      window_whole e.payload (slot_offset e.var_count) s (ground (arith, w.payload_size))

  with_string-inside : (with_string idx s e).payload_len ≤ length (with_string idx s e).payload
  unfolding push_desc
  with_string-inside = ground (
    arith,
    w.len,
    w.payload_size,
    length-write_at e.payload (slot_offset e.var_count) (c_string s),
  )

  pub with_string-count : (with_string idx s e).var_count ≡ e.var_count + 1
  unfolding push_desc
  with_string-count = omega arith

  with_string-Gives : find_var_arg_desc e idx ≡ none → Gives (with_string idx s e) idx s
  with_string-Gives absent =
      found_slice (with_string idx s e) idx (string_desc idx s e) (with_string-found absent) refl
      ∙ slice_below (with_string idx s e) (string_desc idx s e) with_string-below with_string-inside
      ∙ ap some with_string-window

find_desc-zero : (idx : ℕ) (ds : List VarArgDesc) → find_desc idx 0 ds ≡ none
unfolding find_desc
find_desc-zero idx [] = refl
find_desc-zero idx (d ∷ ds) = refl

-- Nothing is found where nothing was captured.
pub find_var_arg_desc-zero :
    (e : Event) (idx : ℕ) → e.var_count ≡ 0 → find_var_arg_desc e idx ≡ none
unfolding find_var_arg_desc
find_var_arg_desc-zero e idx first =
    ap (λ n. find_desc idx n e.var_desc) first ∙ find_desc-zero idx _

-- A whole string is captured, if it is shorter than a slot less its terminating zero, the read
-- succeeds, a slot is free and the argument was not described before: the reader finds it.
pub append_var_string-Gives :
    (c : Call) (idx ptr : ℕ) (e : Event) (s : List ℕ)
    → IsWellFormed e
    → e.var_count < 2
    → find_var_arg_desc e idx ≡ none
    → ptr ≢ 0
    → c.read_user_str 256 ptr ≡ got (c_string s)
    → length s < 255
    → Gives (append_var_string c idx ptr e) idx s
append_var_string-Gives c idx ptr e s w room absent given read short =
    ap (λ (x : Event). event_trace_path_at x idx)
      (append_var_string-whole c idx ptr e s room given read short)
    ∙ with_string-Gives idx e s w room short absent
