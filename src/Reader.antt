-- ===== src/Reader.antt =====
-- How the user-space side takes an event apart: findVarArgDesc and varPayloadSlice of
-- internal/format_var.go, eventTracePathAt of internal/event_path.go, eventCreatesProcess of
-- internal/decode.go, processCloneChildPID of internal/path_filter.go.
pub mod Slices
pub mod Strings
pub mod First
pub mod Second
pub mod Paths
pub mod Child
pub mod Data
pub mod Argv
use litrace.Prelude.{
  ℕ, zero, suc, ◌+◌, ◌%◌, ◌^◌, ◌<◌, List, [], ◌∷◌, Bool, true, false, Option, none, some, ◌==◌, ltb,
  leb, ◌&&◌, ◌||◌, not, if◌then◌else◌, length, take, drop, window, get_or, bit_and,
}
use litrace.Types.{Event, VarArgDesc, var_flag_none, var_arg_string, var_arg_argv, is_positive, u32}

-- The loop of findVarArgDesc over the first `count` descriptors.
unfoldable pub find_desc : ℕ → ℕ → List VarArgDesc → Option VarArgDesc
find_desc idx count [] = none
find_desc idx zero (d ∷ ds) = none
find_desc idx (suc count) (d ∷ ds) = if d.arg_index == idx then some d else find_desc idx count ds

unfoldable pub find_var_arg_desc : Event → ℕ → Option VarArgDesc
unfolding find_desc
find_var_arg_desc ev idx = find_desc idx ev.var_count ev.var_desc

-- `ev.Payload[start:end]`, if it lies within the captured length. The sum of two uint16 is an int.
unfoldable pub var_payload_slice : Event → VarArgDesc → Option (List ℕ)
var_payload_slice ev desc =
    let payload_len =
      if ltb (length ev.payload) ev.payload_len then length ev.payload else ev.payload_len in
    let end = desc.offset + desc.length in
    if ltb payload_len end then none else some (window desc.offset desc.length ev.payload)

unfoldable pub event_trace_path_at : Event → ℕ → Option (List ℕ)
unfolding find_var_arg_desc var_payload_slice
event_trace_path_at ev arg_index = elim (find_var_arg_desc ev arg_index) [
  | none ↦ none
  | some desc ↦ if desc.flags == var_flag_none then var_payload_slice ev desc else none
]

-- The loop of isVarArgEnabled: the first descriptor of the argument decides.
unfoldable pub is_var_arg_enabled : Event → ℕ → Bool
unfolding find_var_arg_desc
is_var_arg_enabled ev idx =
    if leb (length ev.arg_types) idx then false else elim (find_var_arg_desc ev idx) [
      | none ↦ false
      | some desc ↦
          leb var_arg_string (get_or ev.arg_types idx 0)
          && leb (get_or ev.arg_types idx 0) var_arg_argv
    ]

unfoldable pub event_creates_process : Event → Bool
event_creates_process ev = not (bit_and ev.event_flags 1 == 0)

unfoldable pub process_clone_child_pid : Event → Option ℕ
process_clone_child_pid ev =
    if not (is_positive ev.ret) || not (event_creates_process ev) then none else some (u32 ev.ret)
