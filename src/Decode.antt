-- ===== src/Decode.antt =====
-- DecodeEvent of internal/decode.go, and the bytes of a struct event of internal/bpf/types.h as the
-- ring buffer holds them: fields in order, little-endian, at their natural alignment, with one byte of
-- padding at the end. encoding/binary reads the fields of the Go structure in order; it fails if there
-- are too few bytes, and does not look at further ones.
pub mod Reads
pub mod Takes
pub mod Roundtrip
use litrace.Prelude.{ℕ, zero, suc, ◌+◌, ◌*◌, ◌/◌, ◌%◌, List, [], ◌∷◌, ◌++◌, Option, none, some}
use litrace.Types.{Event, VarArgDesc}

-- `w` bytes of a number, least significant first.
unfoldable pub little_endian : ℕ → ℕ → List ℕ
little_endian zero x = []
little_endian (suc w) x = x % 256 ∷ little_endian w (x / 256)

unfoldable pub array {ℓ} : {A : Type ℓ} → (A → List ℕ) → List A → List ℕ
array bytes [] = []
array bytes (x ∷ xs) = bytes x ++ array bytes xs

unfoldable pub fields : List (List ℕ) → List ℕ
fields [] = []
fields (bytes ∷ rest) = bytes ++ fields rest

unfoldable pub desc_bytes : VarArgDesc → List ℕ
desc_bytes d = fields (
    little_endian 1 d.arg_index
    ∷ little_endian 1 d.flags
    ∷ little_endian 2 d.offset
    ∷ little_endian 2 d.length
    ∷ little_endian 2 d.reserved
    ∷ [])

unfoldable pub event_fields : Event → List ℕ
event_fields e = fields (
    little_endian 8 e.ts
    ∷ little_endian 8 e.dur
    ∷ little_endian 8 e.syscall_id
    ∷ little_endian 8 e.ret
    ∷ array (little_endian 8) e.args
    ∷ array desc_bytes e.var_desc
    ∷ array (little_endian 1) e.payload
    ∷ little_endian 4 e.pid
    ∷ little_endian 4 e.tid
    ∷ little_endian 4 e.seq
    ∷ little_endian 2 e.payload_len
    ∷ little_endian 1 e.arg_count
    ∷ little_endian 1 e.var_count
    ∷ array (little_endian 1) e.arg_types
    ∷ little_endian 1 e.event_flags
    ∷ [])

-- The whole structure, with its padding.
unfoldable pub event_bytes : Event → List ℕ
event_bytes e = event_fields e ++ 0 ∷ []

-- Reading from the front of some bytes: nothing if they do not suffice.
abbrev pub M {ℓ} : Type ℓ → Type ℓ
M A = List ℕ → Option (A × List ℕ)

unfoldable pub continue_with {ℓ κ} :
    {A : Type ℓ} {B : Type κ} → (A → M B) → Option (A × List ℕ) → Option (B × List ℕ)
continue_with f none = none
continue_with f (some (x, rest)) = f x rest

infixl 5 ◌>>=◌
unfoldable pub ◌>>=◌ {ℓ κ} : {A : Type ℓ} {B : Type κ} → M A → (A → M B) → M B
◌>>=◌ m f raw = continue_with f (m raw)

unfoldable pub return {ℓ} : {A : Type ℓ} → A → M A
return x raw = some (x, raw)

unfoldable pub read_uint : ℕ → M ℕ
read_uint zero raw = some (0, raw)
read_uint (suc w) [] = none
read_uint (suc w) (b ∷ raw) = elim (read_uint w raw) [
  | none ↦ none
  | some (x, rest) ↦ some (b + 256 * x, rest)
]

unfoldable pub read_array {ℓ} : {A : Type ℓ} → ℕ → M A → M (List A)
read_array zero m = return []
read_array (suc n) m = do x ← m; xs ← read_array n m; return (x ∷ xs)

unfoldable pub read_desc : M VarArgDesc
read_desc = do
  arg_index ← read_uint 1
  flags ← read_uint 1
  offset ← read_uint 2
  length ← read_uint 2
  reserved ← read_uint 2
  return (record {
    arg_index = arg_index;
    flags = flags;
    offset = offset;
    length = length;
    reserved = reserved;
  })

-- The fields of Go's Event, in order.
unfoldable pub read_event : M Event
read_event = do
  ts ← read_uint 8
  dur ← read_uint 8
  syscall_id ← read_uint 8
  ret ← read_uint 8
  args ← read_array 6 (read_uint 8)
  var_desc ← read_array 6 read_desc
  payload ← read_array 512 (read_uint 1)
  pid ← read_uint 4
  tid ← read_uint 4
  seq ← read_uint 4
  payload_len ← read_uint 2
  arg_count ← read_uint 1
  var_count ← read_uint 1
  arg_types ← read_array 6 (read_uint 1)
  event_flags ← read_uint 1
  return (record {
    ts = ts;
    dur = dur;
    syscall_id = syscall_id;
    ret = ret;
    args = args;
    var_desc = var_desc;
    payload = payload;
    pid = pid;
    tid = tid;
    seq = seq;
    payload_len = payload_len;
    arg_count = arg_count;
    var_count = var_count;
    arg_types = arg_types;
    event_flags = event_flags;
  })

unfoldable pub decode_event : List ℕ → Option Event
decode_event raw = elim (read_event raw) [ none ↦ none | some (ev, rest) ↦ some ev ]
