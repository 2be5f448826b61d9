-- ===== src/Schema/Table.antt =====
-- What holds of every row of `syscall_schemas`, checked over the whole table.
use litrace.Prelude.{
  ℕ, zero, suc, ◌≤◌, ◌<◌, ◌≡◌, inl, inr, refl, arith, List, [], ◌∷◌, Bool, true, false, ◌&&◌, not,
  Option, none, some, ◌==◌, leb, leb→le, ==_iff, ==_refl, Option-cases, length, get_or, Bool-cases,
}
use mathlib.Core.Path.{subst}
use Prim.Native.Nat.{suc-le-suc}
use mathlib.Core.List.{Memᴰ}
use mathlib.Core.List.Memᴰ.{head, tail}
use litrace.Types.{SyscallArgSchema, Event, arg_none}
use litrace.Schema.{syscall_schemas, find_schema, apply_schema, set_syscall_arg_schema}

all : (SyscallArgSchema → Bool) → List SyscallArgSchema → Bool
all p [] = true
all p (s ∷ rest) = p s && all p rest

-- Types and argument count agree: `count` types that are not ARG_NONE, then ARG_NONE only.
fills : ℕ → List ℕ → Bool
fills count [] = count == 0
fills zero (t ∷ ts) = t == arg_none && fills zero ts
fills (suc count) (t ∷ ts) = not (t == arg_none) && fills count ts

is_row : SyscallArgSchema → Bool
is_row s = (length s.arg_types == 6) && fills s.arg_count s.arg_types

increasing : ℕ → List SyscallArgSchema → Bool
increasing low [] = true
increasing low (s ∷ rest) = leb low s.syscall_id && increasing (suc s.syscall_id) rest

table_rows : all is_row syscall_schemas ≡ true
unfolding all is_row fills syscall_schemas
table_rows = refl

table_increasing : increasing 0 syscall_schemas ≡ true
unfolding increasing syscall_schemas
table_increasing = refl

&&-split : (a b : Bool) → (a && b) ≡ true → (a ≡ true) × (b ≡ true)
&&-split a b h = ground arith

-- The row that the loop finds has the number that was asked for and satisfies what all rows do.
find_schema_sound :
    (id : ℕ) (t : List SyscallArgSchema) (s : SyscallArgSchema)
    → all is_row t ≡ true
    → find_schema id t ≡ some s
    → (is_row s ≡ true) × (s.syscall_id ≡ id)
unfolding find_schema all
find_schema_sound id [] s rows found = cc
find_schema_sound id (r ∷ rest) s rows found =
    let (here, later) = &&-split (is_row r) (all is_row rest) rows in
    elim (Bool-cases (r.syscall_id == id)) [
      | inl same ↦
          let r-eq-s : r ≡ s = ground arith in
          (subst (λ x. is_row x ≡ true) r-eq-s here, ground arith)
      | inr other ↦ find_schema_sound id rest s later (ground arith)
    ]

-- `fills` read at one place.
fills-get_or :
    (count : ℕ) (ts : List ℕ) (i : ℕ)
    → fills count ts ≡ true
    → i < length ts
    → (get_or ts i 0 ≡ arg_none → count ≤ i) × (count ≤ i → get_or ts i 0 ≡ arg_none)
unfolding fills
fills-get_or count [] i h lt = elim lt [ ]
fills-get_or zero (t ∷ ts) zero h lt = (λ e. omega arith, λ le. ground arith)
fills-get_or zero (t ∷ ts) (suc i) h lt =
    let below = (&&-split (t == arg_none) (fills zero ts) h).1 in
    (λ e. omega arith, λ le. (fills-get_or zero ts i below (omega arith)).1 (omega arith))
fills-get_or (suc count) (t ∷ ts) zero h lt = (λ e. ground arith, λ le. elim le [ ])
fills-get_or (suc count) (t ∷ ts) (suc i) h lt =
    let below = (&&-split (not (t == arg_none)) (fills count ts) h).1 in
    let ih = fills-get_or count ts i below (omega arith) in
    (λ e. suc-le-suc (ih.0 e), λ le. ih.1 (omega arith))

fills-length : (count : ℕ) (ts : List ℕ) → fills count ts ≡ true → count ≤ length ts
unfolding fills
fills-length count [] h = ground arith
fills-length zero (t ∷ ts) h = omega arith
fills-length (suc count) (t ∷ ts) h = omega (arith, fills-length count ts (&&-split _ _ h).1)

-- In a table in ascending order from `low` on, no row has a number below `low`.
increasing-le :
    (low : ℕ) (t : List SyscallArgSchema) (s : SyscallArgSchema)
    → increasing low t ≡ true
    → Memᴰ s t
    → low ≤ s.syscall_id
unfolding increasing
increasing-le low [] s up m = elim m [ ]
increasing-le low (r ∷ rest) s up (head e) = rw e (ground arith)
increasing-le low (r ∷ rest) s up (tail m) =
    let (first, later) = &&-split (leb low r.syscall_id) (increasing (suc r.syscall_id) rest) up in
    omega (arith, increasing-le (suc r.syscall_id) rest s later m, leb→le _ _ first)

find_schema-mem :
    (low : ℕ) (t : List SyscallArgSchema) (s : SyscallArgSchema)
    → increasing low t ≡ true
    → Memᴰ s t
    → find_schema s.syscall_id t ≡ some s
unfolding increasing find_schema
find_schema-mem low [] s up m = elim m [ ]
find_schema-mem low (r ∷ rest) s up (head e) = rw (e, ==_refl r.syscall_id)
find_schema-mem low (r ∷ rest) s up (tail m) =
    let (first, later) = &&-split (leb low r.syscall_id) (increasing (suc r.syscall_id) rest) up in
    let below : r.syscall_id < s.syscall_id = increasing-le (suc r.syscall_id) rest s later m in
    let differs : (r.syscall_id == s.syscall_id) ≡ false = ground arith in
    rw differs (find_schema-mem (suc r.syscall_id) rest s later m)

-- Every row of the table is the one that the loop of set_syscall_arg_schema finds for its system
-- call: no row is hidden by another with the same number.
pub find_schema-syscall_schemas :
    (s : SyscallArgSchema)
    → Memᴰ s syscall_schemas
    → find_schema s.syscall_id syscall_schemas ≡ some s
find_schema-syscall_schemas s m = find_schema-mem 0 syscall_schemas s table_increasing m

-- What an event's argument types satisfy: six of them, at most six arguments, and ARG_NONE exactly
-- from the argument count on.
pub record IsTyped (e : Event) : Type 0 where
  pub six : length e.arg_types ≡ 6
  pub count : e.arg_count ≤ 6
  pub none_behind :
      (i : ℕ)
      → i < 6
      → (get_or e.arg_types i 0 ≡ arg_none → e.arg_count ≤ i)
        × (e.arg_count ≤ i → get_or e.arg_types i 0 ≡ arg_none)

row-IsTyped :
    (s : SyscallArgSchema) (e : Event) → is_row s ≡ true → IsTyped (apply_schema (some s) e)
unfolding is_row apply_schema
row-IsTyped s e row =
    let (six_, filled) = &&-split _ _ row in
    let six : length s.arg_types ≡ 6 = (==_iff _ 6).0 six_ in
    record {
      six = six;
      count = omega (arith, fills-length s.arg_count s.arg_types filled);
      none_behind = λ i lt. fills-get_or s.arg_count s.arg_types i filled (omega arith);
    }

raw-IsTyped : (e : Event) → IsTyped (apply_schema none e)
unfolding apply_schema fills
raw-IsTyped e = record {
  six = refl;
  count = omega arith;
  none_behind = λ i lt. fills-get_or 6 (apply_schema none e).arg_types i refl lt;
}

-- Whatever the system call's number, known or unknown, set_syscall_arg_schema leaves the event with
-- six argument types, an argument count of at most six, and ARG_NONE exactly at the places from the
-- argument count on.
pub set_syscall_arg_schema-IsTyped : (id : ℕ) (e : Event) → IsTyped (set_syscall_arg_schema id e)
unfolding set_syscall_arg_schema
set_syscall_arg_schema-IsTyped id e = elim (Option-cases (find_schema id syscall_schemas)) [
  | inl unknown ↦ rw unknown (raw-IsTyped e)
  | inr (s, known) ↦
      rw known (row-IsTyped s e (find_schema_sound id syscall_schemas s table_rows known).0)
]

-- The part of an event that holds the arguments of variable length.
pub record SameVariable (e e' : Event) : Type 0 where
  pub payload : e'.payload ≡ e.payload
  pub var_desc : e'.var_desc ≡ e.var_desc
  pub payload_len : e'.payload_len ≡ e.payload_len
  pub var_count : e'.var_count ≡ e.var_count

apply_schema-SameVariable :
    (o : Option SyscallArgSchema) (e : Event) → SameVariable e (apply_schema o e)
unfolding apply_schema
apply_schema-SameVariable none e = record {
  payload = refl;
  var_desc = refl;
  payload_len = refl;
  var_count = refl;
}
apply_schema-SameVariable (some s) e = record {
  payload = refl;
  var_desc = refl;
  payload_len = refl;
  var_count = refl;
}

pub set_syscall_arg_schema-SameVariable :
    (id : ℕ) (e : Event) → SameVariable e (set_syscall_arg_schema id e)
unfolding set_syscall_arg_schema
set_syscall_arg_schema-SameVariable id e = apply_schema-SameVariable _ e
