-- ===== src/Format.antt =====
-- internal/format.go and internal/format_args.go: how numbers are shown by the names of constants. The
-- values of the constants belong to golang.org/x/sys/unix: `unix` gives them by their names.
pub mod Parts
pub mod Flags
pub mod Calls
pub mod Ret
use litrace.Prelude.{
  ℕ, ◌+◌, ◌-◌, ◌^◌, List, [], ◌∷◌, ◌++◌, Bool, true, false, not, ◌&&◌, ◌||◌, ◌==◌, Option, none,
  some, if◌then◌else◌, bit_and, ltb, min, get_or,
}
use litrace.Types.{Event}
use litrace.Syscalls.{nr_open, nr_openat}
use litrace.Text.{codes, join, decimal, prefixed_hex}
use litrace.PathFilter.{is_empty}

-- enumEntry and flagEntry.
pub record NamedValue : Type 0 where
  pub value : ℕ
  pub name : List ℕ

-- `a &^ b`
abbrev pub and_not : ℕ → ℕ → ℕ
and_not a b = a - bit_and a b

abbrev pub bar : ℕ
bar = 124

-- formatEnum
unfoldable pub format_enum : ℕ → List NamedValue → (ℕ → List ℕ) → List ℕ
format_enum raw [] fallback = fallback raw
format_enum raw (entry ∷ table) fallback =
    if entry.value == raw then entry.name else format_enum raw table fallback

-- One round of formatFlags, on its parts and on what remains.
unfoldable pub take_flag : NamedValue → List (List ℕ) × ℕ → List (List ℕ) × ℕ
take_flag entry (parts, remaining) =
    if entry.value == 0
    then (parts, remaining)
    else if bit_and remaining entry.value == entry.value
    then (parts ++ entry.name ∷ [], and_not remaining entry.value)
    else (parts, remaining)

unfoldable pub flag_loop : List NamedValue → List (List ℕ) × ℕ → List (List ℕ) × ℕ
flag_loop [] s = s
flag_loop (entry ∷ table) s = flag_loop table (take_flag entry s)

-- The last part, for the bits without a name.
unfoldable pub with_remaining : List (List ℕ) × ℕ → List (List ℕ)
with_remaining (parts, remaining) =
    if not (remaining == 0) || is_empty parts then parts ++ prefixed_hex remaining ∷ [] else parts

-- formatFlags
unfoldable pub format_flags : ℕ → List ℕ → List NamedValue → List ℕ
format_flags raw zero_text table =
    if (raw == 0) && not (is_empty zero_text)
    then zero_text
    else join bar (with_remaining (flag_loop table ([], raw)))

module _ (unix : List ℕ → ℕ) where
  -- A constant that is shown by its own name.
  abbrev pub constant : List ℕ → NamedValue
  constant name = record { value = unix name; name = name }

  unfoldable pub open_mode_access : List NamedValue
  open_mode_access =
      constant (codes "O_RDONLY") ∷ constant (codes "O_WRONLY") ∷ constant (codes "O_RDWR") ∷ []

  unfoldable pub open_mode_flags : List NamedValue
  open_mode_flags =
      constant (codes "O_APPEND")
      ∷ constant (codes "O_ASYNC")
      ∷ constant (codes "O_CLOEXEC")
      ∷ constant (codes "O_CREAT")
      ∷ constant (codes "O_DIRECT")
      ∷ constant (codes "O_EXCL")
      ∷ constant (codes "O_NOATIME")
      ∷ constant (codes "O_NOCTTY")
      ∷ constant (codes "O_NOFOLLOW")
      ∷ constant (codes "O_NONBLOCK")
      ∷ constant (codes "O_PATH")
      ∷ constant (codes "O_SYNC")
      ∷ constant (codes "O_TMPFILE")
      ∷ constant (codes "O_DIRECTORY")
      ∷ constant (codes "O_DSYNC")
      ∷ constant (codes "O_TRUNC")
      ∷ []

  unfoldable pub mmap_prot_flags : List NamedValue
  mmap_prot_flags =
      constant (codes "PROT_READ")
      ∷ constant (codes "PROT_WRITE")
      ∷ constant (codes "PROT_EXEC")
      ∷ []

  unfoldable pub mmap_flags : List NamedValue
  mmap_flags =
      constant (codes "MAP_SHARED")
      ∷ constant (codes "MAP_PRIVATE")
      ∷ constant (codes "MAP_FIXED")
      ∷ record { value = unix (codes "MAP_ANON"); name = codes "MAP_ANONYMOUS" }
      ∷ constant (codes "MAP_POPULATE")
      ∷ constant (codes "MAP_NONBLOCK")
      ∷ constant (codes "MAP_STACK")
      ∷ constant (codes "MAP_HUGETLB")
      ∷ constant (codes "MAP_DENYWRITE")
      ∷ constant (codes "MAP_EXECUTABLE")
      ∷ constant (codes "MAP_LOCKED")
      ∷ constant (codes "MAP_GROWSDOWN")
      ∷ constant (codes "MAP_NORESERVE")
      ∷ []

  -- formatMmapProt
  unfoldable pub format_mmap_prot : ℕ → List ℕ
  format_mmap_prot raw =
      if raw == unix (codes "PROT_NONE")
      then codes "PROT_NONE"
      else format_flags raw [] mmap_prot_flags

  -- formatMmapFlags
  unfoldable pub format_mmap_flags : ℕ → List ℕ
  format_mmap_flags raw = format_flags raw [] mmap_flags

  -- formatOpenFlags
  unfoldable pub format_open_flags : ℕ → List ℕ
  format_open_flags raw =
      let mask = unix (codes "O_ACCMODE") in
      let access = format_enum (bit_and raw mask) open_mode_access prefixed_hex in
      let rest = and_not raw mask in
      if rest == 0 then access else access ++ bar ∷ format_flags rest [] open_mode_flags

  -- openNeedsMode
  unfoldable pub open_needs_mode : ℕ → Bool
  open_needs_mode flags =
      not (bit_and flags (unix (codes "O_CREAT")) == 0)
      || (bit_and flags (unix (codes "O_TMPFILE")) == unix (codes "O_TMPFILE"))

  -- effectiveOpenArgCount
  unfoldable pub effective_open_arg_count : ℕ → ℕ → Event → ℕ
  effective_open_arg_count flags_idx mode_idx ev =
      let count = min ev.arg_count 6 in
      if ltb mode_idx count && not (open_needs_mode (get_or ev.args flags_idx 0))
      then mode_idx
      else count

  -- effectiveArgCount; of the formatters, those of open and openat count for themselves.
  unfoldable pub effective_arg_count : Event → ℕ
  effective_arg_count ev =
      if ev.syscall_id == nr_open
      then effective_open_arg_count 1 2 ev
      else if ev.syscall_id == nr_openat
      then effective_open_arg_count 2 3 ev
      else min ev.arg_count 6
