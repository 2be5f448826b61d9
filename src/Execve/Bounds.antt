-- ===== src/Execve/Bounds.antt =====
-- An execve snapshot always describes bytes of its own payload.
use mathlib.Core.Path.{subst}
use native.Mathlib.Nat.{le_trans}
use litrace.Prelude.{
  ℕ, ◌+◌, ◌≤◌, ◌<◌, ◌≡◌, refl, sym, ◌∙◌, arith, List, length, get_or, set, length-set,
  get_or-set_self, get_or-set_ne, length-write_at, length-replicate, ℕ_discrete, leb, ◌==◌,
  if-intro, if_true, ◌⊎◌, inl, inr, ap,
}
use litrace.Types.{VarArgDesc, ExecveSnapshot, zero_desc}
use litrace.User.{Call, UserRead, fault, got}
use litrace.Argv.{ArgvCopy}
use litrace.Argv.Bounds.{Within, copy_argv-Within}
use litrace.Capture.{new_desc}
use litrace.Capture.Bounds.{Fits}
use litrace.Execve.{
  zero_snapshot, push_state_desc, state_string_read, append_execve_var_string, state_argv_taken,
  append_execve_var_argv, take_snapshot,
}

pub record IsSnapshot (snap : ExecveSnapshot) : Type 0 where
  pub payload_size : length snap.payload ≡ 256
  pub desc_size : length snap.var_desc ≡ 2
  pub len : snap.payload_len ≤ 256
  pub count : snap.var_count ≤ 2
  pub fits : (i : ℕ) → i < snap.var_count → Fits snap.payload_len (get_or snap.var_desc i zero_desc)

zero_snapshot-IsSnapshot : IsSnapshot zero_snapshot
unfolding zero_snapshot
zero_snapshot-IsSnapshot = record {
  payload_size = length-replicate 256 0;
  desc_size = refl;
  len = omega arith;
  count = omega arith;
  fits = λ i lt. absurd (omega arith);
}

-- The buffer and its length are replaced, and a descriptor that fits is added.
push_state_desc-IsSnapshot :
    (d : VarArgDesc) (snap : ExecveSnapshot) (payload : List ℕ) (n : ℕ)
    → IsSnapshot snap
    → snap.var_count < 2
    → length payload ≡ 256
    → ((i : ℕ) → i < snap.var_count → Fits n (get_or snap.var_desc i zero_desc))
    → n ≤ 256
    → Fits n d
    → IsSnapshot (push_state_desc d (record snap { payload = payload; payload_len = n }))
unfolding push_state_desc
push_state_desc-IsSnapshot d snap payload n w room size old small fit = record {
  payload_size = size;
  desc_size = length-set snap.var_desc snap.var_count d ∙ w.desc_size;
  len = small;
  count = omega arith;
  fits = λ i lt. elim (ℕ_discrete snap.var_count i) [
    | yes here ↦
        let found = get_or-set_self snap.var_desc snap.var_count d zero_desc (omega arith) in
        subst (λ j. Fits n (get_or (set snap.var_desc snap.var_count d) j zero_desc)) here
          (subst (Fits n) (sym found) fit)
    | no other ↦
        let found = get_or-set_ne snap.var_desc snap.var_count i d zero_desc other in
        subst (Fits n) (sym found) (old i (omega arith))
  ];
}

module _ (snap : ExecveSnapshot) (w : IsSnapshot snap) where
  grown :
      (n : ℕ)
      → snap.payload_len ≤ n
      → (i : ℕ) → i < snap.var_count
      → Fits n (get_or snap.var_desc i zero_desc)
  grown n le i lt r = le_trans (w.fits i lt r) le

  state_null-IsSnapshot :
      (arg_index offset flags : ℕ)
      → snap.var_count < 2
      → (flags ≤ 1 → offset ≤ snap.payload_len)
      → IsSnapshot (push_state_desc (record (new_desc arg_index offset) { flags = flags }) snap)
  state_null-IsSnapshot arg_index offset flags room fit =
      push_state_desc-IsSnapshot _ snap snap.payload snap.payload_len w room w.payload_size w.fits
        w.len (λ r. omega (arith, fit r))

  state_string_read-IsSnapshot :
      (arg_index : ℕ) (r : UserRead)
      → snap.var_count ≡ 0
      → IsSnapshot (state_string_read r (new_desc arg_index 0) snap)
  unfolding state_string_read
  state_string_read-IsSnapshot arg_index (fault left) first =
      push_state_desc-IsSnapshot _ snap _ snap.payload_len w (omega arith)
        (length-write_at _ _ left ∙ w.payload_size) w.fits w.len (λ r. absurd (omega arith))
  state_string_read-IsSnapshot arg_index (got bytes) first =
      push_state_desc-IsSnapshot _ snap _ _ w (omega arith)
        (length-write_at _ _ bytes ∙ w.payload_size) (λ i lt. absurd (omega arith))
        (ground (arith, w.len)) (λ r. ground arith)

  append_execve_var_string-IsSnapshot :
      (c : Call) (arg_index ptr : ℕ)
      → snap.var_count ≡ 0
      → IsSnapshot (append_execve_var_string c arg_index ptr snap)
  unfolding append_execve_var_string
  append_execve_var_string-IsSnapshot c arg_index ptr first =
      if-intro IsSnapshot (leb 2 snap.var_count) (λ full. w)
        λ room.
          if-intro IsSnapshot (ptr == 0)
            (λ null. state_null-IsSnapshot arg_index 0 4 (omega arith) (λ r. omega arith))
            λ given. state_string_read-IsSnapshot arg_index _ first

  state_argv_taken-IsSnapshot :
      (arg_index : ℕ) {a : ArgvCopy}
      → snap.var_count < 2
      → Within snap.payload_len 256 a
      → IsSnapshot (state_argv_taken snap.payload_len (new_desc arg_index snap.payload_len) a snap)
  unfolding state_argv_taken
  state_argv_taken-IsSnapshot arg_index {a} room k =
      push_state_desc-IsSnapshot _ snap a.payload _ w room k.size (grown _ (ground arith))
        (ground (arith, w.len)) (λ r. ground arith)

  append_execve_var_argv-IsSnapshot :
      (c : Call) (arg_index argv : ℕ) → IsSnapshot (append_execve_var_argv c arg_index argv snap)
  unfolding append_execve_var_argv
  append_execve_var_argv-IsSnapshot c arg_index argv =
      if-intro IsSnapshot (leb 2 snap.var_count) (λ full. w)
        λ room.
          if-intro IsSnapshot (argv == 0)
            (λ null.
              state_null-IsSnapshot arg_index snap.payload_len 4 (ground arith) (λ r. omega arith))
            λ given.
              if-intro IsSnapshot (leb 256 snap.payload_len)
                (λ no_room.
                  state_null-IsSnapshot arg_index snap.payload_len 1 (ground arith)
                    (λ r. omega arith))
                λ fits_. state_argv_taken-IsSnapshot arg_index (ground arith) (
                  copy_argv-Within c snap.payload_len 256 argv (omega arith) _
                    (record { from_start = omega arith; in_limit = w.len; size = w.payload_size }))

state_string_read-count :
    (r : UserRead) (arg_index : ℕ) (snap : ExecveSnapshot)
    → snap.var_count < 2
    → (state_string_read r (new_desc arg_index 0) snap).var_count ≡ snap.var_count + 1
unfolding state_string_read push_state_desc
state_string_read-count (fault left) arg_index snap room = omega arith
state_string_read-count (got bytes) arg_index snap room = omega arith

-- Two descriptors, the first of the path and the second of the argument vector.
pub record DescribesBoth (snap : ExecveSnapshot) : Type 0 where
  pub count : snap.var_count ≡ 2
  pub path : (get_or snap.var_desc 0 zero_desc).arg_index ≡ 0
  pub argv : (get_or snap.var_desc 1 zero_desc).arg_index ≡ 1

-- A snapshot as it stands in the map between two programs: nothing was captured, or both arguments.
pub record IsWhole (snap : ExecveSnapshot) : Type 0 where
  pub shape : IsSnapshot snap
  pub both : (snap.var_count ≡ 0) ⊎ DescribesBoth snap

pub zero_snapshot-IsWhole : IsWhole zero_snapshot
unfolding zero_snapshot
zero_snapshot-IsWhole = record { shape = zero_snapshot-IsSnapshot; both = inl refl }

append_execve_var_string-count :
    (c : Call) (arg_index ptr : ℕ) (snap : ExecveSnapshot)
    → snap.var_count < 2
    → (append_execve_var_string c arg_index ptr snap).var_count ≡ snap.var_count + 1
unfolding append_execve_var_string push_state_desc
append_execve_var_string-count c arg_index ptr snap room =
    ground (arith, state_string_read-count (c.read_user_str 128 ptr) arg_index snap room)

append_execve_var_argv-count :
    (c : Call) (arg_index argv : ℕ) (snap : ExecveSnapshot)
    → snap.var_count < 2
    → (append_execve_var_argv c arg_index argv snap).var_count ≡ snap.var_count + 1
unfolding append_execve_var_argv state_argv_taken push_state_desc
append_execve_var_argv-count c arg_index argv snap room = ground arith

full_string :
    (c : Call) (arg_index ptr : ℕ) (snap : ExecveSnapshot)
    → snap.var_count ≡ 2
    → append_execve_var_string c arg_index ptr snap ≡ snap
unfolding append_execve_var_string
full_string c arg_index ptr snap full = if_true (leb 2 snap.var_count) snap _ (ground arith)

full_argv :
    (c : Call) (arg_index argv : ℕ) (snap : ExecveSnapshot)
    → snap.var_count ≡ 2
    → append_execve_var_argv c arg_index argv snap ≡ snap
unfolding append_execve_var_argv
full_argv c arg_index argv snap full = if_true (leb 2 snap.var_count) snap _ (ground arith)

-- One descriptor, of this argument, was put behind those that are there.
abbrev Pushed : ExecveSnapshot → ℕ → ExecveSnapshot → Type 0
Pushed snap i t =
    (d : VarArgDesc) × ((t.var_desc ≡ set snap.var_desc snap.var_count d) × (d.arg_index ≡ i))

state_string_read-Pushed :
    (r : UserRead) (i : ℕ) (snap : ExecveSnapshot)
    → Pushed snap i (state_string_read r (new_desc i 0) snap)
unfolding state_string_read push_state_desc
state_string_read-Pushed (fault left) i snap = (_, (refl, refl))
state_string_read-Pushed (got bytes) i snap = (_, (refl, refl))

append_execve_var_string-Pushed :
    (c : Call) (i ptr : ℕ) (snap : ExecveSnapshot)
    → snap.var_count < 2
    → Pushed snap i (append_execve_var_string c i ptr snap)
unfolding append_execve_var_string push_state_desc
append_execve_var_string-Pushed c i ptr snap room =
    if-intro (Pushed snap i) (leb 2 snap.var_count) (λ full. absurd (ground arith))
      λ free.
        if-intro (Pushed snap i) (ptr == 0) (λ null. (_, (refl, refl)))
          (λ given. state_string_read-Pushed _ i snap)

append_execve_var_argv-Pushed :
    (c : Call) (i argv : ℕ) (snap : ExecveSnapshot)
    → snap.var_count < 2
    → Pushed snap i (append_execve_var_argv c i argv snap)
unfolding append_execve_var_argv state_argv_taken push_state_desc
append_execve_var_argv-Pushed c i argv snap room =
    if-intro (Pushed snap i) (leb 2 snap.var_count) (λ full. absurd (ground arith))
      λ free.
        if-intro (Pushed snap i) (argv == 0) (λ null. (_, (refl, refl)))
          λ given.
            if-intro (Pushed snap i) (leb 256 snap.payload_len) (λ no_room. (_, (refl, refl)))
              (λ fits_. (_, (refl, refl)))

-- Two descriptors, one after the other.
Pushed-both :
    (snap one two : ExecveSnapshot)
    → length snap.var_desc ≡ 2
    → snap.var_count ≡ 0
    → one.var_count ≡ 1
    → two.var_count ≡ 2
    → Pushed snap 0 one
    → Pushed one 1 two
    → DescribesBoth two
Pushed-both snap one two size none_ counted both_ (d0, (first, i0)) (d1, (second, i1)) =
    let start = snap.var_desc in
    let index = λ (d : VarArgDesc). d.arg_index in
    let final : two.var_desc ≡ set (set start 0 d0) 1 d1 =
      second
      ∙ ap (λ n. set one.var_desc n d1) counted
      ∙ ap (λ l. set l 1 d1) (first ∙ ap (λ n. set start n d0) none_) in
    record {
      count = both_;
      path =
          ap (λ l. index (get_or l 0 zero_desc)) final
          ∙ ap index (get_or-set_ne (set start 0 d0) 1 0 d1 zero_desc (omega arith))
          ∙ ap index (get_or-set_self start 0 d0 zero_desc (omega arith))
          ∙ i0;
      argv =
          ap (λ l. index (get_or l 1 zero_desc)) final
          ∙ ap index (
              get_or-set_self (set start 0 d0) 1 d1 zero_desc
                (omega (arith, length-set start 0 d0)))
          ∙ i1;
    }

-- Whatever the process's memory holds, trace_sys_enter turns the zeroed snapshot into a whole one
-- with two descriptors, of argument 0, the path, and of argument 1, the vector. A whole snapshot
-- with two descriptors that the map kept from before is left as it is.
pub take_snapshot-IsWhole :
    (c : Call) (path argv : ℕ) (snap : ExecveSnapshot)
    → IsWhole snap
    → IsWhole (take_snapshot c path argv snap)
      × (DescribesBoth (take_snapshot c path argv snap)
          × ((snap.var_count ≡ 0) ⊎ (take_snapshot c path argv snap ≡ snap)))
unfolding take_snapshot
take_snapshot-IsWhole c path argv snap w = elim w.both [
  | inl first ↦
      let s1 = append_execve_var_string c 0 path snap in
      let string = append_execve_var_string-IsSnapshot snap w.shape c 0 path first in
      let one : s1.var_count ≡ 1 =
        omega (arith, append_execve_var_string-count c 0 path snap (omega arith)) in
      let two : (take_snapshot c path argv snap).var_count ≡ 2 =
        omega (arith, one, append_execve_var_argv-count c 1 argv s1 (omega arith)) in
      let both =
        Pushed-both snap s1 (take_snapshot c path argv snap) w.shape.desc_size first one two
          (append_execve_var_string-Pushed c 0 path snap (omega arith))
          (append_execve_var_argv-Pushed c 1 argv s1 (omega arith)) in
      (
        record { shape = append_execve_var_argv-IsSnapshot s1 string c 1 argv; both = inr both },
        (both, inl first),
      )
  | inr full ↦
      let same : take_snapshot c path argv snap ≡ snap =
        ap (append_execve_var_argv c 1 argv) (full_string c 0 path snap full.count)
        ∙ full_argv c 1 argv snap full.count in
      (subst IsWhole (sym same) w, (subst DescribesBoth (sym same) full, inr same))
]
