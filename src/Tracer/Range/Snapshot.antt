-- ===== src/Tracer/Range/Snapshot.antt =====
-- The argv loop and the snapshot of an execve hold bytes and in-range descriptors.
use litrace.Prelude.{
  ℕ, zero, suc, ◌+◌, ◌-◌, ◌<◌, ◌^◌, arith, true, Option, none, some, ◌==◌, ltb, leb, if◌then◌else◌,
  if-intro, length,
}
use litrace.Types.{VarArgDesc, ExecveSnapshot, max_execve_arg_str}
use litrace.User.{Call, UserRead, fault, got, read_word}
use litrace.Argv.{
  ArgvCopy, Round, stop, more, give_up, argv_copied, argv_string, argv_round, argv_loop, argv_rest,
  argv_slot, copy_argv,
}
use litrace.Capture.{new_desc}
use litrace.Execve.{
  zero_snapshot, push_state_desc, state_string_read, append_execve_var_string, state_argv_taken,
  append_execve_var_argv, take_snapshot,
}
use litrace.Decode.Reads.{All, InDesc}
use litrace.Tracer.Range.{
  IsByte, ReadsBytes, IsMachine, set-All, replicate-All, write_at-All, bit_or_one, bit_or_two,
  zero_desc-InDesc, desc-InDesc,
}

pub record CopyInRange (a : ArgvCopy) : Type 0 where
  pub flags : a.flags < 8
  pub payload : All IsByte a.payload

abbrev RoundInRange : Round → Type 0
RoundInRange (stop a) = CopyInRange a
RoundInRange (more a) = CopyInRange a

argv_copied-InRange :
    (r : UserRead) (a : ArgvCopy) → ReadsBytes r → CopyInRange a → RoundInRange (argv_copied r a)
unfolding argv_copied
argv_copied-InRange (fault left) a bytes_ k = record {
  flags = bit_or_two a.flags k.flags;
  payload = write_at-All a.payload a.cursor left k.payload bytes_;
}
argv_copied-InRange (got bytes) a bytes_ k =
    let written = write_at-All a.payload a.cursor bytes k.payload bytes_ in
    if-intro RoundInRange ((if ltb 128 (length bytes) then 128 else length bytes) == 128)
      (λ full. record { flags = bit_or_one a.flags k.flags; payload = written })
      (λ fits. record { flags = k.flags; payload = written })

module _ (c : Call) (m : IsMachine c) (limit argv : ℕ) where
  argv_string-InRange :
      (p : ℕ) (a : ArgvCopy) → CopyInRange a → RoundInRange (argv_string c limit argv p a)
  unfolding argv_string
  argv_string-InRange p a k =
      if-intro RoundInRange (p == 0) (λ null. record { flags = k.flags; payload = k.payload })
        λ given.
          if-intro RoundInRange (ltb (limit - max_execve_arg_str) a.cursor)
            (λ full. record { flags = bit_or_one a.flags k.flags; payload = k.payload })
            (λ room. argv_copied-InRange _ a (m.read_user_str 128 p) k)

  slot_read-InRange :
      (word : Option ℕ) (a : ArgvCopy)
      → CopyInRange a
      → RoundInRange (elim word [ none ↦ give_up 2 a | some p ↦ argv_string c limit argv p a ])
  slot_read-InRange none a k = record { flags = bit_or_two a.flags k.flags; payload = k.payload }
  slot_read-InRange (some p) a k = argv_string-InRange p a k

  argv_loop-InRange :
      (n i : ℕ) (a : ArgvCopy) → CopyInRange a → CopyInRange (argv_loop c limit argv n i a)
  unfolding argv_loop argv_round
  argv_loop-InRange zero i a k = k
  argv_loop-InRange (suc n) i a k =
      next (argv_round c limit argv i a) (slot_read-InRange (read_word c (argv_slot argv i)) a k)
        (argv_loop-InRange n (i + 1))
    where
      next :
          (r : Round)
          → RoundInRange r
          → ((b : ArgvCopy) → CopyInRange b → CopyInRange (argv_loop c limit argv n (i + 1) b))
          → CopyInRange (elim r [ stop b ↦ b | more b ↦ argv_loop c limit argv n (i + 1) b ])
      next (stop b) k' ih = k'
      next (more b) k' ih = ih b k'

  argv_rest-InRange : (flags : ℕ) → flags < 8 → argv_rest c limit argv flags < 8
  unfolding argv_rest
  argv_rest-InRange flags lt = ground (arith, bit_or_one flags, bit_or_two flags)

  pub copy_argv-InRange : (a : ArgvCopy) → CopyInRange a → CopyInRange (copy_argv c limit argv a)
  unfolding copy_argv
  copy_argv-InRange a k =
      let k' = argv_loop-InRange 8 0 a k in
      let b = argv_loop c limit argv 8 0 a in
      if-intro CopyInRange b.exhausted
        (λ all_. record { flags = argv_rest-InRange b.flags k'.flags; payload = k'.payload })
        (λ stopped. k')

-- A snapshot's fields are in the ranges of their types.
pub record SnapshotInRange (snap : ExecveSnapshot) : Type 0 where
  pub payload : All IsByte snap.payload
  pub var_desc : All InDesc snap.var_desc
  pub len : snap.payload_len < 2 ^ 16
  pub count : snap.var_count < 2 ^ 8

pub zero_snapshot-InRange : SnapshotInRange zero_snapshot
unfolding zero_snapshot All
zero_snapshot-InRange = record {
  payload = replicate-All IsByte 256 0 (omega arith);
  var_desc = (zero_desc-InDesc, (zero_desc-InDesc, tt));
  len = omega arith;
  count = omega arith;
}

push_state_desc-InRange :
    (d : VarArgDesc) (snap : ExecveSnapshot)
    → InDesc d
    → SnapshotInRange snap
    → SnapshotInRange (push_state_desc d snap)
unfolding push_state_desc
push_state_desc-InRange d snap i k = record {
  payload = k.payload;
  var_desc = set-All InDesc snap.var_desc snap.var_count d k.var_desc i;
  len = k.len;
  count = omega arith;
}

module _ (c : Call) (m : IsMachine c) (arg_index : ℕ) (small : arg_index < 2 ^ 8) where
  state_string_read-InRange :
      (r : UserRead) (snap : ExecveSnapshot)
      → ReadsBytes r
      → SnapshotInRange snap
      → SnapshotInRange (state_string_read r (new_desc arg_index 0) snap)
  unfolding state_string_read
  state_string_read-InRange (fault left) snap bytes_ k =
      push_state_desc-InRange _ _
        (desc-InDesc arg_index 2 0 0 small (omega arith) (omega arith) (omega arith))
        (record {
          payload = write_at-All snap.payload 0 left k.payload bytes_;
          var_desc = k.var_desc;
          len = k.len;
          count = k.count;
        })
  state_string_read-InRange (got bytes) snap bytes_ k =
      push_state_desc-InRange _ _
        (desc-InDesc arg_index _ 0 _ small (ground arith) (omega arith) (ground arith))
        (record {
          payload = write_at-All snap.payload 0 bytes k.payload bytes_;
          var_desc = k.var_desc;
          len = ground (arith, k.len);
          count = k.count;
        })

  append_execve_var_string-InRange :
      (ptr : ℕ) (snap : ExecveSnapshot)
      → SnapshotInRange snap
      → SnapshotInRange (append_execve_var_string c arg_index ptr snap)
  unfolding append_execve_var_string
  append_execve_var_string-InRange ptr snap k =
      if-intro SnapshotInRange (leb 2 snap.var_count) (λ full. k)
        λ room.
          if-intro SnapshotInRange (ptr == 0)
            (λ null.
              push_state_desc-InRange _ snap
                (desc-InDesc arg_index 4 0 0 small (omega arith) (omega arith) (omega arith)) k)
            (λ given. state_string_read-InRange _ snap (m.read_user_str 128 ptr) k)

  append_execve_var_argv-InRange :
      (argv : ℕ) (snap : ExecveSnapshot)
      → SnapshotInRange snap
      → SnapshotInRange (append_execve_var_argv c arg_index argv snap)
  unfolding append_execve_var_argv state_argv_taken
  append_execve_var_argv-InRange argv snap k =
      let flagged = λ (flags : ℕ) (lt : flags < 8).
        push_state_desc-InRange _ snap
          (desc-InDesc arg_index flags snap.payload_len 0 small lt k.len (omega arith)) k in
      let copied =
        copy_argv-InRange c m 256 argv
          (record {
            flags = 0;
            cursor = snap.payload_len;
            payload = snap.payload;
            exhausted = true;
          })
          (record { flags = omega arith; payload = k.payload }) in
      if-intro SnapshotInRange (leb 2 snap.var_count) (λ full. k)
        λ room.
          if-intro SnapshotInRange (argv == 0) (λ null. flagged 4 (omega arith))
            λ given.
              if-intro SnapshotInRange (leb 256 snap.payload_len)
                (λ no_room. flagged 1 (omega arith))
                λ fits.
                  push_state_desc-InRange _ _
                    (desc-InDesc arg_index _ snap.payload_len _ small copied.flags k.len
                      (ground arith))
                    (record {
                      payload = copied.payload;
                      var_desc = k.var_desc;
                      len = ground (arith, k.len);
                      count = k.count;
                    })

pub take_snapshot-InRange :
    (c : Call) (path argv : ℕ) (snap : ExecveSnapshot)
    → IsMachine c
    → SnapshotInRange snap
    → SnapshotInRange (take_snapshot c path argv snap)
unfolding take_snapshot
take_snapshot-InRange c path argv snap m k =
    append_execve_var_argv-InRange c m 1 (omega arith) argv _
      (append_execve_var_string-InRange c m 0 (omega arith) path snap k)
