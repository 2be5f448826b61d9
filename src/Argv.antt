-- ===== src/Argv.antt =====
-- The loop over argv in append_var_argv and append_execve_var_argv of internal/bpf/tracer.c. The
-- two bodies differ only in the buffer and in its size, which is the parameter `limit`.
pub mod Bounds
use Prim.Native.Nat.{bit_or}
use litrace.Prelude.{
  ℕ, zero, suc, ◌+◌, ◌-◌, ◌*◌, ◌%◌, ◌^◌, List, Bool, true, false, none, some, ◌==◌, ltb,
  if◌then◌else◌, length, write_at,
}
use litrace.Types.{
  max_execve_arg_str, max_execve_argv, var_flag_read_error, var_flag_truncated, u64,
}
use litrace.User.{Call, UserRead, fault, got, read_word}

-- The variables of the loop: `desc->flags`, `cursor`, the payload and `exhausted_argv_slots`.
pub record ArgvCopy : Type 0 where
  pub flags : ℕ
  pub cursor : ℕ
  pub payload : List ℕ
  pub exhausted : Bool

-- One round ends in `break` or goes on.
pub data Round : Type 0 where
  stop : ArgvCopy → Round
  more : ArgvCopy → Round

-- &argv[i]
abbrev pub argv_slot : ℕ → ℕ → ℕ
argv_slot argv i = u64 (argv + 8 * i)

-- `desc->flags |= flag; exhausted_argv_slots = 0; break;`
abbrev pub give_up : ℕ → ArgvCopy → Round
give_up flag a = stop (record a { flags = bit_or a.flags flag; exhausted = false })

unfoldable pub argv_copied : UserRead → ArgvCopy → Round
argv_copied (fault left) a =
    give_up var_flag_read_error (record a { payload = write_at a.payload a.cursor left })
argv_copied (got bytes) a =
    let copied =
      if ltb max_execve_arg_str (length bytes) then max_execve_arg_str else length bytes in
    let a' = record a { payload = write_at a.payload a.cursor bytes; cursor = a.cursor + copied } in
    if copied == max_execve_arg_str then give_up var_flag_truncated a' else more a'

module _ (c : Call) (limit argv : ℕ) where
  unfoldable pub argv_string : ℕ → ArgvCopy → Round
  argv_string arg_ptr a =
      if arg_ptr == 0
      then stop (record a { exhausted = false })
      else if ltb (limit - max_execve_arg_str) a.cursor
      then give_up var_flag_truncated a
      else argv_copied (c.read_user_str max_execve_arg_str arg_ptr) a

  unfoldable pub argv_round : ℕ → ArgvCopy → Round
  argv_round i a = elim (read_word c (argv_slot argv i)) [
    | none ↦ give_up var_flag_read_error a
    | some arg_ptr ↦ argv_string arg_ptr a
  ]

  -- `rounds` rounds from index `i` on.
  unfoldable pub argv_loop : ℕ → ℕ → ArgvCopy → ArgvCopy
  argv_loop zero i a = a
  argv_loop (suc rounds) i a = elim (argv_round i a) [
    | stop b ↦ b
    | more b ↦ argv_loop rounds (i + 1) b
  ]

  -- The look at the slot behind the last one read.
  unfoldable pub argv_rest : ℕ → ℕ
  argv_rest flags = elim (read_word c (argv_slot argv max_execve_argv)) [
    | none ↦ bit_or flags var_flag_read_error
    | some next_ptr ↦ if next_ptr == 0 then flags else bit_or flags var_flag_truncated
  ]

  unfoldable pub copy_argv : ArgvCopy → ArgvCopy
  unfolding argv_loop argv_rest
  copy_argv start =
      let a = argv_loop max_execve_argv 0 start in
      if a.exhausted then record a { flags = argv_rest a.flags } else a
