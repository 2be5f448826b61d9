-- ===== src/Argv/Bounds.antt =====
-- The argv loop stays inside its buffer.
use litrace.Prelude.{
  ℕ, zero, suc, ◌+◌, ◌≤◌, ◌≡◌, arith, length, length-write_at, none, some, Option,
}
use litrace.Types.{max_execve_arg_str, var_flag_read_error}
use litrace.User.{Call, UserRead, fault, got, read_word}
use litrace.Argv.{
  ArgvCopy, Round, stop, more, argv_copied, argv_string, argv_round, argv_loop, copy_argv,
  argv_slot, give_up,
}

-- The cursor never goes back and stays within the buffer, whose size does not change.
pub record Within (start limit : ℕ) (a : ArgvCopy) : Type 0 where
  pub from_start : start ≤ a.cursor
  pub in_limit : a.cursor ≤ limit
  pub size : length a.payload ≡ limit

abbrev pub RoundWithin : ℕ → ℕ → Round → Type 0
RoundWithin start limit (stop a) = Within start limit a
RoundWithin start limit (more a) = Within start limit a

argv_copied-Within :
    (start limit : ℕ) (r : UserRead) (a : ArgvCopy)
    → Within start limit a
    → a.cursor + max_execve_arg_str ≤ limit
    → RoundWithin start limit (argv_copied r a)
unfolding argv_copied
argv_copied-Within start limit (fault left) a w room =
    ground (arith, length-write_at a.payload a.cursor left)
argv_copied-Within start limit (got bytes) a w room =
    ground (arith, length-write_at a.payload a.cursor bytes)

module _ (c : Call) (start limit argv : ℕ) (big : max_execve_arg_str ≤ limit) where
  argv_string-Within :
      (p : ℕ) (a : ArgvCopy)
      → Within start limit a
      → RoundWithin start limit (argv_string c limit argv p a)
  unfolding argv_string
  argv_string-Within p a w =
      ground (arith, argv_copied-Within start limit (c.read_user_str max_execve_arg_str p) a w)

  argv_round-Within :
      (i : ℕ) (a : ArgvCopy)
      → Within start limit a
      → RoundWithin start limit (argv_round c limit argv i a)
  unfolding argv_round
  argv_round-Within i a w = slot_read (read_word c (argv_slot argv i))
    where
      slot_read :
          (word : Option ℕ)
          → RoundWithin start limit (elim word [
            | none ↦ give_up var_flag_read_error a
            | some p ↦ argv_string c limit argv p a
          ])
      slot_read none = ground arith
      slot_read (some p) = argv_string-Within p a w

  argv_loop-Within :
      (n i : ℕ) (a : ArgvCopy)
      → Within start limit a
      → Within start limit (argv_loop c limit argv n i a)
  unfolding argv_loop
  argv_loop-Within zero i a w = w
  argv_loop-Within (suc n) i a w =
      next (argv_round c limit argv i a) (argv_round-Within i a w) (argv_loop-Within n (i + 1))
    where
      next :
          (r : Round)
          → RoundWithin start limit r
          → ((b : ArgvCopy)
              → Within start limit b
              → Within start limit (argv_loop c limit argv n (i + 1) b))
          → Within start limit (elim r [ stop b ↦ b | more b ↦ argv_loop c limit argv n (i + 1) b ])
      next (stop b) w' ih = w'
      next (more b) w' ih = ih b w'

  -- For a buffer of at least MAX_EXECVE_ARG_STR bytes, any vector and any outcome of the reads, the
  -- loop over argv and the look at the next slot end with the cursor between where it started and
  -- the end of the buffer, and the buffer keeps its size.
  pub copy_argv-Within :
      (a : ArgvCopy) → Within start limit a → Within start limit (copy_argv c limit argv a)
  unfolding copy_argv
  copy_argv-Within a w = ground (arith, argv_loop-Within 8 0 a w)
