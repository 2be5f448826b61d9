-- ===== src/Tests/Argv.antt =====
-- Examples of the theorems on argument vectors.
use litrace.Prelude.{
  ℕ, ◌≡◌, ◌==◌, ◌&&◌, List, [], ◌∷◌, arith, refl, some, true, replicate, if◌then◌else◌,
}
use litrace.Types.{SyscallData}
use litrace.User.{Call, UserRead, got, read_word, le_word}
use litrace.Argv.{ArgvCopy, copy_argv}
use litrace.Execve.{zero_snapshot, take_snapshot}
use litrace.Tracer.Exit.Event.{exit_event}
use litrace.Reader.Argv.Copied.{Vector, ended, string, Took, copy_argv-Took}
use litrace.Reader.Argv.Execve.{Program}
use litrace.Reader.Argv.Event.{Executes, exit_event-Executes}
use litrace.Tests.{call, headers, returned, opened}

-- At address 8192 stands a vector of one pointer, to the string at 4096, and a null pointer.
abbrev read_vector : ℕ → ℕ → UserRead
read_vector size ptr =
    if (size == 8) && (ptr == 8192)
    then got (0 ∷ 16 ∷ 0 ∷ 0 ∷ 0 ∷ 0 ∷ 0 ∷ 0 ∷ [])
    else got (replicate size 0)

abbrev execing : Call
execing = record (call true) { read_user = read_vector }

abbrev strings : List (List ℕ)
strings = (47 ∷ 97 ∷ []) ∷ []

one_string : (cursor : ℕ) → cursor ≡ 2 → Vector execing 8192 256 0 cursor strings
unfolding read_word le_word replicate
one_string cursor two =
    string 4096 (47 ∷ 97 ∷ []) (omega arith) refl (omega arith) (omega arith) refl (omega arith)
      (ended refl)

program : Program execing 4096 8192 (47 ∷ 97 ∷ []) strings
program = record {
  path_given = omega arith;
  path_read = refl;
  path_short = omega arith;
  argv_given = omega arith;
  vector = one_string 2 refl;
}

abbrev exec_state : SyscallData
exec_state = record opened { syscall_id = 59 }

exit_event-Executes_example :
    Executes
      (exit_event headers
        (call true)
        returned
        exec_state
        (some (take_snapshot execing 4096 8192 zero_snapshot)))
      (47 ∷ 97 ∷ [])
      strings
exit_event-Executes_example =
    exit_event-Executes headers execing (call true) returned exec_state 4096 8192 (47 ∷ 97 ∷ [])
      strings refl program ((omega arith, (omega arith, tt)), tt)

abbrev second_place : ArgvCopy
second_place = record { flags = 0; cursor = 2; payload = replicate 256 0; exhausted = true }

copy_argv-Took_example : Took second_place (copy_argv execing 256 8192 second_place) strings
copy_argv-Took_example = copy_argv-Took execing 8192 256 second_place strings (one_string 2 refl)
