-- ===== src/Reader/Argv/Execve.antt =====
-- The path and the arguments of an execve, in the snapshot that trace_sys_enter takes.
use litrace.Prelude.{
  ℕ, ◌+◌, ◌-◌, ◌%◌, ◌^◌, ◌≡◌, ◌≢◌, ◌≤◌, ◌<◌, refl, sym, ◌∙◌, ap, arith, true, List, [], ◌∷◌, ◌==◌,
  ltb, leb, if◌then◌else◌, if_false, length, length-append, length-write_at, length-replicate,
  write_at, window, take, replicate, get_or, window-write_at, window-write_at_before,
  take-append_length,
}
use mathlib.Core.Path.{subst}
use litrace.Types.{ExecveSnapshot, zero_desc}
use litrace.User.{Call, got}
use litrace.Argv.{ArgvCopy, copy_argv}
use litrace.Argv.Bounds.{copy_argv-Within}
use litrace.Capture.{new_desc}
use litrace.Execve.{
  zero_snapshot, push_state_desc, state_string_read, append_execve_var_string, state_argv_taken,
  append_execve_var_argv, take_snapshot,
}
use litrace.Reader.Strings.{c_string}
use litrace.Reader.Argv.{block}
use litrace.Reader.Argv.Copied.{Vector, Took, copy_argv-Took}

-- The snapshot after a whole path was captured.
abbrev with_path : List ℕ → ExecveSnapshot
with_path p = record {
  var_desc = (record (new_desc 0 0) { length = length p }) ∷ zero_desc ∷ [];
  payload = write_at (replicate 256 0) 0 (c_string p);
  payload_len = length p;
  var_count = 1;
  reserved = 0;
}

append_execve_var_string-whole :
    (c : Call) (path : ℕ) (p : List ℕ)
    → path ≢ 0
    → c.read_user_str 128 path ≡ got (c_string p)
    → length p < 127
    → append_execve_var_string c 0 path zero_snapshot ≡ with_path p
unfolding append_execve_var_string state_string_read push_state_desc zero_snapshot
append_execve_var_string-whole c path p given read short = ground (arith, length-append p (0 ∷ []))

-- What a snapshot holds of the path `p` and the arguments `ss`.
pub record Captured (snap : ExecveSnapshot) (p : List ℕ) (ss : List (List ℕ)) : Type 0 where
  pub count : snap.var_count ≡ 2
  pub first : get_or snap.var_desc 0 zero_desc ≡ record (new_desc 0 0) { length = length p }
  pub second :
      get_or snap.var_desc 1 zero_desc
      ≡ record (new_desc 1 (length p)) { length = length (block ss) }
  pub size : length snap.payload ≡ 256
  pub len : snap.payload_len ≡ length p + length (block ss)
  pub room : length p + length (block ss) ≤ 256
  pub path_bytes : window 0 (length p) snap.payload ≡ p
  pub argv_bytes : window (length p) (length (block ss)) snap.payload ≡ block ss

module _ (c : Call) (argv : ℕ) (p : List ℕ) (ss : List (List ℕ)) (short : length p < 127) where
  abbrev start : ArgvCopy
  start = record {
    flags = 0;
    cursor = length p;
    payload = write_at (replicate 256 0) 0 (c_string p);
    exhausted = true;
  }

  start_size : length start.payload ≡ 256
  start_size = length-write_at (replicate 256 0) 0 (c_string p) ∙ length-replicate {A = ℕ} 256 0

  take_all_append : (xs : List ℕ) → take (length xs) xs ≡ xs
  take_all_append [] = refl
  take_all_append (x ∷ xs) = ap (λ t. x ∷ t) (take_all_append xs)

  taken_length :
      (a : ArgvCopy)
      → Took start a ss
      → a.cursor ≤ 256
      → (if ltb (length p) a.cursor then (a.cursor - length p) % 2 ^ 16 else 0) ≡ length (block ss)
  taken_length a t room = ground (arith, t.cursor)

  taken-Captured :
      (a : ArgvCopy)
      → Took start a ss
      → a.cursor ≤ 256
      → Captured (state_argv_taken (length p) (new_desc 1 (length p)) a (with_path p)) p ss
  unfolding state_argv_taken push_state_desc
  taken-Captured a t room = record {
    count = refl;
    first = refl;
    second =
        ap
          (λ f. record (new_desc 1 (length p)) {
            flags = f;
            length = if ltb (length p) a.cursor then (a.cursor - length p) % 2 ^ 16 else 0;
          })
          t.flags
        ∙ ap (λ n. record (new_desc 1 (length p)) { length = n }) (taken_length a t room);
    size = ap length t.payload ∙ length-write_at start.payload (length p) (block ss) ∙ start_size;
    len = ground (arith, t.cursor);
    room = omega (arith, t.cursor);
    path_bytes =
        ap (window 0 (length p)) t.payload
        ∙ window-write_at_before start.payload 0 (length p) (length p) (block ss) (omega arith)
        ∙ window-write_at (replicate 256 0) 0 (length p) (c_string p)
            (omega (arith, length-append p (0 ∷ [])))
            (omega (arith, length-append p (0 ∷ []), length-replicate {A = ℕ} 256 0))
        ∙ take-append_length p (0 ∷ []);
    argv_bytes =
        ap (window (length p) (length (block ss))) t.payload
        ∙ window-write_at start.payload (length p) (length (block ss)) (block ss) (omega arith)
            (omega (arith, t.cursor, start_size))
        ∙ take_all_append (block ss);
  }

  append_execve_var_argv-Captured :
      argv ≢ 0
      → Vector c argv 256 0 (length p) ss
      → Captured (append_execve_var_argv c 1 argv (with_path p)) p ss
  unfolding append_execve_var_argv
  append_execve_var_argv-Captured given v =
      let a = copy_argv c 256 argv start in
      let within =
        copy_argv-Within c (length p) 256 argv (omega arith) start
          (record { from_start = omega arith; in_limit = omega arith; size = start_size }) in
      subst (λ x. Captured x p ss)
        (sym (
          if_false (argv == 0) _ _ (ground arith)
          ∙ if_false (leb 256 (length p)) _ _ (ground arith)))
        (taken-Captured a (copy_argv-Took c argv 256 start ss v) within.in_limit)

-- The path and the vector of an execve as the process holds them at its entry: the path and each of
-- at most eight arguments are shorter than 127 bytes, and each finds 128 bytes left in the snapshot.
pub record Program (c : Call) (path argv : ℕ) (p : List ℕ) (ss : List (List ℕ)) : Type 0 where
  pub path_given : path ≢ 0
  pub path_read : c.read_user_str 128 path ≡ got (c_string p)
  pub path_short : length p < 127
  pub argv_given : argv ≢ 0
  pub vector : Vector c argv 256 0 (length p) ss

pub take_snapshot-Captured :
    (c : Call) (path argv : ℕ) (p : List ℕ) (ss : List (List ℕ))
    → Program c path argv p ss
    → Captured (take_snapshot c path argv zero_snapshot) p ss
unfolding take_snapshot
take_snapshot-Captured c path argv p ss g =
    rw (append_execve_var_string-whole c path p g.path_given g.path_read g.path_short)
      (append_execve_var_argv-Captured c argv p ss g.path_short g.argv_given g.vector)
